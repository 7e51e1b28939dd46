-- ===== src/Stl/Keys.antt =====
-- Keys of stored resources, compared without regard to case.
use restq.Base.{
  String, true, false, [], ◌∷◌, ◌++◌, Option, none, some, ◌≡◌, refl, sym, ◌∙◌, arith, eq_iff, All,
  In, here, there, In_of_All, ◌⊎◌, inl, inr,
}
use restq.Resource.{Resource, Resources}
use restq.Stl.{same, key_of}

pub same_sym : (a b : Option String) → same a b ≡ same b a
same_sym none none = refl
same_sym none (some b) = refl
same_sym (some a) none = refl
same_sym (some a) (some b) = ground (arith, eq_iff a b, eq_iff b a)

pub eq_of_same : (a b : Option String) → same a b ≡ true → a ≡ b
eq_of_same none b h = cc
eq_of_same (some a) none h = cc
eq_of_same (some a) (some b) h = ground (arith, eq_iff a b)

module _ (lowercase : String → String) where
  -- No stored resource but `r` itself has the key of `r`.
  abbrev pub Identifies : Resource → Resources → Type 0
  Identifies r = All (λ s. same (key_of lowercase r) (key_of lowercase s) ≡ false)

  -- No two resources of the list share a key.
  abbrev pub KeysDistinct : Resources → Type 0
  KeysDistinct [] = Unit
  KeysDistinct (r ∷ rs) = Identifies r rs × KeysDistinct rs

  Identifies-append :
      (r : Resource) (xs ys : Resources)
      → Identifies r xs
      → Identifies r ys
      → Identifies r (xs ++ ys)
  Identifies-append r [] ys h k = k
  Identifies-append r (x ∷ xs) ys (h, hs) k = (h, Identifies-append r xs ys hs k)

  abbrev pub Apart : Resources → Resources → Type 0
  Apart xs ys = All (λ x. Identifies x ys) xs

  pub KeysDistinct-append :
      (xs ys : Resources)
      → KeysDistinct xs
      → KeysDistinct ys
      → Apart xs ys
      → KeysDistinct (xs ++ ys)
  KeysDistinct-append [] ys h k a = k
  KeysDistinct-append (x ∷ xs) ys (h, hs) k (a, as') =
      (Identifies-append x xs ys h a, KeysDistinct-append xs ys hs k as')

  Identifies-In :
      (r x : Resource) (rs : Resources)
      → Identifies r rs
      → In x rs
      → same (key_of lowercase r) (key_of lowercase x) ≡ false
  Identifies-In r x rs h m = In_of_All _ x rs h m

  -- Two stored resources have different keys or are one.
  pub KeysDistinct-cases :
      (r x : Resource) (rs : Resources)
      → KeysDistinct rs
      → In r rs
      → In x rs
      → (same (key_of lowercase r) (key_of lowercase x) ≡ false) ⊎ (r ≡ x)
  KeysDistinct-cases r x [] h m n = elim m [ ]
  KeysDistinct-cases r x (s ∷ rs) (h, hs) (here e) (here f) = inr (e ∙ sym f)
  KeysDistinct-cases r x (s ∷ rs) (h, hs) (here e) (there n) = inl (rw e (Identifies-In s x rs h n))
  KeysDistinct-cases r x (s ∷ rs) (h, hs) (there m) (here f) =
      inl (same_sym (key_of lowercase r) (key_of lowercase x) ∙ rw f (Identifies-In s r rs h m))
  KeysDistinct-cases r x (s ∷ rs) (h, hs) (there m) (there n) = KeysDistinct-cases r x rs hs m n
