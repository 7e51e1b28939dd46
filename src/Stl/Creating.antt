-- ===== src/Stl/Creating.antt =====
-- Creation is all or nothing, and keeps keys distinct if the new resources' own keys are.
use restq.Base.{
  String, Bool, true, false, List, [], ◌∷◌, ◌++◌, ◌≡◌, sym, ◌∙◌, arith, any, All, In, here, there,
  Bool-cases, inl, inr, or_true,
}
use mathlib.Core.Bool.{true≢false}
use restq.Resource.{Resource, Resources}
use restq.Query.{Query, set_error_code}
use restq.Stl.{same, key_of, conflicts, create, conflict_code}
use restq.Stl.Keys.{same_sym, Identifies, KeysDistinct, Apart, KeysDistinct-append}

any-true :
    {A : Type 0} (p : A → Bool) (a : A) (xs : List A) → In a xs → p a ≡ true → any p xs ≡ true
any-true p a [] m h = elim m [ ]
any-true p a (x ∷ xs) (here e) h = rw (← e, h)
any-true p a (x ∷ xs) (there m) h = rw (any-true p a xs m h) (or_true (p x))

any-false : {A : Type 0} (p : A → Bool) (xs : List A) → any p xs ≡ false → All (λ a. p a ≡ false) xs
any-false p [] h = tt
any-false p (x ∷ xs) h = ground (arith, any-false p xs)

module _ (lowercase : String → String) where
  Identifies-of :
      (v : Resource) (store : Resources)
      → conflicts lowercase store v ≡ false
      → Identifies lowercase v store
  unfolding conflicts
  Identifies-of v store h = any-false _ store h

  Apart-of :
      (values store : Resources)
      → All (λ v. conflicts lowercase store v ≡ false) values
      → Apart lowercase values store
  Apart-of [] store h = tt
  Apart-of (v ∷ values) store (h, hs) = (Identifies-of v store h, Apart-of values store hs)

  Identifies-flip :
      (r : Resource) (values : Resources)
      → Apart lowercase values (r ∷ [])
      → Identifies lowercase r values
  Identifies-flip r [] h = tt
  Identifies-flip r (v ∷ values) ((h, _), hs) =
      (same_sym (key_of lowercase r) (key_of lowercase v) ∙ h, Identifies-flip r values hs)

  Apart-head :
      (values store : Resources) (r : Resource)
      → Apart lowercase values (r ∷ store)
      → Apart lowercase values (r ∷ []) × Apart lowercase values store
  Apart-head [] store r h = (tt, tt)
  Apart-head (v ∷ values) store r ((h, k), hs) =
      let (a, b) = Apart-head values store r hs in (((h, tt), a), (k, b))

  Apart-sym :
      (values store : Resources) → Apart lowercase values store → Apart lowercase store values
  Apart-sym values [] h = tt
  Apart-sym values (r ∷ store) h =
      let (a, b) = Apart-head values store r h in
      (Identifies-flip r values a, Apart-sym values store b)

  KeysDistinct-drop :
      (xs ys : Resources) → KeysDistinct lowercase (xs ++ ys) → KeysDistinct lowercase ys
  KeysDistinct-drop [] ys h = h
  KeysDistinct-drop (x ∷ xs) ys (h, hs) = KeysDistinct-drop xs ys hs

  -- A request one of whose keys is taken changes nothing and is answered with the conflict.
  pub create_conflict :
      (store values : Resources) (q : Query) (v : Resource)
      → In v values
      → conflicts lowercase store v ≡ true
      → create lowercase store values q ≡ (store, set_error_code conflict_code q)
  unfolding create
  create_conflict store values q v m h = rw (any-true (conflicts lowercase store) v values m h)

  -- Where the keys in the store are distinct and those of the request are, creation leaves the keys
  -- in the store distinct, whether it succeeds or fails.
  pub create-KeysDistinct :
      (store values : Resources) (q : Query)
      → KeysDistinct lowercase store
      → KeysDistinct lowercase values
      → KeysDistinct lowercase (create lowercase store values q).0
  unfolding create
  create-KeysDistinct store values q h k =
      elim (Bool-cases (any (conflicts lowercase store) values)) [
        | inl e ↦ rw e h
        | inr e ↦ rw e (
            KeysDistinct-append lowercase store values h k
              (Apart-sym values store (Apart-of values store (any-false _ values e))))
      ]

  -- Two resources of one request with one key, which nothing stored has, leave the keys in the store
  -- not distinct.
  pub create_duplicates :
      (store : Resources) (v w : Resource) (q : Query)
      → conflicts lowercase store v ≡ false
      → conflicts lowercase store w ≡ false
      → same (key_of lowercase v) (key_of lowercase w) ≡ true
      → ¬ KeysDistinct lowercase (create lowercase store (v ∷ w ∷ []) q).0
  unfolding create
  create_duplicates store v w q hv hw e =
      rw (hv, hw) (λ d. true≢false (sym e ∙ (KeysDistinct-drop store (v ∷ w ∷ []) d).0.0))
