-- ===== src/Stl/Deleting.antt =====
-- What a deletion leaves alone.
use restq.Base.{
  String, true, false, [], ◌∷◌, none, some, ◌≡◌, refl, sym, ◌∙◌, ap, subst, All, In, here, there,
  Bool-cases, Option-cases, inl, inr,
}
use mathlib.Core.Bool.{true≢false}
use mathlib.Core.Option.{some-injective, none-ne-some}
use restq.Multimap.{Multimap}
use restq.Resource.{Resource, Resources}
use restq.Query.{Query, has_failed}
use restq.Stl.{same, key_of, read, erase_first, erase_all, destroy}
use restq.Stl.Filter.{Matches}
use restq.Stl.Keys.{KeysDistinct, KeysDistinct-cases}
use restq.Stl.Reading.{read_sound}

module _ (lowercase : String → String) where
  erase_first-In :
      (r x : Resource) (store after : Resources)
      → In r store
      → same (key_of lowercase r) (key_of lowercase x) ≡ false
      → erase_first lowercase x store ≡ some after
      → In r after
  unfolding erase_first
  erase_first-In r x [] after m h e = elim m [ ]
  erase_first-In r x (s ∷ store) after m h e =
      elim (Bool-cases (same (key_of lowercase s) (key_of lowercase x))) [
        | inl hit ↦ first_gone m (rw hit at e) hit
        | inr miss ↦ elim (Option-cases (erase_first lowercase x store)) [
          | inl f ↦ absurd (none-ne-some _ (rw (miss, f) at e))
          | inr (rest, f) ↦
              kept m (some-injective _ _ (rw (miss, f) at e))
                (λ n. erase_first-In r x store rest n h f)
        ]
      ]
    where
      first_gone :
          In r (s ∷ store)
          → some store ≡ some after
          → same (key_of lowercase s) (key_of lowercase x) ≡ true
          → In r after
      first_gone (here p) q hit = absurd (
          true≢false
            (sym hit ∙ subst (λ t. same (key_of lowercase t) (key_of lowercase x) ≡ false) p h))
      first_gone (there n) q hit = subst (In r) (some-injective _ _ q) n

      kept :
          {rest : Resources}
          → In r (s ∷ store)
          → s ∷ rest ≡ after
          → (In r store → In r rest)
          → In r after
      kept (here p) q f = subst (In r) q (here p)
      kept (there n) q f = subst (In r) q (there (f n))

  erase_all-In :
      (r : Resource) (xs store after : Resources)
      → In r store
      → All (λ x. same (key_of lowercase r) (key_of lowercase x) ≡ false) xs
      → erase_all lowercase xs store ≡ some after
      → In r after
  unfolding erase_all
  erase_all-In r [] store after m h e = subst (In r) (some-injective _ _ e) m
  erase_all-In r (x ∷ xs) store after m (h, hs) e =
      elim (Option-cases (erase_first lowercase x store)) [
        | inl f ↦ absurd (none-ne-some _ (rw f at e))
        | inr (rest, f) ↦
            erase_all-In r xs rest after (erase_first-In r x store rest m h f) hs (rw f at e)
      ]

  other_keys :
      (r : Resource) (store found : Resources) (fs : Multimap)
      → KeysDistinct lowercase store
      → In r store
      → ¬ Matches r fs
      → All (λ x. In x store × Matches x fs) found
      → All (λ x. same (key_of lowercase r) (key_of lowercase x) ≡ false) found
  other_keys r store [] fs d m h k = tt
  other_keys r store (x ∷ found) fs d m h ((n, p), k) = (
    elim (KeysDistinct-cases lowercase r x store d m n) [
      | inl apart ↦ apart
      | inr one ↦ absurd (h (rw one p))
    ],
    other_keys r store found fs d m h k,
  )

  -- A deletion leaves every resource in the store that lacks what the exclusive filters name.
  pub destroy_others :
      (store after : Resources) (q q' : Query) (r : Resource)
      → KeysDistinct lowercase store
      → q.fields ≡ []
      → q.related ≡ ""
      → destroy lowercase store q ≡ some (after, q')
      → In r store
      → ¬ Matches r q.exclusive_filters
      → In r after
  unfolding destroy
  destroy_others store after q q' r d hf hr e m h =
      elim (Bool-cases (has_failed (read lowercase store q))) [
        | inl failed ↦
            subst (In r)
              (ap (λ (p : Resources × Query). p.0) (some-injective _ _ (rw (failed, destroy) at e)))
              m
        | inr ok ↦
            elim (Option-cases (erase_all lowercase (read lowercase store q).resultset store)) [
              | inl f ↦ absurd (none-ne-some _ (rw (ok, f) at e))
              | inr (rest, f) ↦
                  erase_all-In r (read lowercase store q).resultset store after m
                    (other_keys r store _ q.exclusive_filters d m h
                      (read_sound lowercase store q hf hr ok))
                    (f
                      ∙ ap (λ (p : Resources × Query). some p.0)
                          (some-injective _ _ (rw (ok, f) at e)))
            ]
      ]

  erase_first-none :
      (x : Resource) (store : Resources)
      → All (λ s. same (key_of lowercase s) (key_of lowercase x) ≡ false) store
      → erase_first lowercase x store ≡ none
  unfolding erase_first
  erase_first-none x [] h = refl
  erase_first-none x (s ∷ store) (h, hs) = rw (h, erase_first-none x store hs)

  -- Where the read of a deletion does not fail and the first resource of its answer, cut down to the
  -- requested fields, has the key of nothing in the store, the deletion erases through the end of the
  -- list.
  pub destroy_undefined :
      (store xs : Resources) (q : Query) (x : Resource)
      → has_failed (read lowercase store q) ≡ false
      → (read lowercase store q).resultset ≡ x ∷ xs
      → All (λ s. same (key_of lowercase s) (key_of lowercase x) ≡ false) store
      → destroy lowercase store q ≡ none
  unfolding destroy erase_all
  destroy_undefined store xs q x ok e h = rw (ok, e, erase_first-none x store h)
