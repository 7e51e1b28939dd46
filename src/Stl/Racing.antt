-- ===== src/Stl/Racing.antt =====
-- Two updates of one property, both of which read before either writes: the lock of the repository
-- is given up in between, and neither looks again at what it filtered on.
use restq.Base.{
  ℕ, suc, ◌≢◌, String, true, false, [], ◌∷◌, Option, some, ◌≡◌, refl, ◌∙◌, arith, eq_iff, eq_refl,
  All, In, In_of_All, find_if, Bool-cases, Option-cases, inl, inr,
}
use mathlib.Core.Option.{some-injective, none-ne-some}
use restq.Multimap.{assign}
use restq.Resource.{Resource, Resources}
use restq.Query.{Query, set_resultset}
use restq.Stl.{same, key_of, answers, keeps, replace, apply_changes, updated, found}
use restq.Stl.Claiming.{updated_one, found_ok, found_kept, found_fields}
use restq.Stl.Reading.{In-of_find_if}
use restq.Stl.Updating.{
  HasOnly, IsStored, apply_change_only, has-assign, key_of-assign, key_of-answers, replace_first,
}

same_self : (a : Option String) (k : String) → a ≡ some k → same a a ≡ true
same_self a k e = rw e (eq_refl k)

module _ (lowercase : String → String) where
  -- What has been written once can be written again.
  replace_again :
      (r : Resource) (k : String) (store store' : Resources)
      → key_of lowercase r ≡ some k
      → replace lowercase r store ≡ some store'
      → replace lowercase r store' ≡ some store'
  unfolding replace
  replace_again r k [] store' ek e = absurd (none-ne-some _ e)
  replace_again r k (s ∷ store) store' ek e =
      elim (Bool-cases (same (key_of lowercase r) (key_of lowercase s))) [
        | inl hit ↦ first_hit (some-injective _ _ (rw hit at e))
        | inr miss ↦ elim (Option-cases (replace lowercase r store)) [
          | inl f ↦ absurd (none-ne-some _ (rw (miss, f) at e))
          | inr (t, f) ↦
              later_hit t miss (some-injective _ _ (rw (miss, f) at e))
                (replace_again r k store t ek f)
        ]
      ]
    where
      first_hit : r ∷ store ≡ store' → replace lowercase r store' ≡ some store'
      first_hit q = rw⁻¹ q (rw (same_self (key_of lowercase r) k ek) refl)

      later_hit :
          (t : Resources)
          → same (key_of lowercase r) (key_of lowercase s) ≡ false
          → s ∷ t ≡ store'
          → replace lowercase r t ≡ some t
          → replace lowercase r store' ≡ some store'
      later_hit t miss q f = rw⁻¹ q (rw (miss, f) refl)

  -- Two updates of a property from `old` to `new` that have both read the resource: each writes it,
  -- and each is told that it did.
  pub updated_twice :
      (k name old new : String) (r : Resource) (store : Resources) (q q' : Query) (l l' : ℕ)
      → All IsStored store
      → find_if (answers lowercase k) store ≡ some r
      → HasOnly name old r
      → old ≢ new
      → name ≢ "key"
      → name ≢ "modified"
      → name ≢ "revision"
      → (q.keys ≡ k ∷ [])
        × (q.related ≡ "")
        × (q.error_code ≡ 0)
        × (q.fields ≡ [])
        × (q.index ≡ 0)
        × (q.limit ≡ suc l)
      → keeps q.inclusive_filters q.exclusive_filters r ≡ true
      → (q'.keys ≡ k ∷ [])
        × (q'.related ≡ "")
        × (q'.error_code ≡ 0)
        × (q'.fields ≡ [])
        × (q'.index ≡ 0)
        × (q'.limit ≡ suc l')
      → keeps q'.inclusive_filters q'.exclusive_filters r ≡ true
      → (store' : Resources) × (updated lowercase store ((name, new) ∷ []) (found lowercase store q)
          ≡ some (store', set_resultset (assign name new r ∷ []) (found lowercase store q)))
        × (updated lowercase store' ((name, new) ∷ []) (found lowercase store q')
            ≡ some (store', set_resultset (assign name new r ∷ []) (found lowercase store q')))
  updated_twice k name old new r store q q' l l' st f only d nk nm nr (hk, hr, he, hf, hi, hl) hq
        (hk', hr', he', hf', hi', hl') hq' =
      (
        replaced.0,
        updated_one lowercase store replaced.0 ((name, new) ∷ []) r (assign name new r)
            (found lowercase store q) (found_ok lowercase k r store q hk he f)
            (found_kept lowercase k r store q l hk hr f hi hl hq)
            (found_fields lowercase store q ∙ hf) applied replaced.1,
        updated_one lowercase replaced.0 replaced.0 ((name, new) ∷ []) r (assign name new r)
            (found lowercase store q') (found_ok lowercase k r store q' hk' he' f)
            (found_kept lowercase k r store q' l' hk' hr' f hi' hl' hq')
            (found_fields lowercase store q' ∙ hf') applied
            (replace_again (assign name new r) (lowercase k) store replaced.0 key replaced.1),
      )
    where
      hit : In r store × (answers lowercase k r ≡ true)
      hit = In-of_find_if (answers lowercase k) r store f

      stored : IsStored r
      stored = In_of_All IsStored r store st hit.0

      key : key_of lowercase (assign name new r) ≡ some (lowercase k)
      key =
          key_of-assign lowercase name new r (ground (arith, eq_iff "key" name)) stored
          ∙ key_of-answers lowercase k r hit.1

      replaced :
          (store' : Resources) × (replace lowercase (assign name new r) store ≡ some store')
          × (find_if (answers lowercase k) store' ≡ some (assign name new r))
      replaced =
          replace_first lowercase k r (assign name new r) store st f
            (has-assign "key" name new r ∙ stored.1) key

      applied : apply_changes ((name, new) ∷ []) (r, false) ≡ (assign name new r, true)
      applied =
          apply_change_only name new old r false (ground (arith, eq_iff name "modified"))
            (ground (arith, eq_iff name "revision")) (ground (arith, eq_iff old new)) only
