-- ===== src/Stl/Claiming.antt =====
-- Two updates of one property through a filter on its old value, one after the other: the first wins,
-- and the second finds nothing. The dispatcher claims a message state in this way.
use restq.Base.{
  ℕ, zero, suc, ◌≢◌, String, Bool, true, false, [], ◌∷◌, some, ◌≡◌, refl, ◌∙◌, ap, subst, arith,
  eq_iff, All, In, here, there, In_of_All, Bool-cases, inl, inr, find_if, filter, take, drop,
}
use restq.Multimap.{Multimap, equal_range, assign}
use restq.Resource.{Resource, Resources}
use restq.Query.{Query, has_failed, has_fields, set_fields, set_resultset}
use restq.Stl.{
  answers, select, candidates, answer, read, keeps, update, update_all, replace, apply_changes,
  fields, updated, found,
}
use restq.Stl.Filter.{Matches, keeps-Matches}
use restq.Stl.Reading.{answer_whole, answer_found}
use restq.Stl.Updating.{
  HasOnly, IsStored, equal_range-assign_self, apply_change_only, has-assign, key_of-assign,
  key_of-answers, replace_first,
}
use restq.Stl.Reading.{In-of_find_if}

not_keeps : (r : Resource) (inclusive fs : Multimap) → ¬ Matches r fs → keeps inclusive fs r ≡ false
not_keeps r inclusive fs h = elim (Bool-cases (keeps inclusive fs r)) [
  | inl e ↦ absurd (h (keeps-Matches r inclusive fs e))
  | inr e ↦ e
]

take-drop_nil : (limit index : ℕ) (rs : Resources) → rs ≡ [] → take limit (drop index rs) ≡ []
take-drop_nil limit index rs e = rw e (go limit index)
  where
    go : (limit index : ℕ) → take limit (drop index (let n : Resources = [] in n)) ≡ []
    go zero index = refl
    go (suc n) zero = refl
    go (suc n) (suc m) = refl

filter_one : (p : Resource → Bool) (r : Resource) → p r ≡ true → filter p (r ∷ []) ≡ r ∷ []
filter_one p r e = rw e

filter_none : (p : Resource → Bool) (r : Resource) → p r ≡ false → filter p (r ∷ []) ≡ []
filter_none p r e = rw e

module _ (lowercase : String → String) where
  candidates_one :
      (k : String) (r : Resource) (store : Resources)
      → find_if (answers lowercase k) store ≡ some r
      → candidates lowercase (k ∷ []) store ≡ some (r ∷ [])
  unfolding candidates select
  candidates_one k r store f = rw f

  -- Only the keys of a query bear on where its read starts.
  read_one :
      (k : String) (r : Resource) (store : Resources) (q : Query)
      → q.keys ≡ k ∷ []
      → find_if (answers lowercase k) store ≡ some r
      → read lowercase store q ≡ answer lowercase store q (some (r ∷ []))
  unfolding read
  read_one k r store q hk f =
      ap (answer lowercase store q)
        (ap (λ ks. candidates lowercase ks store) hk ∙ candidates_one k r store f)

  -- What the update reads for a query with one key.
  found_one :
      (k : String) (r : Resource) (store : Resources) (q : Query)
      → q.keys ≡ k ∷ []
      → q.related ≡ ""
      → find_if (answers lowercase k) store ≡ some r
      → (found lowercase store q).resultset
        ≡ take q.limit
            (drop q.index (filter (keeps q.inclusive_filters q.exclusive_filters) (r ∷ [])))
  unfolding found set_fields
  found_one k r store q hk hr f =
      ap (λ (p : Query). p.resultset) (read_one k r store (set_fields [] q) hk f)
      ∙ answer_whole lowercase store (r ∷ []) (set_fields [] q) refl hr

  pub found_ok :
      (k : String) (r : Resource) (store : Resources) (q : Query)
      → q.keys ≡ k ∷ []
      → q.error_code ≡ 0
      → find_if (answers lowercase k) store ≡ some r
      → has_failed (found lowercase store q) ≡ false
  unfolding found set_fields has_failed
  found_ok k r store q hk he f =
      ap (λ p. has_failed p) (read_one k r store (set_fields [] q) hk f)
      ∙ answer_found lowercase store (r ∷ []) (set_fields [] q) he

  updated_none :
      (store : Resources) (changes : Resource) (q : Query)
      → has_failed q ≡ false
      → q.resultset ≡ []
      → updated lowercase store changes q ≡ some (store, set_resultset [] q)
  unfolding updated update_all
  updated_none store changes q ok e = rw (ok, e)

  -- An update with one key, no relationship and no error changes nothing and is answered with an empty
  -- result, where the first stored resource that answers the key lacks what the exclusive filters name.
  pub update_refused :
      (k : String) (r : Resource) (store : Resources) (changes : Resource) (q : Query)
      → q.keys ≡ k ∷ []
      → q.related ≡ ""
      → q.error_code ≡ 0
      → find_if (answers lowercase k) store ≡ some r
      → ¬ Matches r q.exclusive_filters
      → update lowercase store changes q ≡ some (store, set_resultset [] (found lowercase store q))
  unfolding update
  update_refused k r store changes q hk hr he f h =
      updated_none store changes (found lowercase store q) (found_ok k r store q hk he f) (
        found_one k r store q hk hr f
        ∙ take-drop_nil q.limit q.index _ (
            filter_none (keeps q.inclusive_filters q.exclusive_filters) r
              (not_keeps r q.inclusive_filters q.exclusive_filters h)))

  pub updated_one :
      (store store' : Resources) (changes r r' : Resource) (q : Query)
      → has_failed q ≡ false
      → q.resultset ≡ r ∷ []
      → q.fields ≡ []
      → apply_changes changes (r, false) ≡ (r', true)
      → replace lowercase r' store ≡ some store'
      → updated lowercase store changes q ≡ some (store', set_resultset (r' ∷ []) q)
  unfolding updated update_all fields has_fields
  updated_one store store' changes r r' q ok e hf a p = rw (ok, e, a, p, hf)

  pub found_kept :
      (k : String) (r : Resource) (store : Resources) (q : Query) (l : ℕ)
      → q.keys ≡ k ∷ []
      → q.related ≡ ""
      → find_if (answers lowercase k) store ≡ some r
      → q.index ≡ 0
      → q.limit ≡ suc l
      → keeps q.inclusive_filters q.exclusive_filters r ≡ true
      → (found lowercase store q).resultset ≡ r ∷ []
  found_kept k r store q l hk hr f hi hl hq =
      found_one k r store q hk hr f
      ∙ ap (λ rs. take q.limit (drop q.index rs))
          (filter_one (keeps q.inclusive_filters q.exclusive_filters) r hq)
      ∙ one q.limit q.index hi hl
    where
      one :
          (limit index : ℕ) → index ≡ 0 → limit ≡ suc l → take limit (drop index (r ∷ [])) ≡ r ∷ []
      one limit index i j = rw (i, j) (ap (λ rs. r ∷ rs) (take-drop_nil l 0 [] refl))

  pub found_fields : (store : Resources) (q : Query) → (found lowercase store q).fields ≡ q.fields
  unfolding found set_fields
  found_fields store q = refl

  -- After the write the old value is gone, so a filter on it excludes the resource.
  not_Matches_after :
      (name old new : String) (r : Resource) (fs : Multimap)
      → HasOnly name old r
      → old ≢ new
      → In (name, old) fs
      → ¬ Matches (assign name new r) fs
  not_Matches_after name old new r fs only d m matches = not_new (
      subst (In old) (equal_range-assign_self name new old r only)
        (In_of_All (λ f. In f.1 (equal_range f.0 (assign name new r))) (name, old) fs matches m))
    where
      not_new : In old (new ∷ []) → ⊥
      not_new (here e) = d e
      not_new (there n) = elim n [ ]

  -- The first of two updates of a property from `old` to `new`, which the first query's filters let
  -- through, writes the resource; any later update that filters on `old` finds nothing to do.
  pub update_claims_once :
      (k name old new : String) (r : Resource) (store : Resources) (q q' : Query) (l : ℕ)
      (changes : Resource)
      → All IsStored store
      → find_if (answers lowercase k) store ≡ some r
      → HasOnly name old r
      → old ≢ new
      → name ≢ "key"
      → name ≢ "modified"
      → name ≢ "revision"
      → q.keys ≡ k ∷ []
      → q.related ≡ ""
      → q.error_code ≡ 0
      → q.fields ≡ []
      → q.index ≡ 0
      → q.limit ≡ suc l
      → keeps q.inclusive_filters q.exclusive_filters r ≡ true
      → q'.keys ≡ k ∷ []
      → q'.related ≡ ""
      → q'.error_code ≡ 0
      → In (name, old) q'.exclusive_filters
      → (store' : Resources) × (update lowercase store ((name, new) ∷ []) q
          ≡ some (store', set_resultset (assign name new r ∷ []) (found lowercase store q)))
        × (update lowercase store' changes q'
            ≡ some (store', set_resultset [] (found lowercase store' q')))
  unfolding update
  update_claims_once k name old new r store q q' l changes st f only d nk nm nr hk hr he hf hi hl hq
        hk' hr' he' m =
      (store', won, lost)
    where
      r' : Resource
      r' = assign name new r

      hit : In r store × (answers lowercase k r ≡ true)
      hit = In-of_find_if (answers lowercase k) r store f

      stored : IsStored r
      stored = In_of_All IsStored r store st hit.0

      replaced :
          (store' : Resources) × (replace lowercase r' store ≡ some store')
          × (find_if (answers lowercase k) store' ≡ some r')
      replaced =
          replace_first lowercase k r r' store st f (has-assign "key" name new r ∙ stored.1) (
            key_of-assign lowercase name new r (ground (arith, eq_iff "key" name)) stored
            ∙ key_of-answers lowercase k r hit.1)

      store' : Resources
      store' = replaced.0

      won :
          update lowercase store ((name, new) ∷ []) q
          ≡ some (store', set_resultset (r' ∷ []) (found lowercase store q))
      won =
          updated_one store store' ((name, new) ∷ []) r r' (found lowercase store q)
            (found_ok k r store q hk he f) (found_kept k r store q l hk hr f hi hl hq)
            (found_fields store q ∙ hf)
            (apply_change_only name new old r false (ground (arith, eq_iff name "modified"))
              (ground (arith, eq_iff name "revision")) (ground (arith, eq_iff old new)) only)
            replaced.1

      lost :
          update lowercase store' changes q'
          ≡ some (store', set_resultset [] (found lowercase store' q'))
      lost =
          update_refused k r' store' changes q' hk' hr' he' replaced.2
            (not_Matches_after name old new r q'.exclusive_filters only d m)
