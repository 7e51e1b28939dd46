-- ===== src/Stl/Reading.antt =====
-- What a read answers.
use restq.Base.{
  ℕ, zero, suc, ◌≤◌, not, length, map, ap, String, Bool, true, false, List, [], ◌∷◌, Option, none,
  some, ◌≡◌, refl, sym, ◌∙◌, ◌↔◌, arith, All, In, here, there, Bool-cases, Option-cases, inl, inr,
  find_if, filter, All-of_In, filter-All, take, drop, subst, take-All, drop-All, is_nil,
}
use mathlib.Core.Bool.{true≢false}
use mathlib.Core.Option.{some-injective, none-ne-some, some-ne-none}
use restq.Resource.{Resource, Resources}
use restq.Query.{Query, has_failed, set_error_code, set_resultset, has_fields}
use restq.Stl.{
  page, contains, keeps, read, fields, including, candidates, select, answers, push, answer,
}
use restq.Stl.Filter.{Matches, keeps-Matches}
use restq.Stl.Paging.{page-take-drop}

pub In-of_find_if :
    {A : Type 0} (p : A → Bool) (a : A) (xs : List A)
    → find_if p xs ≡ some a
    → In a xs × (p a ≡ true)
In-of_find_if p a [] h = cc
In-of_find_if p a (x ∷ xs) h = elim (Bool-cases (p x)) [
  | inl e ↦ (here (ground arith), ground arith)
  | inr e ↦ let (m, n) = In-of_find_if p a xs (rw e at h) in (there m, n)
]

find_if-none :
    {A : Type 0} (p : A → Bool) (xs : List A) → find_if p xs ≡ none → All (λ a. p a ≡ false) xs
find_if-none p [] h = tt
find_if-none p (x ∷ xs) h = elim (Bool-cases (p x)) [
  | inl e ↦ cc (rw e at h)
  | inr e ↦ (e, find_if-none p xs (rw e at h))
]

find_if_of_none :
    {A : Type 0} (p : A → Bool) (xs : List A) → All (λ a. p a ≡ false) xs → find_if p xs ≡ none
find_if_of_none p [] h = refl
find_if_of_none p (x ∷ xs) (h, hs) = rw h (find_if_of_none p xs hs)

push-none : (o : Option Resource) → push o none ≡ none
push-none none = refl
push-none (some r) = refl

filter-passing :
    (P : Resource → Type 0) (p : Resource → Bool) (rs : Resources)
    → ((r : Resource) → p r ≡ true → P r)
    → All P (filter p rs)
filter-passing P p [] f = tt
filter-passing P p (r ∷ rs) f = elim (Bool-cases (p r)) [
  | inl e ↦ rw e (f r e, filter-passing P p rs f)
  | inr e ↦ rw e (filter-passing P p rs f)
]

length-take : (n : ℕ) (rs : Resources) → length (take n rs) ≤ n
length-take zero rs = omega arith
length-take (suc n) [] = omega arith
length-take (suc n) (r ∷ rs) = let le = length-take n rs in omega arith

length-filter : (p : Resource → Bool) (rs : Resources) → length (filter p rs) ≤ length rs
length-filter p [] = omega arith
length-filter p (r ∷ rs) =
    let le = length-filter p rs in
    elim (Bool-cases (p r)) [ inl e ↦ rw e (omega arith) | inr e ↦ rw e (omega arith) ]

length-map : (f : Resource → Resource) (rs : Resources) → length (map f rs) ≡ length rs
length-map f [] = refl
length-map f (r ∷ rs) = ap suc (length-map f rs)

-- The named properties are of no more resources than there are.
fields_bounds : (q : Query) (rs : Resources) (n : ℕ) → length rs ≤ n → length (fields rs q) ≤ n
unfolding fields
fields_bounds q rs n h =
    let named = map (λ r. filter (λ e. contains q.fields e.0) r) rs in
    let le = length-filter (λ r. not (is_nil r)) named in
    let same = length-map (λ r. filter (λ e. contains q.fields e.0) r) rs in
    elim (Bool-cases (has_fields q)) [ inl e ↦ rw e (omega arith) | inr e ↦ rw e h ]

All-× : (P Q : Resource → Type 0) (rs : Resources) → All P rs → All Q rs → All (λ r. P r × Q r) rs
All-× P Q [] h k = tt
All-× P Q (r ∷ rs) (h, hs) (k, ks) = ((h, k), All-× P Q rs hs ks)

module _ (lowercase : String → String) where
  select-In :
      (keys : List String) (store rs : Resources)
      → select lowercase keys store ≡ some rs
      → All (λ r. In r store) rs
  unfolding select
  select-In [] store rs h = subst (All (λ r. In r store)) (some-injective _ _ h) tt
  select-In (key ∷ keys) store rs h = elim (Option-cases (find_if (answers lowercase key) store)) [
    | inl e ↦ absurd (none-ne-some _ (rw e at h))
    | inr (r, e) ↦ elim (Option-cases (select lowercase keys store)) [
      | inl f ↦ absurd (none-ne-some _ (rw (e, f) at h))
      | inr (rs', f) ↦
          subst (All (λ r. In r store)) (some-injective _ _ (rw (e, f) at h))
            ((In-of_find_if (answers lowercase key) r store e).0, select-In keys store rs' f)
    ]
  ]

  -- The candidates of a read are stored.
  pub candidates-In :
      (keys : List String) (store rs : Resources)
      → candidates lowercase keys store ≡ some rs
      → All (λ r. In r store) rs
  unfolding candidates
  candidates-In [] store rs h =
      subst (All (λ r. In r store)) (some-injective _ _ h) (All-of_In _ store (λ r m. m))
  candidates-In (key ∷ keys) store rs h = select-In (key ∷ keys) store rs h

  -- A query without fields and without a relationship is answered with its page of what it keeps.
  pub answer_whole :
      (store rs : Resources) (q : Query)
      → q.fields ≡ []
      → q.related ≡ ""
      → (answer lowercase store q (some rs)).resultset
        ≡ take q.limit (drop q.index (filter (keeps q.inclusive_filters q.exclusive_filters) rs))
  unfolding answer fields including has_fields set_resultset
  answer_whole store rs q hf hr = rw (hf, hr) (page-take-drop q.index q.limit _)

  pub answer_failed :
      (store : Resources) (q : Query) → has_failed (answer lowercase store q none) ≡ true
  unfolding answer has_failed set_error_code
  answer_failed store q = refl

  pub answer_found :
      (store rs : Resources) (q : Query)
      → q.error_code ≡ 0
      → has_failed (answer lowercase store q (some rs)) ≡ false
  unfolding answer has_failed set_resultset
  answer_found store rs q h = rw h

  page_bounds : (index limit : ℕ) (rs : Resources) → length (page index limit rs) ≤ limit
  page_bounds index limit rs =
      rw (page-take-drop index limit rs) (length-take limit (drop index rs))

  -- What a page is filled with is stored, and has all that the exclusive filters name.
  pub page_sound :
      (store rs : Resources) (q : Query)
      → candidates lowercase q.keys store ≡ some rs
      → All
          (λ r. In r store × Matches r q.exclusive_filters)
          (page q.index q.limit (filter (keeps q.inclusive_filters q.exclusive_filters) rs))
  page_sound store rs q e =
      rw
        (page-take-drop q.index q.limit (filter (keeps q.inclusive_filters q.exclusive_filters) rs))
        (take-All _ q.limit _ (
          drop-All _ q.index _ (
            All-× _ _ _ (filter-All _ _ rs (candidates-In q.keys store rs e)) (
              filter-passing _ _ rs
                (λ r k. keeps-Matches r q.inclusive_filters q.exclusive_filters k)))))

  -- What a read of whole resources, with no related ones, returns where it does not fail is stored,
  -- and has all that the exclusive filters name.
  pub read_sound :
      (store : Resources) (q : Query)
      → q.fields ≡ []
      → q.related ≡ ""
      → has_failed (read lowercase store q) ≡ false
      → All (λ r. In r store × Matches r q.exclusive_filters) (read lowercase store q).resultset
  unfolding read answer fields including has_fields set_resultset
  read_sound store q hf hr ok = elim (Option-cases (candidates lowercase q.keys store)) [
    | inl e ↦ absurd (true≢false (sym (answer_failed store q) ∙ (rw (e, read) at ok)))
    | inr (rs, e) ↦ rw (e, hf, hr) (page_sound store rs q e)
  ]

  -- A read with no related resources returns at most as many as its limit, where it does not fail.
  pub read_bounds :
      (store : Resources) (q : Query)
      → q.related ≡ ""
      → has_failed (read lowercase store q) ≡ false
      → length (read lowercase store q).resultset ≤ q.limit
  unfolding read answer including set_resultset fields has_fields
  read_bounds store q hr ok = elim (Option-cases (candidates lowercase q.keys store)) [
    | inl e ↦ absurd (true≢false (sym (answer_failed store q) ∙ (rw (e, read) at ok)))
    | inr (rs, e) ↦
        rw (e, hr)
          (fields_bounds q (page q.index q.limit _) q.limit (page_bounds q.index q.limit _))
  ]

  select_missing :
      (keys : List String) (store : Resources)
      → select lowercase keys store ≡ none
      → (key : String) × In key keys × All (λ r. answers lowercase key r ≡ false) store
  unfolding select
  select_missing [] store h = cc
  select_missing (key ∷ keys) store h =
      elim (Option-cases (find_if (answers lowercase key) store)) [
        | inl e ↦ (key, here refl, find_if-none _ store e)
        | inr (r, e) ↦ elim (Option-cases (select lowercase keys store)) [
          | inl f ↦ let (k, m, a) = select_missing keys store f in (k, there m, a)
          | inr (rs, f) ↦ absurd (some-ne-none _ (rw (e, f) at h))
        ]
      ]

  select_lacking :
      (key : String) (keys : List String) (store : Resources)
      → In key keys
      → All (λ r. answers lowercase key r ≡ false) store
      → select lowercase keys store ≡ none
  unfolding select
  select_lacking key [] store m a = elim m [ ]
  select_lacking key (k ∷ keys) store (here e) a = rw (
      find_if_of_none (answers lowercase k) store
        (subst (λ j. All (λ r. answers lowercase j r ≡ false) store) e a))
  select_lacking key (k ∷ keys) store (there m) a =
      rw (select_lacking key keys store m a) (push-none (find_if (answers lowercase k) store))

  candidates_missing :
      (keys : List String) (store : Resources)
      → (candidates lowercase keys store ≡ none)
        ↔ ((key : String) × In key keys × All (λ r. answers lowercase key r ≡ false) store)
  unfolding candidates
  candidates_missing [] store = (λ h. cc, λ (k, m, a). elim m [ ])
  candidates_missing (key ∷ keys) store =
      (select_missing (key ∷ keys) store, λ (k, m, a). select_lacking k (key ∷ keys) store m a)

  -- A read with a query that has not failed fails exactly when it asks for a key that no stored
  -- resource has.
  pub read_fails :
      (store : Resources) (q : Query)
      → q.error_code ≡ 0
      → (has_failed (read lowercase store q) ≡ true)
        ↔ ((key : String) × In key q.keys × All (λ r. answers lowercase key r ≡ false) store)
  unfolding read
  read_fails store q h = elim (Option-cases (candidates lowercase q.keys store)) [
    | inl e ↦ (λ f. (candidates_missing q.keys store).0 e, λ f. rw e (answer_failed store q))
    | inr (rs, e) ↦ (
      λ f. absurd (true≢false (sym (rw (e, read) at f) ∙ answer_found store rs q h)),
      λ f. absurd (some-ne-none _ (sym e ∙ (candidates_missing q.keys store).1 f)),
    )
  ]
