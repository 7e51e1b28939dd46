-- ===== src/Stl/Updating.antt =====
-- What the writes of an update do to a stored resource.
use restq.Base.{
  String, Bool, true, false, List, [], ◌∷◌, some, ◌==◌, ◌≡◌, ◌≢◌, refl, sym, ◌∙◌, arith, eq_iff,
  eq_refl, All, Bool-cases, inl, inr, find_if, NotAfter,
}
use restq.Multimap.{equal_range, has, value_at, assign}
use restq.Multimap.Laws.{IsSorted, value_at_first, find_first, has_iff}
use restq.Resource.{Resource, Resources}
use restq.Stl.Keys.{eq_of_same}
use restq.Stl.{same, key_of, answers, replace, apply_change, apply_changes}

-- The value of a property that the resource has once.
abbrev pub HasOnly : String → String → Resource → Type 0
HasOnly name value r = equal_range name r ≡ value ∷ []

pub equal_range-assign :
    (k j v : String) (r : Resource)
    → (k == j) ≡ false
    → equal_range k (assign j v r) ≡ equal_range k r
unfolding equal_range assign
equal_range-assign k j v [] h = refl
equal_range-assign k j v ((i, w) ∷ r) h =
    ground (arith, equal_range-assign k j v r h, eq_iff k j, eq_iff k i, eq_iff j i)

pub equal_range-assign_self :
    (k v w : String) (r : Resource) → HasOnly k w r → HasOnly k v (assign k v r)
unfolding equal_range assign
equal_range-assign_self k v w [] h = cc
equal_range-assign_self k v w ((i, u) ∷ r) h = ground (arith, equal_range-assign_self k v w r)

-- The write of the one property `name` to one that the resource has with another value.
pub apply_change_only :
    (name value old : String) (r : Resource) (b : Bool)
    → (name == "modified") ≡ false
    → (name == "revision") ≡ false
    → (old == value) ≡ false
    → HasOnly name old r
    → apply_changes ((name, value) ∷ []) (r, b) ≡ (assign name value r, true)
unfolding apply_changes apply_change
apply_change_only name value old r b m v d h = rw (m, v, find_first name old [] r h, d)

All-assign :
    (P : String → Type 0) (k v : String) (r : Resource)
    → All (λ e. P e.0) r
    → All (λ e. P e.0) (assign k v r)
unfolding assign
All-assign P k v [] h = tt
All-assign P k v ((i, w) ∷ r) (h, hs) = elim (Bool-cases (k == i)) [
  | inl e ↦ rw e (h, hs)
  | inr e ↦ rw e (h, All-assign P k v r hs)
]

pub assign-IsSorted : (k v : String) (r : Resource) → IsSorted r → IsSorted (assign k v r)
unfolding assign
assign-IsSorted k v [] h = tt
assign-IsSorted k v ((i, w) ∷ r) (h, hs) = elim (Bool-cases (k == i)) [
  | inl e ↦ rw e (h, hs)
  | inr e ↦ rw e (All-assign (NotAfter i) k v r h, assign-IsSorted k v r hs)
]

-- A stored resource has its entries in order, and a key.
abbrev pub IsStored : Resource → Type 0
IsStored r = IsSorted r × (has "key" r ≡ true)

first_key :
    (r : Resource)
    → has "key" r ≡ true
    → (v : String) × (vs : List String) × (equal_range "key" r ≡ v ∷ vs)
first_key r h = go (equal_range "key" r) refl ((has_iff "key" r).0 h)
  where
    go :
        (l : List String)
        → equal_range "key" r ≡ l
        → equal_range "key" r ≢ []
        → (v : String) × (vs : List String) × (equal_range "key" r ≡ v ∷ vs)
    go [] e n = absurd (n e)
    go (v ∷ vs) e n = (v, vs, e)

value_at-assign :
    (name v : String) (r : Resource)
    → ("key" == name) ≡ false
    → IsStored r
    → value_at "key" (assign name v r) ≡ value_at "key" r
value_at-assign name v r d (s, h) =
    let (k, ks, e) = first_key r h in
    value_at_first "key" k ks (assign name v r) (assign-IsSorted name v r s)
      (equal_range-assign "key" name v r d ∙ e)
    ∙ sym (value_at_first "key" k ks r s e)

pub has-assign : (k name v : String) (r : Resource) → has k (assign name v r) ≡ has k r
unfolding has assign
has-assign k name v [] = refl
has-assign k name v ((i, w) ∷ r) = ground (arith, has-assign k name v r, eq_iff name i)

module _ (lowercase : String → String) where
  pub key_of-assign :
      (name v : String) (r : Resource)
      → ("key" == name) ≡ false
      → IsStored r
      → key_of lowercase (assign name v r) ≡ key_of lowercase r
  unfolding key_of
  key_of-assign name v r d s = rw (value_at-assign name v r d s)

  pub key_of-answers :
      (k : String) (r : Resource)
      → answers lowercase k r ≡ true
      → key_of lowercase r ≡ some (lowercase k)
  unfolding answers
  key_of-answers k r h = sym (eq_of_same (some (lowercase k)) (key_of lowercase r) (ground arith))

  answers_of_key :
      (k : String) (r : Resource)
      → has "key" r ≡ true
      → key_of lowercase r ≡ some (lowercase k)
      → answers lowercase k r ≡ true
  unfolding answers
  answers_of_key k r h e = rw (h, e) (eq_refl (lowercase k))

  not_key_of-answers :
      (k : String) (r : Resource)
      → has "key" r ≡ true
      → answers lowercase k r ≡ false
      → same (some (lowercase k)) (key_of lowercase r) ≡ false
  unfolding answers
  not_key_of-answers k r h e = ground arith

  -- The first resource that answers a key is replaced, and what replaces it answers next.
  pub replace_first :
      (k : String) (r r' : Resource) (store : Resources)
      → All IsStored store
      → find_if (answers lowercase k) store ≡ some r
      → has "key" r' ≡ true
      → key_of lowercase r' ≡ some (lowercase k)
      → (store' : Resources) × (replace lowercase r' store ≡ some store')
        × (find_if (answers lowercase k) store' ≡ some r')
  unfolding replace
  replace_first k r r' [] a f h e = cc
  replace_first k r r' (s ∷ store) (a, as') f h e = elim (Bool-cases (answers lowercase k s)) [
    | inl hit ↦ (
      r' ∷ store,
      rw (e, key_of-answers k s hit, eq_refl (lowercase k)),
      rw (answers_of_key k r' h e),
    )
    | inr miss ↦
        let (store', p, g) = replace_first k r r' store as' (rw miss at f) h e in
        (s ∷ store', rw (e, not_key_of-answers k s a.1 miss, p), rw (miss, g))
  ]
