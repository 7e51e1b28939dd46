-- ===== src/Exchange/Defaults/Numbers.antt =====
-- Properties that are numbers, through insertions and defaults (initialise_default_resource of
-- exchange_impl.cpp).
use restq.Base.{
  ℕ, String, true, false, List, [], ◌∷◌, ◌++◌, some, ◌==◌, ◌≡◌, ◌≢◌, refl, sym, ◌∙◌, ap, subst,
  arith, eq_iff, eq_refl, All, In, here, there, Bool-cases, inl, inr, if_so, if_not,
}
use mathlib.Core.Option.{some-injective}
use mathlib.Core.Bool.{true≢false}
use restq.Exchange.Limits.{HasNumber}
use restq.Exchange.Make.{or_insert, or_insert_of}
use restq.Multimap.{insert, equal_range, has}
use restq.Multimap.Laws.{
  IsSorted, insert-IsSorted, has-insert, equal_range-insert, value_at_first, has_iff,
}
use restq.Number.{stoul}
use restq.Resource.{Resource}
use restq.Validator.Laws.{IsReadable}

-- The first value under the name is a number.
abbrev pub Numbered : Resource → String → Type 0
Numbered r name =
    (v : String) × (vs : List String) × (n : ℕ) × (equal_range name r ≡ v ∷ vs) × (stoul v ≡ some n)

abbrev pub MaybeNumbered : Resource → String → Type 0
MaybeNumbered r name = has name r ≡ true → Numbered r name

abbrev pub Readable : String → Type 0
Readable v = (n : ℕ) × (stoul v ≡ some n)

pub first_value :
    (name : String) (r : Resource)
    → has name r ≡ true
    → (v : String) × (vs : List String) × (equal_range name r ≡ v ∷ vs)
first_value name r h = go (equal_range name r) refl ((has_iff name r).0 h)
  where
    go :
        (l : List String)
        → equal_range name r ≡ l
        → equal_range name r ≢ []
        → (v : String) × (vs : List String) × (equal_range name r ≡ v ∷ vs)
    go [] e n = absurd (n e)
    go (v ∷ vs) e n = (v, vs, e)

pub no_value : (name : String) (r : Resource) → has name r ≡ false → equal_range name r ≡ []
no_value name r h = go (equal_range name r) refl
  where
    go : (l : List String) → equal_range name r ≡ l → equal_range name r ≡ []
    go [] e = e
    go (v ∷ vs) e = absurd (true≢false (sym ((has_iff name r).1 (λ n. cc)) ∙ h))

pub Numbered-value_at :
    (name : String) (r : Resource) → IsSorted r → Numbered r name → (n : ℕ) × HasNumber name r n
Numbered-value_at name r s (v, vs, n, e, m) = (n, (v, value_at_first name v vs r s e, m))

pub IsReadable-Numbered :
    (name : String) (r : Resource) → IsSorted r → IsReadable r name → MaybeNumbered r name
IsReadable-Numbered name r s h t =
    let (v, vs, e) = first_value name r t in
    let (w, n, f, m) = h t in
    (
      v,
      vs,
      n,
      e,
      subst (λ x. stoul x ≡ some n)
          (sym (some-injective _ _ (sym (value_at_first name v vs r s e) ∙ f))) m,
    )

-- Insertions under other names.
abbrev pub inserts : List (String × String) → Resource → Resource
inserts [] r = r
inserts ((k, v) ∷ es) r = insert k v (inserts es r)

pub inserts-IsSorted :
    (es : List (String × String)) (r : Resource) → IsSorted r → IsSorted (inserts es r)
inserts-IsSorted [] r s = s
inserts-IsSorted ((k, v) ∷ es) r s = insert-IsSorted k v (inserts es r) (inserts-IsSorted es r s)

pub MaybeNumbered-inserts :
    (name : String) (es : List (String × String)) (r : Resource)
    → IsSorted r
    → All (λ (e : String × String). (name == e.0) ≡ false) es
    → MaybeNumbered r name
    → MaybeNumbered (inserts es r) name
MaybeNumbered-inserts name [] r s d h = h
MaybeNumbered-inserts name ((k, v) ∷ es) r s (d, ds) h = λ t.
    let (w, vs, n, e, m) =
      MaybeNumbered-inserts name es r s ds h
        (sym (has-insert name k v (inserts es r) ∙ if_not (name == k) _ _ d) ∙ t) in
    (
      w,
      vs,
      n,
      equal_range-insert name k v (inserts es r) (inserts-IsSorted es r s)
          ∙ (if_not (name == k) _ _ d ∙ e),
      m,
    )

pub or_insert-IsSorted : (k v : String) (r : Resource) → IsSorted r → IsSorted (or_insert k v r)
or_insert-IsSorted k v r s = elim (Bool-cases (has k r)) [
  | inl e ↦ rw e s
  | inr e ↦ rw e (insert-IsSorted k v r s)
]

-- A default under any name, where it is a number.
pub MaybeNumbered-or_insert :
    (name k v : String) (r : Resource)
    → IsSorted r
    → Readable v
    → MaybeNumbered r name
    → MaybeNumbered (or_insert k v r) name
MaybeNumbered-or_insert name k v r s (n, m) h = elim (Bool-cases (has k r)) [
  | inl e ↦ rw e h
  | inr e ↦ elim (Bool-cases (name == k)) [
    | inl f ↦ rw e λ t. (
      v,
      [],
      n,
      equal_range-insert name k v r s
          ∙ (if_so (name == k) _ _ f
              ∙ ap (λ l. l ++ v ∷ [])
                  (no_value name r (subst (λ x. has x r ≡ false) (sym ((eq_iff name k).0 f)) e))),
      m,
    )
    | inr f ↦ rw e (MaybeNumbered-inserts name ((k, v) ∷ []) r s (f, tt) h)
  ]
]

pub has-or_insert :
    (name k v : String) (r : Resource) → has name r ≡ true → has name (or_insert k v r) ≡ true
has-or_insert name k v r h = elim (Bool-cases (has k r)) [
  | inl e ↦ rw e h
  | inr e ↦ rw e (has-insert name k v r ∙ ground (arith, h))
]

pub has-or_insert_self : (k v : String) (r : Resource) → has k (or_insert k v r) ≡ true
has-or_insert_self k v r = elim (Bool-cases (has k r)) [
  | inl e ↦ rw e e
  | inr e ↦ rw e (has-insert k k v r ∙ if_so (k == k) _ _ (eq_refl k))
]

unfoldable pub or_inserts : List (String × String) → Resource → Resource
or_inserts [] r = r
or_inserts ((k, v) ∷ es) r = or_inserts es (or_insert k v r)

pub or_inserts-IsSorted :
    (es : List (String × String)) (r : Resource) → IsSorted r → IsSorted (or_inserts es r)
unfolding or_inserts
or_inserts-IsSorted [] r s = s
or_inserts-IsSorted ((k, v) ∷ es) r s =
    or_inserts-IsSorted es (or_insert k v r) (or_insert-IsSorted k v r s)

pub has-or_inserts :
    (name : String) (es : List (String × String)) (r : Resource)
    → has name r ≡ true
    → has name (or_inserts es r) ≡ true
unfolding or_inserts
has-or_inserts name [] r h = h
has-or_inserts name ((k, v) ∷ es) r h =
    has-or_inserts name es (or_insert k v r) (has-or_insert name k v r h)

pub MaybeNumbered-or_inserts :
    (name : String) (es : List (String × String)) (r : Resource)
    → IsSorted r
    → All (λ (e : String × String). Readable e.1) es
    → MaybeNumbered r name
    → MaybeNumbered (or_inserts es r) name
unfolding or_inserts
MaybeNumbered-or_inserts name [] r s d h = h
MaybeNumbered-or_inserts name ((k, v) ∷ es) r s (d, ds) h =
    MaybeNumbered-or_inserts name es (or_insert k v r) (or_insert-IsSorted k v r s) ds
      (MaybeNumbered-or_insert name k v r s d h)

pub has-defaulted :
    (name v : String) (es : List (String × String)) (r : Resource)
    → In (name, v) es
    → has name (or_inserts es r) ≡ true
unfolding or_inserts
has-defaulted name v [] r m = elim m [ ]
has-defaulted name v ((k, w) ∷ es) r (here e) = has-or_inserts name es (or_insert k w r) (
    subst (λ x. has x (or_insert k w r) ≡ true) (sym (ap (λ (e : String × String). e.0) e))
      (has-or_insert_self k w r))
has-defaulted name v ((k, w) ∷ es) r (there m) = has-defaulted name v es (or_insert k w r) m

pub or_insert_of-some :
    (k v : String) (r : Resource) → or_insert_of k (some v) r ≡ some (or_insert k v r)
or_insert_of-some k v r = elim (Bool-cases (has k r)) [ inl e ↦ rw e refl | inr e ↦ rw e refl ]
