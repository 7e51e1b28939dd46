-- ===== src/Json/Entries.antt =====
-- The entries of a JSON object: each name once, in order.
use restq.Base.{
  String, true, false, List, [], ◌∷◌, none, some, ◌==◌, less, ◌≡◌, refl, subst, arith, eq_iff,
  eq_refl, All, All-mono, Bool-cases, inl, inr, ◌⊎◌, if◌then◌else◌, less_irrefl, eq_of_not-less,
  less-NotAfter-trans, less_asymm,
}
use restq.Json.{set_entry, entry}

less-of_cases : (k j : String) → (k == j) ≡ false → less k j ≡ false → less j k ≡ true
less-of_cases k j e f = elim (Bool-cases (less j k)) [
  | inl g ↦ g
  | inr g ↦ absurd (apart (eq_of_not-less k j f g))
]
  where
    apart : k ≡ j → ⊥
    apart q = ground (arith, eq_iff k j)

module _ {V : Type 0} where
  abbrev pub Ordered : List (String × V) → Type 0
  Ordered [] = Unit
  Ordered ((k, v) ∷ es) = All (λ e. less k e.0 ≡ true) es × Ordered es

  All-set_entry :
      (P : String → V → Type 0) (k : String) (v : V) (es : List (String × V))
      → P k v
      → All (λ e. P e.0 e.1) es
      → All (λ e. P e.0 e.1) (set_entry k v es)
  unfolding set_entry
  All-set_entry P k v [] p h = (p, tt)
  All-set_entry P k v ((j, w) ∷ es) p (h, hs) = elim (Bool-cases (k == j)) [
    | inl e ↦ rw e (subst (λ x. P x v) ((eq_iff k j).0 e) p, hs)
    | inr e ↦ elim (Bool-cases (less k j)) [
      | inl f ↦ rw (e, f) (p, (h, hs))
      | inr f ↦ rw (e, f) (h, All-set_entry P k v es p hs)
    ]
  ]

  pub set_entry-Ordered :
      (k : String) (v : V) (es : List (String × V)) → Ordered es → Ordered (set_entry k v es)
  unfolding set_entry
  set_entry-Ordered k v [] o = (tt, tt)
  set_entry-Ordered k v ((j, w) ∷ es) (a, o) = elim (Bool-cases (k == j)) [
    | inl e ↦ rw e (a, o)
    | inr e ↦ elim (Bool-cases (less k j)) [
      | inl f ↦
          rw (e, f)
            (
              (f, All-mono _ _ es (λ x q. less-NotAfter-trans k j x.0 f (less_asymm j x.0 q)) a),
              (a, o),
            )
      | inr f ↦
          rw (e, f)
            (
              All-set_entry (λ x y. less j x ≡ true) k v es (less-of_cases k j e f) a,
              set_entry-Ordered k v es o,
            )
    ]
  ]

  pub entry-set_entry :
      (k j : String) (v : V) (es : List (String × V))
      → entry k (set_entry j v es) ≡ (if k == j then some v else entry k es)
  unfolding entry set_entry
  entry-set_entry k j v [] = refl
  entry-set_entry k j v ((i, w) ∷ es) =
      ground (arith, entry-set_entry k j v es, eq_iff k j, eq_iff k i, eq_iff j i)

  pub entry-before :
      (k : String) (es : List (String × V)) → All (λ e. less k e.0 ≡ true) es → entry k es ≡ none
  unfolding entry
  entry-before k [] h = refl
  entry-before k ((j, w) ∷ es) (h, hs) =
      ground (arith, less_irrefl k, eq_iff k j, entry-before k es hs)

  -- In an object, a name has the value of its one entry.
  pub entries_found :
      (P : String → V → Type 0) (es : List (String × V))
      → Ordered es
      → ((k : String) (v : V) → entry k es ≡ some v → P k v)
      → All (λ e. P e.0 e.1) es
  unfolding entry
  entries_found P [] o h = tt
  entries_found P ((j, w) ∷ es) (a, o) h = (
    h j w (rw (eq_refl j) refl),
    entries_found P es o λ k v q. h k v (later k v q (Bool-cases (k == j))),
  )
    where
      later :
          (k : String) (v : V)
          → entry k es ≡ some v
          → ((k == j) ≡ true) ⊎ ((k == j) ≡ false)
          → entry k ((j, w) ∷ es) ≡ some v
      later k v q (inl e) = absurd (no (subst (λ x. entry x es ≡ some v) ((eq_iff k j).0 e) q))
        where
          no : entry j es ≡ some v → ⊥
          no r = ground (arith, entry-before j es a)
      later k v q (inr e) = rw e q
