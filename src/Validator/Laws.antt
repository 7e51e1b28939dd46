-- ===== src/Validator/Laws.antt =====
-- What the validator lets through.
use restq.Base.{
  ℕ, String, Bool, true, false, not, [], ◌∷◌, Option, none, some, ◌==◌, ◌≡◌, ◌↔◌, refl, sym, ◌∙◌,
  arith, eq_iff, All, In, Bool-cases, Option-cases, inl, inr, any, length, In-of_any, any_of_In,
  All-mono, All-of_not_any, not_any_of_All, or_true, ap, subst, ◌||◌,
}
use mathlib.Core.Bool.{true≢false}
use restq.Multimap.{equal_range, has, value_at}
use restq.Number.{stoul}
use restq.Platform.{Platform}
use restq.Resource.{Resource, queue_type, subscription_type}
use restq.Validator.{
  member, reserved_words, has_reserved_create_fields, refuses, no_number, limits, bad_state,
  bad_endpoint, has_invalid_create_fields,
}

reserved_of_any :
    (r : Resource)
    → any (λ e. member e.0 reserved_words) r ≡ true
    → (name : String) × In name reserved_words × (has name r ≡ true)
unfolding has
reserved_of_any [] h = cc
reserved_of_any ((k, v) ∷ r) h = elim (Bool-cases (member k reserved_words)) [
  | inl e ↦ (k, In-of_any k reserved_words e, ground (arith, eq_iff k k))
  | inr e ↦ let (name, m, n) = reserved_of_any r (rw e at h) in (name, m, ground arith)
]

any_of_reserved :
    (r : Resource) (name : String)
    → In name reserved_words
    → has name r ≡ true
    → any (λ e. member e.0 reserved_words) r ≡ true
unfolding has
any_of_reserved [] name m h = cc
any_of_reserved ((k, v) ∷ r) name m h = elim (Bool-cases (name == k)) [
  | inl e ↦
      ap (λ b. b || any (λ e. member e.0 reserved_words) r)
        (any_of_In k reserved_words (subst (λ x. In x reserved_words) ((eq_iff name k).0 e) m))
  | inr e ↦
      ap (λ b. member k reserved_words || b) (any_of_reserved r name m (rw e at h))
      ∙ or_true (member k reserved_words)
]

-- A new resource is refused for its names exactly when it has a reserved one.
pub has_reserved_iff :
    (r : Resource)
    → (has_reserved_create_fields r ≡ true)
      ↔ ((name : String) × In name reserved_words × (has name r ≡ true))
unfolding has_reserved_create_fields
has_reserved_iff r = (reserved_of_any r, λ (name, m, h). any_of_reserved r name m h)

or_false_left : (a b : Bool) → (a || b) ≡ false → a ≡ false
or_false_left a b h = ground arith

or_false_right : (a b : Bool) → (a || b) ≡ false → b ≡ false
or_false_right a b h = ground arith

or_false : {a b : Bool} → a ≡ false → b ≡ false → (a || b) ≡ false
or_false h k = ground arith

not_both : (s : String) → (not (s == "reachable") || not (s == "unreachable")) ≡ true
not_both s = elim (Bool-cases (s == "reachable")) [
  | inl e ↦
      subst (λ t. (not (t == "reachable") || not (t == "unreachable")) ≡ true)
        (sym ((eq_iff s "reachable").0 e)) refl
  | inr e ↦ rw e
]

refuses_always :
    (test : String → Bool) (name : String) (r : Resource)
    → ((v : String) → test v ≡ true)
    → has name r ≡ true
    → refuses test name r ≡ true
refuses_always test name r f h = rw h (go (value_at name r))
  where
    go : (o : Option String) → (elim o [ none ↦ true | some v ↦ test v ]) ≡ true
    go none = refl
    go (some v) = f v

-- The first value under the name, where there is one, passes.
abbrev pub Passes : (String → Bool) → String → Resource → Type 0
Passes test name r =
    has name r ≡ true → (v : String) × (value_at name r ≡ some v) × (test v ≡ false)

Passes-of :
    (test : String → Bool) (name : String) (r : Resource)
    → refuses test name r ≡ false
    → Passes test name r
Passes-of test name r h present = elim (Option-cases (value_at name r)) [
  | inl e ↦ cc (rw (present, e) at h)
  | inr (v, e) ↦ (v, e, rw (present, e) at h)
]

refuses_of_Passes :
    (test : String → Bool) (name : String) (r : Resource)
    → Passes test name r
    → refuses test name r ≡ false
refuses_of_Passes test name r h = elim (Bool-cases (has name r)) [
  | inl e ↦ let (v, f, g) = h e in rw (e, f, g)
  | inr e ↦ rw e
]

number_of : (v : String) → no_number v ≡ false → (n : ℕ) × (stoul v ≡ some n)
number_of v h = elim (Option-cases (stoul v)) [
  | inl e ↦ absurd (true≢false (sym (rw (e, no_number)) ∙ h))
  | inr (n, e) ↦ (n, e)
]

-- The first value under the name, where there is one, is a number in the range of size_t.
abbrev pub IsReadable : Resource → String → Type 0
IsReadable r name =
    has name r ≡ true → (v : String) × (n : ℕ) × (value_at name r ≡ some v) × (stoul v ≡ some n)

IsReadable-of : (r : Resource) (name : String) → Passes no_number name r → IsReadable r name
IsReadable-of r name h e = let (v, f, g) = h e in let (n, k) = number_of v g in (v, n, f, k)

Passes-of_refuses : (r : Resource) (name : String) → IsReadable r name → Passes no_number name r
Passes-of_refuses r name h e = let (v, n, f, k) = h e in (v, f, rw (k, no_number))

module _ (p : Platform) where
  bad_state_always : (value : String) → bad_state p value ≡ true
  unfolding bad_state
  bad_state_always value = not_both (p.lowercase value)

  -- A new subscription that names a state is refused, whatever the state is.
  pub subscription_state_refused :
      (r : Resource) → has "state" r ≡ true → has_invalid_create_fields p r subscription_type ≡ true
  unfolding has_invalid_create_fields
  subscription_state_refused r h =
      rw (refuses_always (bad_state p) "state" r bad_state_always h) (ground arith)

  -- A new queue is accepted exactly when each limit that it names can be read as a number, and the
  -- pattern, if it names one, is "pub-sub" in any case.
  pub queue_accepted_iff :
      (r : Resource)
      → (has_invalid_create_fields p r queue_type ≡ false) ↔ (
          All (IsReadable r) limits
          × (has "pattern" r ≡ true
              → (v : String) × (value_at "pattern" r ≡ some v) × (p.lowercase v ≡ "pub-sub")))
  unfolding has_invalid_create_fields
  queue_accepted_iff r = (
    λ h. (
      All-mono (λ name. refuses no_number name r ≡ false) (IsReadable r) limits
          (λ name e. IsReadable-of r name (Passes-of no_number name r e))
          (All-of_not_any (λ name. refuses no_number name r) limits
            (or_false_left (any (λ name. refuses no_number name r) limits)
              (refuses (λ v. not (p.lowercase v == "pub-sub")) "pattern" r) h)),
      λ present.
          let (v, e, f) =
            Passes-of (λ v. not (p.lowercase v == "pub-sub")) "pattern" r
              (or_false_right (any (λ name. refuses no_number name r) limits)
                (refuses (λ v. not (p.lowercase v == "pub-sub")) "pattern" r) h)
              present in
          (v, e, ground (arith, eq_iff (p.lowercase v) "pub-sub")),
    ),
    λ (numbers, pattern).
        or_false
          (not_any_of_All (λ name. refuses no_number name r) limits
            (All-mono (IsReadable r) (λ name. refuses no_number name r ≡ false) limits
              (λ name e. refuses_of_Passes no_number name r (Passes-of_refuses r name e)) numbers))
          (refuses_of_Passes (λ v. not (p.lowercase v == "pub-sub")) "pattern" r
            (λ present.
              let (v, e, f) = pattern present in
              (v, e, ground (arith, eq_iff (p.lowercase v) "pub-sub")))),
  )

  -- A new subscription that is accepted names one endpoint, a valid URI under http, and no state.
  pub subscription_accepted :
      (r : Resource)
      → has_invalid_create_fields p r subscription_type ≡ false
      → (length (equal_range "endpoint" r) ≡ 1)
        × (has "state" r ≡ false)
        × Passes (bad_endpoint p) "endpoint" r
  unfolding has_invalid_create_fields
  subscription_accepted r h = elim (Bool-cases (has "state" r)) [
    | inl e ↦ absurd (true≢false (sym (subscription_state_refused r e) ∙ h))
    | inr e ↦ (ground arith, e, Passes-of (bad_endpoint p) "endpoint" r (ground arith))
  ]
