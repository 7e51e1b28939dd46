-- ===== src/Workers/Making.antt =====
-- The queues and subscriptions that the exchange makes (exchange_impl.cpp) are lawful.
use restq.Base.{
  ℕ, String, false, List, [], ◌∷◌, ◌++◌, Option, none, some, ◌==◌, ◌≡◌, ◌≢◌, refl, ◌∙◌, ap, subst,
  arith, eq_iff, inl, inr, Bool-cases, ◌>>=◌,
}
use mathlib.Core.Option.{some-injective, none-ne-some}
use restq.Exchange.Make.{
  or_insert, or_insert_of, text_of, stamped, queue_defaults, initialise_default_resource,
}
use restq.Multimap.{insert, equal_range, has}
use restq.Multimap.Laws.{IsSorted, insert-IsSorted, equal_range-insert}
use restq.Platform.{Platform, Moment}
use restq.Resource.{Resource, state_type, queue_type, subscription_type}
use restq.Session.{Session}
use restq.Settings.{
  Properties, get_default_queue_message_limit, get_default_queue_message_size_limit,
  get_default_queue_subscription_limit, get_default_queue_max_delivery_attempts,
  get_default_queue_redelivery_interval,
}
use restq.Validator.{has_reserved_create_fields}
use restq.Workers.Lawful.{IsLawful, IsOther}

-- In order, and of another type than the states'.
abbrev pub IsPlain : Resource → Type 0
IsPlain r = IsSorted r × IsOther r

pub IsPlain-insert : (k v : String) (r : Resource) → IsPlain r → IsPlain (insert k v r)
IsPlain-insert k v r (s, (t, ts, e, n)) = (insert-IsSorted k v r s, kept)
  where
    kept : IsOther (insert k v r)
    kept = elim (Bool-cases ("type" == k)) [
      | inl c ↦ (
        t,
        ts ++ v ∷ [],
        equal_range-insert "type" k v r s ∙ rw c (ap (λ (l : List String). l ++ v ∷ []) e),
        n,
      )
      | inr c ↦ (t, ts, equal_range-insert "type" k v r s ∙ rw c e, n)
    ]

IsPlain-or_insert : (k v : String) (r : Resource) → IsPlain r → IsPlain (or_insert k v r)
IsPlain-or_insert k v r h = elim (Bool-cases (has k r)) [
  | inl c ↦ rw c h
  | inr c ↦ rw c (IsPlain-insert k v r h)
]

-- What the option gives, if it gives anything.
abbrev Yields {ℓ} : {A : Type ℓ} → (A → Type 0) → Option A → Type ℓ
Yields P o = (a : _) → o ≡ some a → P a

Yields-bind :
    {A : Type 0} (P : A → Type 0) (Q : Resource → Type 0) (o : Option A) (f : A → Option Resource)
    → Yields P o
    → ((a : A) → P a → Yields Q (f a))
    → Yields Q (o >>= f)
Yields-bind P Q none f h k r e = absurd (none-ne-some _ e)
Yields-bind P Q (some a) f h k r e = k a (h a refl) r e

Yields-or_insert_of :
    (k : String) (v : Option String) (r : Resource)
    → IsPlain r
    → Yields IsPlain (or_insert_of k v r)
Yields-or_insert_of k v r h = elim (Bool-cases (has k r)) [
  | inl c ↦ rw c (λ r' e. subst IsPlain (some-injective _ _ e) h)
  | inr c ↦ rw c (
      Yields-bind (λ x. Unit {0}) IsPlain v (λ x. some (insert k x r)) (λ a e. tt)
        (λ a u r' e. subst IsPlain (some-injective _ _ e) (IsPlain-insert k a r h)))
]

-- The first insertion of a type.
pub IsPlain-typed :
    (type : String) (r : Resource)
    → IsSorted r
    → equal_range "type" r ≡ []
    → type ≢ state_type
    → IsPlain (insert "type" type r)
IsPlain-typed type r s e n = (
  insert-IsSorted "type" type r s,
  (
    type,
    [],
    equal_range-insert "type" "type" type r s ∙ ap (λ (l : List String). l ++ type ∷ []) e,
    n,
  ),
)

pub unreserved : (r : Resource) → has_reserved_create_fields r ≡ false → equal_range "type" r ≡ []
unfolding has_reserved_create_fields equal_range
unreserved [] h = refl
unreserved ((k, v) ∷ r) h = ground (arith, unreserved r, eq_iff "type" k)

or_insert-IsSorted : (k v : String) (r : Resource) → IsSorted r → IsSorted (or_insert k v r)
or_insert-IsSorted k v r h = elim (Bool-cases (has k r)) [
  | inl c ↦ rw c h
  | inr c ↦ rw c (insert-IsSorted k v r h)
]

keyed_untyped :
    (v : String) (r : Resource)
    → IsSorted r
    → equal_range "type" r ≡ []
    → equal_range "type" (or_insert "key" v r) ≡ []
keyed_untyped v r s e = elim (Bool-cases (has "key" r)) [
  | inl c ↦ rw c e
  | inr c ↦ rw c (equal_range-insert "type" "key" v r s ∙ e)
]

-- The defaults of a queue, each of which may be an exception.
abbrev defaulted : (a b c d e : Option String) → Resource → Option Resource
defaulted a b c d e r = do
  messages ← a
  size ← b
  subscriptions ← c
  r' ← or_insert_of "max-delivery-attempts" d (
      or_insert "subscription-limit" subscriptions (
        or_insert "message-size-limit" size
          (or_insert "message-limit" messages (insert "pattern" "pub-sub" r))))
  or_insert_of "redelivery-interval" e r'

defaulted-IsPlain :
    (a b c d e : Option String) (r : Resource) → IsPlain r → Yields IsPlain (defaulted a b c d e r)
defaulted-IsPlain none b c d e r h = λ r' q. absurd (none-ne-some _ q)
defaulted-IsPlain (some a) none c d e r h = λ r' q. absurd (none-ne-some _ q)
defaulted-IsPlain (some a) (some b) none d e r h = λ r' q. absurd (none-ne-some _ q)
defaulted-IsPlain (some a) (some b) (some c) d e r h =
    let base = or_insert "subscription-limit" c (
      or_insert "message-size-limit" b
        (or_insert "message-limit" a (insert "pattern" "pub-sub" r))) in
    Yields-bind IsPlain IsPlain (or_insert_of "max-delivery-attempts" d base)
      (or_insert_of "redelivery-interval" e)
      (Yields-or_insert_of "max-delivery-attempts" d base (
        IsPlain-or_insert "subscription-limit" c _ (
          IsPlain-or_insert "message-size-limit" b _
            (IsPlain-or_insert "message-limit" a _ (IsPlain-insert "pattern" "pub-sub" r h)))))
      λ r' h'. Yields-or_insert_of "redelivery-interval" e r' h'

module _ (p : Platform) (ps : Properties) (settings : ps.Store) (m : Moment) where
  stamped-IsPlain :
      (i : ℕ) (type : String) (s : Session) (r : Resource)
      → IsSorted r
      → has_reserved_create_fields r ≡ false
      → type ≢ state_type
      → IsPlain (stamped p ps settings m i type s r)
  stamped-IsPlain i type s r sorted h n = IsPlain-insert _ _ _ (
      IsPlain-insert _ _ _ (
        IsPlain-insert _ _ _ (
          IsPlain-insert _ _ _ (
            IsPlain-typed type (or_insert "key" (m.uuid i) r)
              (or_insert-IsSorted "key" (m.uuid i) r sorted)
              (keyed_untyped (m.uuid i) r sorted (unreserved r h)) n))))

  queue_defaults-IsPlain :
      (r : Resource) → IsPlain r → Yields IsPlain (queue_defaults p ps settings m r)
  queue_defaults-IsPlain r h =
      defaulted-IsPlain (text_of (get_default_queue_message_limit ps settings))
        (text_of (get_default_queue_message_size_limit ps settings))
        (text_of (get_default_queue_subscription_limit ps settings))
        (text_of (get_default_queue_max_delivery_attempts ps settings))
        (get_default_queue_redelivery_interval ps settings) r h

  -- Whatever a client gives for a queue or a subscription that passes the test of reserved names.
  pub initialise_default_resource-IsLawful :
      (i : ℕ) (type : String) (s : Session) (r r' : Resource)
      → IsSorted r
      → has_reserved_create_fields r ≡ false
      → type ≢ state_type
      → initialise_default_resource p ps settings m i type s r ≡ some r'
      → IsLawful r'
  unfolding initialise_default_resource
  initialise_default_resource-IsLawful i type s r r' sorted h n e =
      let base = stamped-IsPlain i type s r sorted h n in
      elim (Bool-cases (type == queue_type)) [
        | inl c ↦ lawful r' (queue_defaults-IsPlain _ base r' (rw c at e))
        | inr c ↦ elim (Bool-cases (type == subscription_type)) [
          | inl d ↦
              lawful r'
                (subst IsPlain (some-injective _ _ (rw (c, d) at e)) (IsPlain-or_insert _ _ _ base))
          | inr d ↦ lawful r' (subst IsPlain (some-injective _ _ (rw (c, d) at e)) base)
        ]
      ]
    where
      lawful : (r : Resource) → IsPlain r → IsLawful r
      lawful r (s, o) = (s, inl o)
