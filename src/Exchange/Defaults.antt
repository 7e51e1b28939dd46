-- ===== src/Exchange/Defaults.antt =====
-- A queue that the exchange creates has the numbers that the handlers read from it.
mod Numbers
use restq.Base.{
  ℕ, ◌≤◌, String, true, false, List, [], ◌∷◌, ◌++◌, some, ◌==◌, ◌≡◌, ◌≢◌, refl, sym, ◌∙◌, ap, subst,
  arith, eq_iff, eq_refl, All, In, here, there, Bool-cases, inl, inr, if_so, if_not,
}
use mathlib.Core.Option.{some-injective}
use mathlib.Core.Bool.{true≢false}
use restq.Exchange.Limits.{HasNumber}
use restq.Exchange.Make.{or_insert, or_insert_of, initialise_default_resource}
use restq.Exchange.States.{IsServed}
use restq.Multimap.{value_at, insert, equal_range, has}
use restq.Multimap.Laws.{
  IsSorted, insert-IsSorted, has-insert, equal_range-insert, value_at_first, has_iff,
}
use restq.Number.{size_max, to_string, stoul}
use restq.Number.Decimal.{stoul-to_string}
use restq.Platform.{Platform, Moment}
use restq.Resource.{Resource, queue_type}
use restq.Rule.{make_revision}
use restq.Session.{Session}
use restq.Settings.{
  Properties, get_default_queue_message_limit, get_default_queue_message_size_limit,
  get_default_queue_subscription_limit, get_default_queue_max_delivery_attempts,
  get_default_queue_redelivery_interval,
}
use restq.Validator.{has_invalid_create_fields}
use restq.Validator.Laws.{IsReadable, queue_accepted_iff}
use restq.Exchange.Defaults.Numbers.{
  Numbered, MaybeNumbered, Readable, first_value, no_value, Numbered-value_at, IsReadable-Numbered,
  inserts, inserts-IsSorted, MaybeNumbered-inserts, or_insert-IsSorted, MaybeNumbered-or_insert,
  has-or_insert, has-or_insert_self, or_inserts, or_inserts-IsSorted, has-or_inserts,
  MaybeNumbered-or_inserts, has-defaulted, or_insert_of-some,
}

-- What the exchange puts into every new queue.
abbrev stamps : Platform → Moment → Session → List (String × String)
stamps p m s =
    ("pattern", "pub-sub")
    ∷ ("origin", s.origin)
    ∷ ("revision", make_revision p m)
    ∷ ("modified", to_string m.time)
    ∷ ("created", to_string m.time)
    ∷ ("type", queue_type)
    ∷ []

-- What it puts in where the queue has nothing under the name.
abbrev defaults : ℕ → ℕ → ℕ → ℕ → String → List (String × String)
defaults a b c d t =
    ("message-limit", to_string a)
    ∷ ("message-size-limit", to_string b)
    ∷ ("subscription-limit", to_string c)
    ∷ ("max-delivery-attempts", to_string d)
    ∷ ("redelivery-interval", t)
    ∷ []

module _ (p : Platform) (m : Moment) (i : ℕ) (s : Session) (r : Resource) where
  abbrev keyed : Resource
  keyed = or_insert "key" (m.uuid i) r

  abbrev stamped : Resource
  stamped = inserts (stamps p m s) keyed

  keyed_other :
      (name : String)
      → IsSorted r
      → (name == "key") ≡ false
      → MaybeNumbered r name
      → MaybeNumbered keyed name
  keyed_other name sr ne h = elim (Bool-cases (has "key" r)) [
    | inl e ↦ rw e h
    | inr e ↦ rw e (MaybeNumbered-inserts name (("key", m.uuid i) ∷ []) r sr (ne, tt) h)
  ]

  has_key : (es : List (String × String)) → has "key" (inserts es keyed) ≡ true
  has_key [] = has-or_insert_self "key" (m.uuid i) r
  has_key ((k, v) ∷ es) = has-insert "key" k v (inserts es keyed) ∙ ground (arith, has_key es)

  -- Whatever the defaults are, the queue has a key and reads a number under each of their names.
  module _ (es : List (String × String)) (sr : IsSorted r) where
    stamped-IsSorted : IsSorted stamped
    stamped-IsSorted =
        inserts-IsSorted (stamps p m s) keyed (or_insert-IsSorted "key" (m.uuid i) r sr)

    defaulted-IsSorted : IsSorted (or_inserts es stamped)
    defaulted-IsSorted = or_inserts-IsSorted es stamped stamped-IsSorted

    defaulted_key : (k : String) × (value_at "key" (or_inserts es stamped) ≡ some k)
    defaulted_key =
        let (k, ks, e) =
          first_value "key" (or_inserts es stamped)
            (has-or_inserts "key" es stamped (has_key (stamps p m s))) in
        (k, value_at_first "key" k ks _ defaulted-IsSorted e)

    defaulted_number :
        (name v : String)
        → All (λ (e : String × String). Readable e.1) es
        → In (name, v) es
        → All (λ (e : String × String). (name == e.0) ≡ false) (stamps p m s)
        → (name == "key") ≡ false
        → IsReadable r name
        → (n : ℕ) × HasNumber name (or_inserts es stamped) n
    defaulted_number name v readable mem others ne h =
        Numbered-value_at name (or_inserts es stamped) defaulted-IsSorted (
          MaybeNumbered-or_inserts name es stamped stamped-IsSorted readable
            (MaybeNumbered-inserts name (stamps p m s) keyed
              (or_insert-IsSorted "key" (m.uuid i) r sr) others
              (keyed_other name sr ne (IsReadable-Numbered name r sr h)))
            (has-defaulted name v es stamped mem))

module _ (p : Platform) (ps : Properties) (settings : ps.Store) (m : Moment) where
  -- A queue that the validator accepts, whose properties are in order, gets from settings that are
  -- numbers, the interval one that is not out of range, what the handlers and the dispatcher read:
  -- a key, and a number for each of its limits.
  pub created_queue-IsServed :
      (i : ℕ) (s : Session) (r : Resource) (a b c d j : ℕ) (t : String)
      → IsSorted r
      → has_invalid_create_fields p r queue_type ≡ false
      → (get_default_queue_message_limit ps settings ≡ some a) × (a ≤ size_max)
      → (get_default_queue_message_size_limit ps settings ≡ some b) × (b ≤ size_max)
      → (get_default_queue_subscription_limit ps settings ≡ some c) × (c ≤ size_max)
      → (get_default_queue_max_delivery_attempts ps settings ≡ some d) × (d ≤ size_max)
      → (get_default_queue_redelivery_interval ps settings ≡ some t) × (stoul t ≡ some j)
      → (r' : Resource) × (initialise_default_resource p ps settings m i queue_type s r ≡ some r')
        × IsServed r'
        × ((n : ℕ) × HasNumber "message-limit" r' n)
        × ((n : ℕ) × HasNumber "message-size-limit" r' n)
        × ((n : ℕ) × HasNumber "subscription-limit" r' n)
  unfolding initialise_default_resource or_inserts
  created_queue-IsServed i s r a b c d j t sr ok (ea, la) (eb, lb) (ec, lc) (ed, ld) (et, lt) =
      let (ka, (kb, (kc, (kd, (ke, _))))) = ((queue_accepted_iff p r).0 ok).0 in
      let es = defaults a b c d t in
      let base = stamped p m i s r in
      let readable : All (λ (e : String × String). Readable e.1) es = (
        (a, stoul-to_string a la),
        (
          (b, stoul-to_string b lb),
          ((c, stoul-to_string c lc), ((d, stoul-to_string d ld), ((j, lt), tt))),
        ),
      ) in
      let number = defaulted_number p m i s r es sr in
      let (nd, (vd, hd, qd)) =
        number "max-delivery-attempts" (to_string d) readable (there (there (there (here refl))))
          (refl, (refl, (refl, (refl, (refl, (refl, tt)))))) refl kd in
      let (nt, (vt, et', qt)) =
        number "redelivery-interval" t readable (there (there (there (there (here refl)))))
          (refl, (refl, (refl, (refl, (refl, (refl, tt)))))) refl ke in
      (
        or_inserts es base,
        rw
            (
              ea,
              eb,
              ec,
              ed,
              et,
              or_insert_of-some "max-delivery-attempts" (to_string d) (
                  or_inserts
                    (("message-limit", to_string a)
                      ∷ ("message-size-limit", to_string b)
                      ∷ ("subscription-limit", to_string c)
                      ∷ [])
                    base),
            )
            (or_insert_of-some "redelivery-interval" t _),
        (defaulted_key p m i s r es sr, (vt, nt, et', qt), (vd, nd, hd, qd)),
        number "message-limit" (to_string a) readable (here refl)
            (refl, (refl, (refl, (refl, (refl, (refl, tt)))))) refl ka,
        number "message-size-limit" (to_string b) readable (there (here refl))
            (refl, (refl, (refl, (refl, (refl, (refl, tt)))))) refl kb,
        number "subscription-limit" (to_string c) readable (there (there (here refl)))
            (refl, (refl, (refl, (refl, (refl, (refl, tt)))))) refl kc,
      )
