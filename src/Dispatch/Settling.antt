-- ===== src/Dispatch/Settling.antt =====
-- What becomes of a state once its subscriber has answered.
use restq.Base.{
  ℕ, ◌-◌, String, [], some, ◌==◌, ltb, leb, eqb, ◌≡◌, if◌then◌else◌, ◌&&◌, Bool-cases, inl, inr,
}
use restq.Dispatch.{
  settle, settle_as, retry, give_up, dispatched, rejected, suspended, unreachable, settled,
  redeliver_at,
}
use restq.Effects.{Effect, Level}
use restq.Multimap.{insert, value_at}
use restq.Number.{to_string, stoul}
use restq.Platform.{Moment}
use restq.Query.{Query, has_failed}
use restq.Resource.{Resource}

-- A state as the exchange makes it, with the attempts that are left and the seconds between them.
abbrev pub IsState : Resource → ℕ → ℕ → Type 0
IsState r attempts interval =
    ((k : String) × (value_at "subscription-key" r ≡ some k))
    × ((k : String) × (value_at "message-key" r ≡ some k))
    × ((t : String) × (value_at "max-delivery-attempts" r ≡ some t) × (stoul t ≡ some attempts))
    × ((t : String) × (value_at "redelivery-interval" r ≡ some t) × (stoul t ≡ some interval))

-- The status that an answer gives a state.
abbrev pub outcome : ℕ → ℕ → String
outcome code attempts =
    if eqb code 202
    then dispatched
    else if leb 200 code && leb code 299
    then rejected
    else if ltb 1 attempts
    then suspended
    else unreachable

-- The change that is written to the state.
abbrev pub change_of : String → ℕ → ℕ → Resource
change_of time code attempts = insert "status" (outcome code attempts) (
    if outcome code attempts == suspended
    then insert "max-delivery-attempts" (to_string (attempts - 1)) (insert "redeliver-at" time [])
    else [])

-- An effect that ends, maybe after other updates and log entries, in one update of the state.
pub data Ends (change : Resource) (q : Query) (status : String) : Effect → Type 0 where
  writes : Ends change q status (Effect.update change q (settled status))
  logs :
      {level : Level} {e : Effect}
      → Ends change q status e
      → Ends change q status (Effect.log level e)
  after :
      {change' : Resource} {q' : Query} {k : Moment → Query → Effect}
      → ((m : Moment) (q'' : Query) → Ends change q status (k m q''))
      → Ends change q status (Effect.update change' q' k)

Ends-give_up :
    (q : Query) (key : String) → Ends (insert "status" unreachable []) q unreachable (give_up key q)
unfolding give_up settle_as
Ends-give_up q key = Ends.logs (
    Ends.after λ m q'. elim (Bool-cases (has_failed q')) [
      | inl e ↦ rw e (Ends.logs Ends.writes)
      | inr e ↦ rw e Ends.writes
    ])

-- Whatever the subscriber answers, the handling of a state that has its keys and numbers ends in one
-- update of it, where the clock holds the time of redelivery: dispatched after 202, rejected after any
-- other 2xx, and otherwise suspended with one attempt less and that time while more than one attempt
-- is left, unreachable then.
pub settle-Ends :
    (state : Resource) (q : Query) (m : Moment) (code attempts interval : ℕ) (time : String)
    → IsState state attempts interval
    → redeliver_at m.time interval ≡ some time
    → Ends (change_of time code attempts) q (outcome code attempts) (settle state q m code)
unfolding settle settle_as retry
settle-Ends state q m code attempts interval time ((sk, esk), (mk, emk), (ta, ea, na), (ti, ei, ni))
      et =
    elim (Bool-cases (eqb code 202)) [
      | inl e ↦ rw (esk, emk, e) (Ends.logs Ends.writes)
      | inr e ↦ elim (Bool-cases (leb 200 code && leb code 299)) [
        | inl f ↦ rw (esk, emk, e, f) (Ends.logs Ends.writes)
        | inr f ↦ elim (Bool-cases (ltb 1 attempts)) [
          | inl g ↦ rw (esk, emk, e, f, ea, na, g, ei, ni, et) (Ends.logs Ends.writes)
          | inr g ↦ rw (esk, emk, e, f, ea, na, g) (Ends-give_up q sk)
        ]
      ]
    ]
