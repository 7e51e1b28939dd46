-- ===== src/Dispatch.antt =====
-- source/corvusoft/restq/detail/dispatch_impl.cpp: one round of the dispatcher takes a message
-- state through claim, delivery and settlement. Each lambda of the source is a function here.
pub mod Message
pub mod Settling
pub mod Once
pub mod Redelivery
use restq.Base.{
  ℕ, suc, ◌+◌, ◌-◌, ◌^◌, String, Bool, true, false, not, ◌&&◌, ◌||◌, List, [], ◌∷◌, Option, none,
  some, ◌==◌, ltb, leb, eqb, get_last?, if◌then◌else◌,
}
use restq.Effects.{Effect, Delivery, Level, at, get}
use restq.Multimap.{Multimap, insert, value_at}
use restq.Number.{ℤ, negate, to_string, integer_text, stoul}
use restq.Platform.{Platform, Moment}
use restq.Query.{
  Query, empty, clear, has_failed, has_resultset, set_limit, set_key, set_exclusive_filter,
}
use restq.Resource.{Resource, Resources, state_type, message_type, subscription_type}
use Message.{make_delivery}

abbrev pub pending : String
pending = "pending"

abbrev pub rejected : String
rejected = "rejected"

abbrev pub inflight : String
inflight = "in-flight"

abbrev pub suspended : String
suspended = "suspended"

abbrev pub dispatched : String
dispatched = "dispatched"

abbrev pub unreachable : String
unreachable = "unreachable"

abbrev pub stop : Effect
stop = Effect.done

-- The query for a state of a status.
unfoldable pub route_query : String → Query
route_query status =
    set_exclusive_filter "status" status
      (set_exclusive_filter "type" state_type (set_limit 1 empty))

-- The query, cleared and set to one state.
unfoldable pub state_query : String → Query → Query
state_query state_key q = set_exclusive_filter "type" state_type (set_key state_key (clear q))

abbrev pub is_final : String → Bool
is_final status = status == dispatched || status == rejected || status == unreachable

-- The callback of the last update of a state.
unfoldable pub settled : String → Moment → Query → Effect
settled status m q =
    let next = Effect.schedule pending stop in
    let rest = if is_final status then Effect.destroy q (λ m' q'. next) else next in
    if has_failed q then Effect.log Level.error rest else rest

unfoldable pub settle_as : Resource → String → Query → Effect
settle_as change status q = Effect.update (insert "status" status change) q (settled status)

-- The subscription is marked before the state is.
unfoldable pub give_up : String → Query → Effect
give_up subscription_key q = Effect.log Level.warning (
    Effect.update (("state", "unreachable") ∷ [])
      (set_exclusive_filter "type" subscription_type (set_key subscription_key empty))
      λ m q'.
        let rest = settle_as [] unreachable q in
        if has_failed q' then Effect.log Level.warning rest else rest)

-- The whole seconds, before and after the epoch, that the nanoseconds of system_clock hold in 64 bits
-- with a sign.
abbrev pub clock_max : ℕ
clock_max = 9223372036

abbrev pub holds : ℤ → Bool
holds (ℤ.pos n) = leb n clock_max
holds (ℤ.negsuc n) = ltb n clock_max

-- A size_t as `seconds` and time_t take it.
unfoldable pub to_signed : ℕ → ℤ
to_signed n = if ltb n (2 ^ 63) then ℤ.pos n else negate (2 ^ 64 - n)

unfoldable pub later : ℕ → ℤ → ℤ
later time (ℤ.pos n) = ℤ.pos (time + n)
later time (ℤ.negsuc n) = if ltb n time then ℤ.pos (time - suc n) else negate (suc n - time)

-- `to_time_t( now( ) + seconds( … ) )` as a text; `none` is the overflow, which is undefined.
unfoldable pub redeliver_at : ℕ → ℕ → Option String
redeliver_at time interval =
    if holds (to_signed interval) && holds (later time (to_signed interval))
    then some (integer_text (later time (to_signed interval)))
    else none

-- Whether a time is past the seconds of the clock.
abbrev pub is_past : ℕ → ℤ → Bool
is_past time (ℤ.pos n) = ltb time n
is_past time (ℤ.negsuc n) = false

unfoldable pub retry : Moment → ℕ → ℕ → Query → Effect
retry m attempts interval q = at (redeliver_at m.time interval) λ time. Effect.log Level.warning (
    settle_as
      (insert "max-delivery-attempts" (to_string (attempts - 1)) (insert "redeliver-at" time []))
      suspended q)

-- The text of a number that an exception leaves unread.
abbrev pub number : String → (ℕ → Effect) → Effect
number text k = get (stoul text) k

-- From the response on. The text of the attempts is read only where it is needed.
unfoldable pub settle : Resource → Query → Moment → ℕ → Effect
settle state q m code = at (value_at "subscription-key" state) λ subscription_key.
    at (value_at "message-key" state) λ message_key.
      if eqb code 202
      then Effect.log Level.info (settle_as [] dispatched q)
      else if leb 200 code && leb code 299
      then Effect.log Level.info (settle_as [] rejected q)
      else (at (value_at "max-delivery-attempts" state) λ text. number text λ attempts.
          if ltb 1 attempts
          then (at (value_at "redelivery-interval" state)
              λ interval_text. number interval_text λ interval. retry m attempts interval q)
          else give_up subscription_key q)

module _ (p : Platform) where
  -- The callback of the read of the message.
  unfoldable pub dispatch : String → Resource → Moment → Query → Effect
  dispatch state_key state m q =
      let q' = state_query state_key q in
      if has_failed q || not (has_resultset q)
      then Effect.log Level.warning (Effect.destroy q' (λ m' q''. stop))
      else (at (get_last? q.resultset) λ message.
          make_delivery p m state message λ delivery. Effect.deliver delivery (settle state q'))

  -- The callback of the update to in-flight.
  unfoldable pub claimed : String → Moment → Query → Effect
  claimed state_key m q =
      if has_failed q
      then Effect.log Level.error stop
      else if not (has_resultset q)
      then stop
      else (at (get_last? q.resultset) λ state. at (value_at "message-key" state) λ message_key.
          Effect.read
            (set_key message_key (set_exclusive_filter "type" message_type (set_limit 1 (clear q))))
            (dispatch state_key state))

  unfoldable pub claim : String → Query → Effect
  claim state_key q =
      Effect.update (("status", inflight) ∷ []) (set_key state_key q) (claimed state_key)

  -- The time of redelivery is in whole seconds, so it is compared with the seconds of the clock.
  unfoldable pub router : Moment → Query → Effect
  router m q =
      if has_failed q
      then Effect.log Level.error stop
      else if not (has_resultset q)
      then stop
      else (at (get_last? q.resultset) λ state. at (value_at "key" state) λ state_key.
          at (value_at "status" state) λ status.
            if status == suspended
            then (at (value_at "redeliver-at" state) λ text. number text λ time.
                if holds (to_signed time)
                then (if is_past m.time (to_signed time) then stop else claim state_key q)
                else Effect.fault)
            else claim state_key q)

  unfoldable pub route : String → Effect
  route status = Effect.read (route_query status) router
