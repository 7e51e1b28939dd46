-- ===== src/Dispatch/Redelivery.antt =====
-- How often a message is sent to a subscriber that never accepts it, where the repository is that
-- of the example.
use restq.Base.{ℕ, get_last?, true, suc, String, Bool, false, List, [], ◌∷◌, some, ◌≡◌, leb, ◌&&◌}
use restq.Dispatch.{inflight, suspended, unreachable, settle, dispatch, state_query, redeliver_at}
use restq.Dispatch.Message.{pairs}
use restq.Effects.{Effect, Delivery}
use restq.Dispatch.Settling.{change_of, Ends}
use restq.Multimap.{value_at}
use restq.Multimap.Laws.{IsSorted}
use restq.Number.{stoul}
use restq.Platform.{Platform, Moment}
use restq.Query.{Query, has_failed, has_resultset}
use restq.Resource.{Resource}
use restq.Stl.{apply_change, apply_changes}
use restq.Stl.Updating.{HasOnly}

-- A state with the number of attempts left and the seconds between them, each property once.
pub record IsMade (attempts interval : ℕ) (r : Resource) : Type 0 where
  pub sorted : IsSorted r
  pub key : String
  pub has-key : HasOnly "key" key r
  pub endpoint : String
  pub has-endpoint : HasOnly "subscription-endpoint" endpoint r
  pub subscription : String
  pub has-subscription : HasOnly "subscription-key" subscription r
  pub message : String
  pub has-message : HasOnly "message-key" message r
  pub left : String
  pub has-left : HasOnly "max-delivery-attempts" left r
  pub reads-left : stoul left ≡ some attempts
  pub between : String
  pub has-between : HasOnly "redelivery-interval" between r
  pub reads-between : stoul between ≡ some interval
  pub status : String
  pub has-status : HasOnly "status" status r

-- The subscriber's answer is no 2xx.
abbrev pub IsFailure : ℕ → Type 0
IsFailure code = (leb 200 code && leb code 299) ≡ false

-- The writes of one failed round.
abbrev writes : String → String → Resource × Bool → Resource × Bool
writes left time s =
    apply_change "status" suspended
      (apply_change "redeliver-at" time (apply_change "max-delivery-attempts" left s))

-- The state as the round that claims it finds it afterwards.
abbrev pub in_flight : Resource → Resource
in_flight r = (apply_changes (("status", inflight) ∷ []) (r, false)).0

-- The state as a round of the dispatcher leaves it.
abbrev pub round : String → ℕ → ℕ → Resource → Resource
round time code attempts r = (apply_changes (change_of time code attempts) (in_flight r, false)).0

-- The message has what a delivery takes from it.
pub record IsSendable (p : Platform) (r : Resource) : Type 0 where
  pub body : (v : String) × (value_at "data" r ≡ some v)
  pub author : (v : String) × (value_at "author" r ≡ some v)
  pub origin : (v : String) × (value_at "origin" r ≡ some v)
  pub checksum : (v : String) × (value_at "checksum" r ≡ some v)
  pub content_type : (v : String) × (value_at "content-type" r ≡ some v)
  pub modified : (v : String) × (value_at "modified" r ≡ some v)
  pub protocol : (v : String) × (value_at "protocol" r ≡ some v)
  pub version : (v : String) × (value_at "protocol-version" r ≡ some v)
  pub destination : (v : String) × (value_at "destination" r ≡ some v)
  pub query :
      (v : String) × (ps : List (String × String)) × (value_at "query" r ≡ some v)
      × (pairs p (p.split v "&") ≡ some ps)

module _ (p : Platform) (key : String) (message : Resource) (interval : ℕ) where
  -- A round of a state with some attempts, from the read of the message on: it sends the message once,
  -- and after an answer that is no 2xx it ends in an update of the state to the status, where the clock
  -- holds the time of redelivery.
  abbrev pub IsRound : ℕ → String → Resource → Type 0
  IsRound attempts status r =
      (m : Moment) (q : Query)
      → has_failed q ≡ false
      → has_resultset q ≡ true
      → get_last? q.resultset ≡ some message
      → ((d : Delivery) × (dispatch p key (in_flight r) m q
            ≡ Effect.deliver d (settle (in_flight r) (state_query key q))))
        × ((m' : Moment) (code : ℕ) (time : String)
            → IsFailure code
            → redeliver_at m'.time interval ≡ some time
            → Ends (change_of time code attempts) (state_query key q) status
                (settle (in_flight r) (state_query key q) m' code))

  -- The message is sent so many times for the state, whatever the times and the failures are: each
  -- round but the last suspends the state, and the last makes it unreachable.
  pub data Sent : ℕ → Resource → Type 0 where
    last : (attempts : ℕ) {r : Resource} → IsRound attempts unreachable r → Sent 1 r
    again :
        (attempts : ℕ) {left : ℕ} {r : Resource}
        → IsRound attempts suspended r
        → ((time : String) (code : ℕ) → IsFailure code → Sent left (round time code attempts r))
        → Sent (suc left) r
