-- ===== src/Tests/Service.antt =====
-- The theorems on the exchange, its errors and the dispatcher, for a prepared session.
use restq.Base.{◌≤◌, ◌<◌, true, [], ◌∷◌, some, ◌≡◌, refl, arith, here, ℕ, false}
use mathlib.Core.Bool.{true≢false}
use restq.Dispatch.{settle, redeliver_at, to_signed, later}
use restq.Exchange.Make.{make_state}
use restq.Platform.{Platform}
use restq.Number.{ℤ, integer_text}
use restq.Ruleset.{setup_ruleset}
use restq.Ruleset.Preparing.{GoesOn, IsReadyFor, setup_ruleset-GoesOn}
use restq.Exchange.States.{IsServed}
use restq.Dispatch.Settling.{IsState, Ends, change_of, outcome, settle-Ends}
use restq.Effects.{Effect}
use restq.ErrorHandler.Laws.{Answers, IsPrepared}
use restq.Exchange.Capacity.{capacity, subscribes}
use restq.Exchange.Creation.{Stops, IsAccepted, create_refused}
use restq.Exchange.Defaults.{created_queue-IsServed}
use restq.Exchange.Make.{initialise_default_resource}
use restq.Settings.{
  get_default_queue_message_limit, get_default_queue_message_size_limit,
  get_default_queue_subscription_limit, get_default_queue_max_delivery_attempts,
  get_default_queue_redelivery_interval,
}
use restq.Exchange.Failing.{refused_update-Answers}
use restq.Exchange.Handlers.{
  create_resource_handler, read_resource_handler, update_resource_handler,
}
use restq.Exchange.Limits.{capacity_refuses, quota_refuses, HasNumber}
use restq.Exchange.Quota.{quota, count_states}
use restq.Multimap.{value_at, lower_bound, has}
use restq.Number.{stoul, signed, skip_space, unsigned, scan}
use restq.Query.{Query, empty, set_session, set_error_code}
use restq.Resource.{queue_type, Resource}
use restq.Session.{Session, opened}
use restq.Tests.Data.{
  platform, moment, properties, unset, queue, subscription, state, session_of, formatter_of, lower,
  request,
}
use restq.Validator.{
  has_reserved_create_fields, has_reserved_update_fields, has_invalid_create_fields, bad_queue,
}

-- A session whose body reads as one queue, with a reserved property.
abbrev session : Session
session = session_of (queue ∷ [])

session-IsPrepared : IsPrepared session
session-IsPrepared = ((formatter_of (queue ∷ []), refl), (true, refl), (true, refl))

-- A query that has failed with a conflict.
abbrev failed_query : Query
failed_query = set_error_code 40009 (set_session (some session) empty)

not-IsAccepted : ¬ IsAccepted platform properties unset moment queue_type queue
unfolding has_reserved_create_fields
not-IsAccepted (e, h, k) = true≢false e

create_refused_example :
    Stops platform properties unset moment
      (create_resource_handler platform properties unset moment queue_type session)
create_refused_example =
    create_refused platform properties unset moment queue_type session (formatter_of (queue ∷ []))
      (queue ∷ []) queue session-IsPrepared refl refl (here refl) not-IsAccepted

capacity_refuses_example : Answers 503 (
    capacity platform moment session
      (subscription ∷ [])
      (subscription ∷ [])
      (queue ∷ [])
      Effect.done)
unfolding subscribes value_at lower_bound lower stoul signed skip_space unsigned scan
capacity_refuses_example =
    capacity_refuses platform moment session (subscription ∷ []) (subscription ∷ []) [] [] queue
      Effect.done "Q1" 1 session-IsPrepared tt refl ("1", refl, refl) (omega arith)

quota_refuses_example :
    (10 < 11
      → Answers 413 (quota platform moment session 11 [] (queue ∷ []) empty (λ q. Effect.done)))
    × (11 ≤ 10
        → 2 ≤ count_states "Q1" []
        → Answers 503 (quota platform moment session 11 [] (queue ∷ []) empty (λ q. Effect.done)))
unfolding value_at lower_bound stoul signed skip_space unsigned scan
quota_refuses_example =
    quota_refuses platform moment session 11 [] [] queue "Q1" 10 2 empty (λ q. Effect.done)
      session-IsPrepared refl ("10", refl, refl) ("2", refl, refl)

state-IsState : IsState state 3 30
unfolding value_at lower_bound stoul signed skip_space unsigned scan
state-IsState = (("S1", refl), ("M1", refl), ("3", refl, refl), ("30", refl, refl))

moment_holds : redeliver_at moment.time 30 ≡ some (integer_text (later moment.time (ℤ.pos 30)))
unfolding redeliver_at to_signed later
moment_holds = refl

settle-Ends_example :
    Ends
      (change_of (integer_text (later moment.time (ℤ.pos 30))) 500 3)
      empty
      (outcome 500 3)
      (settle state empty moment 500)
settle-Ends_example = settle-Ends state empty moment 500 3 30 _ state-IsState moment_holds

-- What a message has to be sent, on a platform that splits a text into nothing.
abbrev sendable : Resource
sendable =
    ("author", "")
    ∷ ("checksum", "")
    ∷ ("content-type", "text/plain")
    ∷ ("data", "x")
    ∷ ("destination", "")
    ∷ ("key", "M1")
    ∷ ("modified", "1")
    ∷ ("origin", "")
    ∷ ("protocol", "HTTP")
    ∷ ("protocol-version", "1.1")
    ∷ ("query", "")
    ∷ []

abbrev unsplitting : Platform
unsplitting = record platform { split = λ s c. [] }

abbrev three_attempts : Resource
three_attempts = make_state "T1" "Q1" "30" "3" "M1" "S1" "http://a"

setup_ruleset-GoesOn_example :
    GoesOn (IsReadyFor request) (read_resource_handler platform queue_type) (
      setup_ruleset platform moment
        (("*/*", formatter_of []) ∷ [])
        (opened request "127.0.0.1")
        (read_resource_handler platform queue_type))
setup_ruleset-GoesOn_example =
    setup_ruleset-GoesOn platform moment request (("*/*", formatter_of []) ∷ [])
      (opened request "127.0.0.1") (read_resource_handler platform queue_type) refl

-- The queue with what a message's states take from it.
abbrev serving : Resource
serving =
    ("key", "Q1")
    ∷ ("max-delivery-attempts", "3")
    ∷ ("redelivery-interval", "30")
    ∷ ("type", "queue")
    ∷ []

refused_update-Answers_example :
    Answers 400 (update_resource_handler platform moment queue_type session)
unfolding has_reserved_update_fields has
refused_update-Answers_example =
    refused_update-Answers platform moment queue_type session (formatter_of (queue ∷ []))
      session-IsPrepared refl refl

-- A new queue that names one of its limits.
abbrev posted : Resource
posted = ("message-limit", "5") ∷ []

posted_accepted : has_invalid_create_fields platform posted queue_type ≡ false
unfolding has_invalid_create_fields bad_queue has value_at lower_bound stoul signed skip_space
    unsigned scan
posted_accepted = refl

created_queue-IsServed_example :
    (r : Resource) × (initialise_default_resource platform properties unset moment 0 queue_type
        session posted
      ≡ some r)
    × IsServed r
    × ((n : ℕ) × HasNumber "message-limit" r n)
    × ((n : ℕ) × HasNumber "message-size-limit" r n)
    × ((n : ℕ) × HasNumber "subscription-limit" r n)
unfolding get_default_queue_message_limit get_default_queue_message_size_limit
    get_default_queue_subscription_limit get_default_queue_max_delivery_attempts
    get_default_queue_redelivery_interval stoul signed skip_space unsigned scan
created_queue-IsServed_example =
    created_queue-IsServed platform properties unset moment 0 session posted 100 1024 25 3 30 "30"
      (tt, tt) posted_accepted (refl, omega arith) (refl, omega arith) (refl, omega arith)
      (refl, omega arith) (refl, refl)
