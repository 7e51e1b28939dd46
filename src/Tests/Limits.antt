-- ===== src/Tests/Limits.antt =====
-- A limit that is set twice, for a queue that takes messages of up to ten bytes.
use restq.Base.{arith, some, false, [], ◌∷◌, ◌≡◌, refl}
use restq.Effects.{Effect}
use restq.Exchange.Quota.{quota, count_states, listed}
use restq.Exchange.Messages.{
  create_message_and_read_queues_callback, create_message_and_read_subscriptions_callback,
}
use restq.Exchange.Subscribers.{Names, queues-Reads}
use restq.Exchange.Slipping.{twice, second_limit_slips}
use restq.Multimap.{equal_range, value_at, lower_bound}
use restq.Multimap.Laws.{IsSorted}
use restq.Number.{stoul, signed, skip_space, unsigned, scan}
use restq.Query.{Query, empty, has_failed}
use restq.Resource.{queue_type, subscription_type}
use restq.Stl.{apply_changes}
use restq.Tests.Data.{platform, moment, session_of, queue, state}
use restq.Validator.{has_reserved_update_fields, has_invalid_update_fields}

queue-IsSorted : IsSorted queue
queue-IsSorted = (
  (refl, (refl, (refl, (refl, tt)))),
  ((refl, (refl, (refl, tt))), ((refl, (refl, tt)), ((refl, tt), (tt, tt)))),
)

second_limit_slips_example :
    (has_reserved_update_fields (twice "message-size-limit" "5" "many") ≡ false)
    × (has_invalid_update_fields platform (twice "message-size-limit" "5" "many") queue_type
        ≡ false)
    × (quota platform moment
          (session_of (queue ∷ []))
          4
          []
          ((apply_changes (twice "message-size-limit" "5" "many") (queue, false)).0 ∷ [])
          empty
          (λ q. Effect.done)
        ≡ Effect.raise)
unfolding stoul signed skip_space unsigned scan equal_range
second_limit_slips_example =
    second_limit_slips platform moment (session_of (queue ∷ [])) 4 [] [] empty (λ q. Effect.done)
      queue false "Q1" "10" "5" "many" 5 refl refl queue-IsSorted refl refl

-- A message for the queue, which has one state.
abbrev asked : Query
asked = record empty { session = some (session_of (queue ∷ [])); resultset = queue ∷ state ∷ [] }

queues-Reads_example :
    (q' : Query) × (create_message_and_read_queues_callback platform moment asked
      ≡ Effect.read q' (create_message_and_read_subscriptions_callback platform (queue ∷ [])))
    × Names ("Q1" ∷ []) q'
    × (q'.exclusive_filters ≡ ("state", "reachable") ∷ ("type", subscription_type) ∷ [])
    × (q'.session ≡ some (session_of (queue ∷ [])))
    × (q'.fields ≡ [])
    × (q'.keys ≡ [])
unfolding value_at lower_bound count_states stoul signed skip_space unsigned scan has_failed listed
queues-Reads_example =
    queues-Reads platform moment asked (session_of (queue ∷ [])) (queue ∷ []) (state ∷ [])
      ("Q1" ∷ []) ("T1" ∷ []) refl refl refl (refl, tt) (refl, refl, tt)
      ((10, 2, refl, ("10", refl, refl), ("2", refl, refl), omega arith, omega arith), tt)
