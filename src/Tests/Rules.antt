-- ===== src/Tests/Rules.antt =====
-- The theorems on what the validator accepts and on the settings, with concrete resources.
use restq.Base.{String, true, false, [], ◌∷◌, some, ◌≡◌, ◌↔◌, refl, arith, All}
use restq.Multimap.{has, value_at}
use restq.Resource.{Resource, queue_type, subscription_type}
use restq.Settings.{
  get_default_queue_message_limit, get_default_queue_message_size_limit,
  get_default_queue_subscription_limit, get_default_queue_max_delivery_attempts,
  set_default_queue_message_limit, set_default_queue_message_size_limit,
  set_default_queue_subscription_limit, set_default_queue_max_delivery_attempts,
  get_default_queue_redelivery_interval, set_default_queue_redelivery_interval,
}
use restq.Number.{ℤ, integer_text}
use restq.Settings.Laws.{defaults_round_trip}
use restq.Tests.Data.{platform, properties, properties-IsMap, unset, queue, lower}
use restq.Validator.{has_invalid_create_fields, limits}
use restq.Validator.Laws.{subscription_state_refused, queue_accepted_iff, IsReadable}

-- A new subscription to one queue.
abbrev subscribing : Resource
subscribing = ("endpoint", "http://a") ∷ ("queues", "Q1") ∷ []

subscription_state_refused_example :
    has_invalid_create_fields platform
      (("endpoint", "http://a") ∷ ("state", "reachable") ∷ [])
      subscription_type
    ≡ true
unfolding has
subscription_state_refused_example =
    subscription_state_refused platform (("endpoint", "http://a") ∷ ("state", "reachable") ∷ [])
      refl

queue_accepted_iff_example : (has_invalid_create_fields platform queue queue_type ≡ false) ↔ (
    All (IsReadable queue) limits
    × (has "pattern" queue ≡ true
        → (v : String) × (value_at "pattern" queue ≡ some v) × (lower v ≡ "pub-sub")))
queue_accepted_iff_example = queue_accepted_iff platform queue

defaults_round_trip_example :
    let s' = set_default_queue_redelivery_interval properties (ℤ.negsuc 4) (
      set_default_queue_max_delivery_attempts properties 3 (
        set_default_queue_subscription_limit properties 25 (
          set_default_queue_message_size_limit properties 1024
            (set_default_queue_message_limit properties 100 unset)))) in
    (get_default_queue_message_limit properties s' ≡ some 100)
    × (get_default_queue_message_size_limit properties s' ≡ some 1024)
    × (get_default_queue_subscription_limit properties s' ≡ some 25)
    × (get_default_queue_max_delivery_attempts properties s' ≡ some 3)
    × (get_default_queue_redelivery_interval properties s' ≡ some (integer_text (ℤ.negsuc 4)))
defaults_round_trip_example =
    defaults_round_trip properties properties-IsMap unset 100 1024 25 3 (ℤ.negsuc 4) (omega arith)
      (omega arith) (omega arith) (omega arith) (omega arith)
