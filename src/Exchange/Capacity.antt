-- ===== src/Exchange/Capacity.antt =====
-- The test of the queues' capacity for subscriptions (exchange_impl.cpp), which the handlers that
-- create and update a subscription write out alike.
use restq.Base.{
  ◌+◌, String, Bool, ◌&&◌, ◌||◌, [], ◌∷◌, ◌++◌, ◌==◌, ltb, any, count_if, if◌then◌else◌,
}
use restq.Dispatch.{number}
use restq.Effects.{Effect, Level, at}
use restq.ErrorHandler.{service_unavailable}
use restq.Multimap.{value_at}
use restq.Platform.{Platform, Moment}
use restq.Resource.{Resource, Resources, queue_type, subscription_type}
use restq.Session.{Session}

-- An entry of another type is logged and passed over.
abbrev pub note : Bool → Effect → Effect
note known rest = if known then rest else Effect.log Level.error rest

-- The loop that tells the queues and the subscriptions of a resultset apart.
unfoldable pub sort_results :
    Resources → Resources → Resources → (Resources → Resources → Effect) → Effect
sort_results [] queues subscriptions k = k queues subscriptions
sort_results (r ∷ rs) queues subscriptions k = at (value_at "type" r) λ t.
    note (t == queue_type || t == subscription_type) (
      sort_results rs (if t == queue_type then queues ++ r ∷ [] else queues)
        (if t == queue_type
          then subscriptions
          else if t == subscription_type
          then subscriptions ++ r ∷ []
          else subscriptions)
        k)

module _ (p : Platform) where
  -- Whether a resource lists the queue among its own.
  unfoldable pub subscribes : String → Resource → Bool
  subscribes key r = any (λ (e : String × String). e.0 == "queues" && key == p.lowercase e.1) r

  -- The loop over the queues; `k` is what follows it.
  unfoldable pub capacity : Moment → Session → Resources → Resources → Resources → Effect → Effect
  unfolding subscribes
  capacity m s resources subscriptions [] k = k
  capacity m s resources subscriptions (queue ∷ queues) k =
      let later = capacity m s resources subscriptions queues k in
      at (value_at "key" queue) λ queue_key. at (value_at "subscription-limit" queue) λ text.
        number text λ limit.
          let key = p.lowercase queue_key in
          if ltb limit
            (count_if (subscribes key) resources + count_if (subscribes key) subscriptions)
          then service_unavailable p m
              "The exchange is refusing to process a request because a new subscription would violate a queue(s) subscription capacity."
              s
          else later
