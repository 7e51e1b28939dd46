-- ===== src/Exchange/Quota.antt =====
-- The test of the queues' limits for a message (exchange_impl.cpp,
-- create_message_and_read_queues_callback).
use restq.Base.{
  ℕ, ◌+◌, String, Bool, ◌||◌, [], ◌∷◌, ◌++◌, Option, none, some, ◌==◌, ltb, any, count_if,
  if◌then◌else◌,
}
use restq.Dispatch.{number}
use restq.Effects.{Effect, at}
use restq.ErrorHandler.{request_entity_too_large, service_unavailable}
use restq.Exchange.Capacity.{note}
use restq.Multimap.{value_at}
use restq.Platform.{Platform, Moment}
use restq.Query.{Query, set_inclusive_filter}
use restq.Resource.{Resource, Resources, queue_type, state_type}
use restq.Session.{Session}
use restq.Stl.{same}

-- The states of a queue.
unfoldable pub count_states : String → Resources → ℕ
count_states queue_key states =
    count_if (λ r. same (some queue_key) (value_at "queue-key" r)) states

module _ (p : Platform) where
  -- Whether a state with the key is in the list already.
  unfoldable pub listed : String → Resources → Bool
  listed key states =
      any
        (λ r.
          same (some key) (elim (value_at "key" r) [ none ↦ none | some k ↦ some (p.lowercase k) ]))
        states

  -- The key of a state, which is read only for a state.
  abbrev key_for : Bool → Resource → Option String
  key_for is_state r = if is_state then value_at "key" r else some ""

  -- The loop that tells the queues and the states of a resultset apart; a state counts once.
  unfoldable pub sort_states :
      Resources → Resources → Resources → (Resources → Resources → Effect) → Effect
  unfolding listed
  sort_states [] queues states k = k queues states
  sort_states (r ∷ rs) queues states k = at (value_at "type" r) λ t.
      let is_queue = t == queue_type in
      let is_state = if is_queue then Bool.false else t == state_type in
      at (key_for is_state r) λ key. note (is_queue || is_state) (
        sort_states rs (if is_queue then queues ++ r ∷ [] else queues)
          (if is_state
            then (if listed (p.lowercase key) states then states else states ++ r ∷ [])
            else states)
          k)

  -- The loop over the queues; `k` is what follows it, with the query.
  unfoldable pub quota :
      Moment → Session → ℕ → Resources → Resources → Query → (Query → Effect) → Effect
  quota m s size states [] q k = k q
  quota m s size states (queue ∷ queues) q k = at (value_at "key" queue) λ queue_key.
      at (value_at "message-size-limit" queue) λ size_text. number size_text λ size_limit.
        let q' = set_inclusive_filter "queues" queue_key q in
        let later = quota m s size states queues q' k in
        if ltb size_limit size
        then request_entity_too_large p m
            "The exchange is refusing to process a request because the message entity is larger than the one or more of the queues is willing or able to process."
            s
        else (at (value_at "message-limit" queue) λ text. number text λ limit.
            if ltb limit (count_states queue_key states + 1)
            then service_unavailable p m
                "The exchange is refusing to process a request because the message would violate a queue(s) capacity."
                s
            else later)
