-- ===== src/Exchange/Messages.antt =====
-- The handler of messages (exchange_impl.cpp): the queues are read with their states, then the
-- subscriptions; the message is created, then a state for each subscription; then the dispatcher
-- is scheduled.
use Prim.Native.String.{◌++◌ as join}
use restq.Base.{
  ℕ, suc, String, List, [], ◌∷◌, ◌++◌, none, some, ◌==◌, get_last?, length, if◌then◌else◌,
}
use restq.Dispatch.{pending}
use restq.Effects.{Effect, at}
use restq.ErrorHandler.{unsupported_media_type, find_and_invoke_for}
use restq.Exchange.{restored, with_ranges}
use restq.Exchange.Answer.{close_bare}
use restq.Exchange.Make.{make_message, make_state}
use restq.Exchange.Quota.{sort_states, quota}
use restq.Multimap.{equal_range, value_at, of_list}
use restq.Platform.{Platform, Moment}
use restq.Query.{
  Query, of_session, clear, has_failed, set_session, set_key, set_include, set_exclusive_filter,
}
use restq.Resource.{Resource, Resources, queue_type, state_type, message_type, subscription_type}
use restq.Rule.{make_date}
use restq.Session.{Session}

module _ (p : Platform) where
  -- The states of a message for one subscription and one queue: one for each time that the
  -- subscription lists the queue. `i` counts the keys used.
  unfoldable pub states_for :
      Moment
      → ℕ
      → (message_key subscription_key endpoint : String) → (queue_key interval attempts : String)
      → List String
      → Resources
  states_for m i mk sk endpoint qk interval attempts [] = []
  states_for m i mk sk endpoint qk interval attempts (v ∷ vs) =
      let hit = p.lowercase v == p.lowercase qk in
      let rest = states_for m (if hit then suc i else i) mk sk endpoint qk interval attempts vs in
      if hit then make_state (m.uuid i) qk interval attempts mk sk endpoint ∷ rest else rest

  -- The loop over the queues, for one subscription.
  unfoldable pub states_of_queues :
      Moment
      → (message_key subscription_key endpoint : String) → List String
      → Resources
      → Resources
      → (Resources → Effect)
      → Effect
  unfolding states_for
  states_of_queues m mk sk endpoint listed [] states k = k states
  states_of_queues m mk sk endpoint listed (queue ∷ queues) states k =
      at (value_at "key" queue) λ qk. at (value_at "redelivery-interval" queue) λ interval.
        at (value_at "max-delivery-attempts" queue) λ attempts.
          states_of_queues m mk sk endpoint listed queues
            (states
              ++ states_for m (suc (length states)) mk sk endpoint qk interval attempts listed)
            k

  -- The loop over the subscriptions. The message has used the first key.
  unfoldable pub make_states :
      Moment → String → Resources → Resources → Resources → (Resources → Effect) → Effect
  unfolding states_of_queues
  make_states m mk queues [] states k = k states
  make_states m mk queues (subscription ∷ subscriptions) states k =
      at (value_at "key" subscription) λ sk. at (value_at "endpoint" subscription) λ endpoint.
        states_of_queues m mk sk endpoint (equal_range "queues" subscription) queues states
          λ states'. make_states m mk queues subscriptions states' k

  -- The callback of the creation of the states.
  unfoldable pub accepted : String → Moment → Query → Effect
  accepted message_key m q = at q.session λ s.
      if has_failed q
      then find_and_invoke_for p m q.error_code
          "The exchange is refusing to process the request because it has failed to create the repository message state entries."
          s
      else Effect.close
          (record {
            status = 202;
            body = none;
            headers = with_ranges s (
                of_list (
                  ("Allow", "OPTIONS")
                  ∷ ("Date", make_date p m)
                  ∷ ("Location", join "/messages/" message_key)
                  ∷ []));
          })
          (Effect.schedule pending Effect.done)

  unfoldable pub create_message_callback : Resources → Moment → Query → Effect
  create_message_callback states m q = at q.session λ s.
      if has_failed q
      then find_and_invoke_for p m q.error_code
          "The exchange is refusing to process the request because it has failed to create the repository message entry."
          s
      else (at (get_last? q.resultset) λ message. at (value_at "key" message) λ message_key.
          Effect.create states
            (set_exclusive_filter "type" state_type (set_session (some s) (clear q)))
            (accepted message_key))

  -- What follows the loops over subscriptions and queues.
  unfoldable pub send : Moment → Session → Query → Resource → Resources → Effect
  send m s q message [] = close_bare 201 (with_ranges s (of_list (("Date", make_date p m) ∷ [])))
  send m s q message (state ∷ states) =
      restored message_type s (set_session (some s) (clear q))
        λ q'. Effect.create (message ∷ []) q' (create_message_callback (state ∷ states))

  unfoldable pub create_message_and_read_subscriptions_callback :
      Resources → Moment → Query → Effect
  create_message_and_read_subscriptions_callback queues m q = at q.session λ s.
      if has_failed q
      then find_and_invoke_for p m q.error_code
          "The exchange is refusing to process the request because it has failed to load the associated Queue(s) Subscriptions."
          s
      else (make_message p m 0 s λ message. at (value_at "key" message) λ message_key.
          make_states m message_key queues q.resultset [] λ states. send m s q message states)

  unfoldable pub create_message_and_read_queues_callback : Moment → Query → Effect
  create_message_and_read_queues_callback m q = at q.session λ s.
      if has_failed q
      then find_and_invoke_for p m q.error_code
          "The exchange is refusing to process the request because the requested Queue(s) URI could not be found within the exchange."
          s
      else (sort_states p q.resultset [] [] λ queues states.
          quota p m s (p.header_number s.request "Content-Length" 0) states queues
            (set_exclusive_filter "state" "reachable"
              (set_exclusive_filter "type" subscription_type (set_session (some s) (clear q))))
            λ q'. Effect.read q' (create_message_and_read_subscriptions_callback queues))

  -- The query of create_message_handler.
  unfoldable pub message_query : Session → Query
  message_query s = set_exclusive_filter "type" queue_type (
      set_include state_type (
        if p.has_path_parameter s.request "key"
        then set_key (p.get_path_parameter s.request "key")
            (set_session (some s) (clear (of_session s)))
        else of_session s))

  unfoldable pub create_message_handler : Moment → Session → Effect
  create_message_handler m s =
      if p.get_header s.request "Content-Type" == ""
      then unsupported_media_type p m
          "The exchange is only capable of processing request entities which have content characteristics not supported according to the content-type header sent in the request."
          s
      else Effect.read (message_query s) create_message_and_read_queues_callback
