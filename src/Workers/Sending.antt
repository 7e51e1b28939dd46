-- ===== src/Workers/Sending.antt =====
-- The handler of messages (exchange_impl.cpp) writes lawful resources only.
use restq.Base.{
  ℕ, suc, ◌+◌, String, List, [], ◌∷◌, ◌++◌, ◌==◌, ltb, length, get_last?, All, All-append,
  Bool-cases, inl, inr,
}
use restq.Effects.{Effect}
use restq.Exchange.Messages.{
  states_for, states_of_queues, make_states, accepted, create_message_callback, send,
  create_message_and_read_subscriptions_callback, create_message_and_read_queues_callback,
  create_message_handler,
}
use restq.Exchange.Quota.{sort_states, quota, count_states}
use restq.Multimap.{equal_range, value_at}
use restq.Number.{stoul}
use restq.Platform.{Platform, Moment}
use restq.Query.{Query, has_failed}
use restq.Resource.{Resource, Resources, queue_type, state_type, message_type}
use restq.Session.{Session}
use restq.Workers.Closing.{
  WritesLawful-if, WritesLawful-at, WritesLawful-get, WritesLawful-find_and_invoke_for,
  WritesLawful-service_unavailable, WritesLawful-request_entity_too_large,
  WritesLawful-unsupported_media_type,
}
use restq.Workers.Lawful.{IsLawful}
use restq.Workers.Messages.{make_message-WritesLawful, make_state-IsLawful}
use restq.Workers.Requests.{restored-WritesLawful}
use restq.Workers.Writing.{WritesLawful}

module _ (p : Platform) where
  states_for-IsLawful :
      (m : Moment) (mk sk endpoint qk interval attempts : String) (vs : List String) (i : ℕ)
      → All IsLawful (states_for p m i mk sk endpoint qk interval attempts vs)
  unfolding states_for
  states_for-IsLawful m mk sk endpoint qk interval attempts [] i = tt
  states_for-IsLawful m mk sk endpoint qk interval attempts (v ∷ vs) i =
      elim (Bool-cases (p.lowercase v == p.lowercase qk)) [
        | inl e ↦ rw e (
          make_state-IsLawful (m.uuid i) qk interval attempts mk sk endpoint,
          states_for-IsLawful m mk sk endpoint qk interval attempts vs (suc i),
        )
        | inr e ↦ rw e (states_for-IsLawful m mk sk endpoint qk interval attempts vs i)
      ]

  states_of_queues-WritesLawful :
      (m : Moment) (mk sk endpoint : String) (listed : List String) (queues states : Resources)
      (k : Resources → Effect)
      → All IsLawful states
      → ((states : Resources) → All IsLawful states → WritesLawful (k states))
      → WritesLawful (states_of_queues p m mk sk endpoint listed queues states k)
  unfolding states_of_queues
  states_of_queues-WritesLawful m mk sk endpoint listed [] states k a h = h states a
  states_of_queues-WritesLawful m mk sk endpoint listed (queue ∷ queues) states k a h =
      WritesLawful-at (value_at "key" queue) _ λ qk.
        WritesLawful-at (value_at "redelivery-interval" queue) _ λ interval.
          WritesLawful-at (value_at "max-delivery-attempts" queue) _ λ attempts.
            states_of_queues-WritesLawful m mk sk endpoint listed queues
              (states
                ++ states_for p m (suc (length states)) mk sk endpoint qk interval attempts listed)
              k
              (All-append IsLawful states _ a (
                states_for-IsLawful m mk sk endpoint qk interval attempts listed
                  (suc (length states))))
              h

  make_states-WritesLawful :
      (m : Moment) (mk : String) (queues subscriptions states : Resources) (k : Resources → Effect)
      → All IsLawful states
      → ((states : Resources) → All IsLawful states → WritesLawful (k states))
      → WritesLawful (make_states p m mk queues subscriptions states k)
  unfolding make_states
  make_states-WritesLawful m mk queues [] states k a h = h states a
  make_states-WritesLawful m mk queues (s ∷ subscriptions) states k a h =
      WritesLawful-at (value_at "key" s) _ λ sk.
        WritesLawful-at (value_at "endpoint" s) _ λ endpoint.
          states_of_queues-WritesLawful m mk sk endpoint (equal_range "queues" s) queues states _ a
            λ states' a'. make_states-WritesLawful m mk queues subscriptions states' k a' h

  accepted-WritesLawful :
      (key : String) (m : Moment) (q : Query) → WritesLawful (accepted p key m q)
  unfolding accepted
  accepted-WritesLawful key m q = WritesLawful-at q.session _ λ s.
      WritesLawful-if (has_failed q) _ _ (WritesLawful-find_and_invoke_for p m q.error_code _ s) tt

  send-WritesLawful :
      (m : Moment) (s : Session) (q : Query) (message : Resource) (states : Resources)
      → IsLawful message
      → All IsLawful states
      → WritesLawful (send p m s q message states)
  unfolding send create_message_callback
  send-WritesLawful m s q message [] h a = tt
  send-WritesLawful m s q message (state ∷ states) h a =
      restored-WritesLawful message_type s _ _ λ q' same typed. (
        (h, tt),
        λ m' q'' same'. WritesLawful-at q''.session _ λ s'.
            WritesLawful-if (has_failed q'') _ _
              (WritesLawful-find_and_invoke_for p m' q''.error_code _ s')
              (WritesLawful-at (get_last? q''.resultset) _ λ message.
                WritesLawful-at (value_at "key" message) _
                  λ key. (a, λ m'' q''' same''. accepted-WritesLawful key m'' q''')),
      )

  subscribed-WritesLawful :
      (queues : Resources) (m : Moment) (q : Query)
      → WritesLawful (create_message_and_read_subscriptions_callback p queues m q)
  unfolding create_message_and_read_subscriptions_callback
  subscribed-WritesLawful queues m q = WritesLawful-at q.session _ λ s.
      WritesLawful-if (has_failed q) _ _ (WritesLawful-find_and_invoke_for p m q.error_code _ s) (
        make_message-WritesLawful p m 0 s _ λ message lawful.
          WritesLawful-at (value_at "key" message) _ λ key.
            make_states-WritesLawful m key queues q.resultset [] _ tt
              λ states a. send-WritesLawful m s q message states lawful a)

  sort_states-WritesLawful :
      (rs queues states : Resources) (k : Resources → Resources → Effect)
      → ((queues states : Resources) → WritesLawful (k queues states))
      → WritesLawful (sort_states p rs queues states k)
  unfolding sort_states
  sort_states-WritesLawful [] queues states k h = h queues states
  sort_states-WritesLawful (r ∷ rs) queues states k h = WritesLawful-at (value_at "type" r) _ λ t.
      let later = λ (queues states : Resources). sort_states-WritesLawful rs queues states k h in
      elim (Bool-cases (t == queue_type)) [
        | inl c ↦ rw c (later _ _)
        | inr c ↦ elim (Bool-cases (t == state_type)) [
          | inl d ↦ rw (c, d) (WritesLawful-at (value_at "key" r) _ λ key. later _ _)
          | inr d ↦ rw (c, d) (later _ _)
        ]
      ]

  quota-WritesLawful :
      (m : Moment) (s : Session) (size : ℕ) (states queues : Resources) (q : Query)
      (k : Query → Effect)
      → ((q' : Query) → WritesLawful (k q'))
      → WritesLawful (quota p m s size states queues q k)
  unfolding quota
  quota-WritesLawful m s size states [] q k h = h q
  quota-WritesLawful m s size states (queue ∷ queues) q k h =
      WritesLawful-at (value_at "key" queue) _ λ key.
        WritesLawful-at (value_at "message-size-limit" queue) _ λ size_text.
          WritesLawful-get (stoul size_text) _ λ size_limit.
            WritesLawful-if (ltb size_limit size) _ _
              (WritesLawful-request_entity_too_large p m _ s)
              (WritesLawful-at (value_at "message-limit" queue) _ λ text.
                WritesLawful-get (stoul text) _ λ limit.
                  WritesLawful-if (ltb limit (count_states key states + 1)) _ _
                    (WritesLawful-service_unavailable p m _ s)
                    (quota-WritesLawful m s size states queues _ k h))

  pub create_message_handler-WritesLawful :
      (m : Moment) (s : Session) → WritesLawful (create_message_handler p m s)
  unfolding create_message_handler create_message_and_read_queues_callback
  create_message_handler-WritesLawful m s =
      WritesLawful-if (p.get_header s.request "Content-Type" == "") _ _
        (WritesLawful-unsupported_media_type p m _ s)
        λ m' q same. WritesLawful-at q.session _ λ s'.
          WritesLawful-if (has_failed q) _ _
            (WritesLawful-find_and_invoke_for p m' q.error_code _ s')
            (sort_states-WritesLawful q.resultset [] [] _ λ queues states.
              quota-WritesLawful m' s' _ states queues _ _
                λ q' m'' q'' same'. subscribed-WritesLawful queues m'' q'')
