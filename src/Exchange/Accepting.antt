-- ===== src/Exchange/Accepting.antt =====
-- The handler of messages (exchange_impl.cpp) answers its request once, behind three rounds through
-- the repository.
use restq.Base.{
  ℕ, String, true, false, [], ◌∷◌, none, some, ◌==◌, ltb, ◌≡◌, ◌≢◌, refl, sym, subst, ◌∙◌, arith,
  All, All-mono, In, here, there, Bool-cases, Option-cases, inl, inr, get_last?,
}
use restq.Effects.{Effect}
use restq.ErrorHandler.{request_entity_too_large, service_unavailable}
use restq.ErrorHandler.Laws.{IsPrepared, unsupported_media_type-Answers, explain-Answers}
use restq.Exchange.Answering.{IsRouted, note-ClosesOnce, if-IsQueue, restored-ClosesOnce}
use restq.Exchange.Contract.{
  IsQueue, IsFit, ClosesOnce, closes_now, ClosesOnce-of_Answers, ClosesOnce-if, read-ClosesOnce,
  create-ClosesOnce, at-ClosesOnce, value_at_of_has, last-All,
}
use restq.Exchange.Make.{forwarded, make_message}
use restq.Exchange.Messages.{
  make_states, accepted, create_message_callback, send,
  create_message_and_read_subscriptions_callback, create_message_and_read_queues_callback,
  message_query, create_message_handler,
}
use restq.Exchange.Quota.{sort_states, quota}
use restq.Exchange.Replying.{refused-ClosesOnce}
use restq.Exchange.States.{IsServed, IsReachable, make_states-IsNew}
use restq.Multimap.{Multimap, insert, has, value_at}
use restq.Multimap.Laws.{has-insert}
use restq.Platform.{Platform, Moment}
use restq.Query.{
  Query, of_session, clear, has_failed, set_session, set_key, set_include, set_inclusive_filter,
  set_exclusive_filter,
}
use restq.Resource.{Resource, Resources, queue_type, state_type, message_type, subscription_type}
use restq.Ruleset.Preparing.{IsReady}
use restq.Session.{Session}
use restq.Validator.{is_valid_forwarding_header}

nil_of_last : (rs : Resources) → get_last? rs ≡ none → rs ≡ []
nil_of_last [] n = refl
nil_of_last (r ∷ []) n = cc
nil_of_last (q ∷ r ∷ rs) n = absurd (cons_not_nil (nil_of_last (r ∷ rs) n))
  where
    cons_not_nil : r ∷ rs ≡ [] → ⊥
    cons_not_nil e = cc

has-forwarded :
    (p : Platform) (name : String) (headers message : Multimap)
    → has name message ≡ true
    → has name (forwarded p headers message) ≡ true
unfolding forwarded
has-forwarded p name [] message h = h
has-forwarded p name ((n, v) ∷ headers) message h =
    has-forwarded p name headers _ (elim (Bool-cases (is_valid_forwarding_header p n)) [
      | inl e ↦ rw e (ground (arith, has-insert name n v message))
      | inr e ↦ rw e h
    ])

IsReachable-of_IsFit :
    (rs : Resources)
    → All IsFit rs
    → All (λ r. value_at "type" r ≡ some subscription_type) rs
    → All IsReachable rs
IsReachable-of_IsFit [] f t = tt
IsReachable-of_IsFit (r ∷ rs) (f, fs) (t, ts) =
    ((f.keyed, f.subscription t), IsReachable-of_IsFit rs fs ts)

module _ (p : Platform) where
  make_message-ClosesOnce :
      (m : Moment) (i : ℕ) (s : Session) (k : Resource → Effect)
      → IsReady s
      → ((message : Resource)
          → (key : String) × (value_at "key" message ≡ some key)
          → ClosesOnce (k message))
      → ClosesOnce (make_message p m i s k)
  unfolding make_message
  make_message-ClosesOnce m i s k (_, _, (parameters, e), _, _, _, _) f = simp e (
      f _ (
        value_at_of_has "key" _ (
          has-insert "key" "query" _ _
          ∙ has-forwarded p "key" s.request.headers _ (simp has-insert refl))))

  quota-ClosesOnce :
      (m : Moment) (s : Session) (size : ℕ) (states queues : Resources) (q : Query)
      (k : Query → Effect)
      → IsPrepared s
      → All IsQueue queues
      → ((q' : Query)
          → q'.session ≡ q.session
          → q'.related ≡ q.related
          → q'.exclusive_filters ≡ q.exclusive_filters
          → ClosesOnce (k q'))
      → ClosesOnce (quota p m s size states queues q k)
  unfolding quota set_inclusive_filter request_entity_too_large service_unavailable
  quota-ClosesOnce m s size states [] q k hp a f = f q refl refl refl
  quota-ClosesOnce m s size states (queue ∷ queues) q k hp
        ((((key, ek), _, _), (n, (t, et, en)), (l, (u, eu, eln)), _), more) f =
      elim (Bool-cases (ltb l size)) [
        | inl b ↦
            rw (ek, eu, eln, b) (ClosesOnce-of_Answers 413 _ (explain-Answers p m 413 s _ _ hp))
        | inr b ↦
            rw (ek, eu, eln, b, et, en)
              (ClosesOnce-if _ _ _ (ClosesOnce-of_Answers 503 _ (explain-Answers p m 503 s _ _ hp))
                (quota-ClosesOnce m s size states queues _ k hp more f))
      ]

  sort_states-ClosesOnce :
      (rs queues states : Resources) (k : Resources → Resources → Effect)
      → All IsFit rs
      → All IsQueue queues
      → ((qs ss : Resources) → All IsQueue qs → ClosesOnce (k qs ss))
      → ClosesOnce (sort_states p rs queues states k)
  unfolding sort_states
  sort_states-ClosesOnce [] queues states k f a h = h queues states a
  sort_states-ClosesOnce (r ∷ rs) queues states k (f, fs) a h =
      let (t, et) = f.typed in
      let (key, ek) = f.keyed in
      elim (Bool-cases (t == queue_type)) [
        | inl b ↦
            rw (et, b)
              (note-ClosesOnce true _
                (sort_states-ClosesOnce rs _ _ k fs (rw b at (if-IsQueue t r queues f et a)) h))
        | inr b ↦ elim (Bool-cases (t == state_type)) [
          | inl c ↦
              rw (et, b, c, ek) (note-ClosesOnce true _ (sort_states-ClosesOnce rs _ _ k fs a h))
          | inr c ↦ rw (et, b, c) (note-ClosesOnce false _ (sort_states-ClosesOnce rs _ _ k fs a h))
        ]
      ]

  accepted-ClosesOnce :
      (key : String) (m : Moment) (q : Query) (s : Session)
      → q.session ≡ some s
      → IsPrepared s
      → ClosesOnce (accepted p key m q)
  unfolding accepted
  accepted-ClosesOnce key m q s e h = simp e (elim (Bool-cases (has_failed q)) [
    | inl b ↦ rw b (refused-ClosesOnce p m q _ s h)
    | inr b ↦ rw b (record { closing = tt })
  ])

  create_message_callback-ClosesOnce :
      (states : Resources) (m : Moment) (q : Query) (s : Session)
      → q.session ≡ some s
      → IsPrepared s
      → (has_failed q ≡ false → All IsFit q.resultset × (q.resultset ≢ []))
      → ClosesOnce (create_message_callback p states m q)
  unfolding create_message_callback set_exclusive_filter set_session
  create_message_callback-ClosesOnce states m q s e h f = simp e (elim (Bool-cases (has_failed q)) [
    | inl b ↦ rw b (refused-ClosesOnce p m q _ s h)
    | inr b ↦ elim (Option-cases (get_last? q.resultset)) [
      | inl n ↦ absurd ((f b).1 (nil_of_last q.resultset n))
      | inr (message, n) ↦
          let (key, ek) = (last-All IsFit q.resultset message (f b).0 n).keyed in
          simp (b, n, ek)
            (create-ClosesOnce _ _ _
              λ m' q' (r, _). accepted-ClosesOnce key m' q' s r.same_session h)
    ]
  ])

  send-ClosesOnce :
      (m : Moment) (s : Session) (q : Query) (message : Resource) (states : Resources)
      → IsRouted s
      → ClosesOnce (send p m s q message states)
  unfolding send set_session
  send-ClosesOnce m s q message [] h = closes_now _
  send-ClosesOnce m s q message (state ∷ states) h =
      restored-ClosesOnce message_type s _ _ h λ q' same typed.
        create-ClosesOnce _ _ _ λ m' q'' (r, some_for).
          create_message_callback-ClosesOnce (state ∷ states) m' q'' s (r.same_session ∙ same) h.0.0
            λ ok. (r.fit ok, λ e. cons_not_nil (some_for ok e))
    where
      cons_not_nil : message ∷ [] ≡ [] → ⊥
      cons_not_nil e = cc

  make_states-ClosesOnce :
      (m : Moment) (key : String) (queues subscriptions : Resources) (k : Resources → Effect)
      → All IsQueue queues
      → All IsReachable subscriptions
      → ((states : Resources) → ClosesOnce (k states))
      → ClosesOnce (make_states p m key queues subscriptions [] k)
  make_states-ClosesOnce m key queues subscriptions k a l f =
      let (states, e, _) =
        make_states-IsNew p m key queues subscriptions [] k
          (All-mono IsQueue IsServed queues (λ r h. h.0) a) l tt in
      subst ClosesOnce (sym e) (f states)

  subscriptions-ClosesOnce :
      (queues : Resources) (m : Moment) (q : Query) (s : Session)
      → q.session ≡ some s
      → IsRouted s
      → All IsQueue queues
      → (has_failed q ≡ false → All IsReachable q.resultset)
      → ClosesOnce (create_message_and_read_subscriptions_callback p queues m q)
  unfolding create_message_and_read_subscriptions_callback
  subscriptions-ClosesOnce queues m q s e h a f = simp e (elim (Bool-cases (has_failed q)) [
    | inl b ↦ rw b (refused-ClosesOnce p m q _ s h.0.0)
    | inr b ↦ rw b (
        make_message-ClosesOnce m 0 s _ h.0 λ message keyed. at-ClosesOnce _ _ keyed λ key.
          make_states-ClosesOnce m key queues q.resultset _ a (f b)
            λ states. send-ClosesOnce m s q message states h)
  ])

  -- The query for the subscriptions of a message, before the quota names their queues.
  abbrev subscriptions_query : Session → Query → Query
  subscriptions_query s q =
      set_exclusive_filter "state" "reachable"
        (set_exclusive_filter "type" subscription_type (set_session (some s) (clear q)))

  subscriptions_query_typed :
      (s : Session) (q : Query)
      → In ("type", subscription_type) (subscriptions_query s q).exclusive_filters
  unfolding set_exclusive_filter set_session clear insert
  subscriptions_query_typed s q = there (here refl)

  queues-ClosesOnce :
      (m : Moment) (q : Query) (s : Session)
      → q.session ≡ some s
      → IsRouted s
      → (has_failed q ≡ false → All IsFit q.resultset)
      → ClosesOnce (create_message_and_read_queues_callback p m q)
  unfolding create_message_and_read_queues_callback set_exclusive_filter set_session clear
  queues-ClosesOnce m q s e h f = simp e (elim (Bool-cases (has_failed q)) [
    | inl b ↦ rw b (refused-ClosesOnce p m q _ s h.0.0)
    | inr b ↦ rw b (
        sort_states-ClosesOnce q.resultset [] [] _ (f b) tt λ queues states a.
          quota-ClosesOnce m s _ states queues (subscriptions_query s q) _ h.0.0 a
            λ q' same related filters. read-ClosesOnce q' _ λ m' q'' r.
              subscriptions-ClosesOnce queues m' q'' s (r.0.same_session ∙ same) h a λ ok.
                IsReachable-of_IsFit q''.resultset (r.0.fit ok) (
                  r.2 subscription_type
                    (subst (In ("type", subscription_type)) (sym filters)
                      (subscriptions_query_typed s q))
                    related ok))
  ])

  message_query-session : (s : Session) → (message_query p s).session ≡ some s
  unfolding message_query set_include set_key set_session clear of_session set_exclusive_filter
  message_query-session s = elim (Bool-cases (p.has_path_parameter s.request "key")) [
    | inl b ↦ rw b refl
    | inr b ↦ rw b refl
  ]

  -- A message of a routed session is answered once, also while other requests run between the
  -- rounds.
  pub create_message_handler-ClosesOnce :
      (m : Moment) (s : Session) → IsRouted s → ClosesOnce (create_message_handler p m s)
  unfolding create_message_handler
  create_message_handler-ClosesOnce m s h =
      elim (Bool-cases (p.get_header s.request "Content-Type" == "")) [
        | inl b ↦ rw b (ClosesOnce-of_Answers 415 _ (unsupported_media_type-Answers p m _ s h.0.0))
        | inr b ↦ rw b (
            read-ClosesOnce (message_query p s) _ λ m' q r.
              queues-ClosesOnce m' q s (r.0.same_session ∙ message_query-session s) h r.0.fit)
      ]
