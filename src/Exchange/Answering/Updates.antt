-- ===== src/Exchange/Answering/Updates.antt =====
-- An update (exchange_impl.cpp, update_resource_handler) answers its request once.
use restq.Base.{
  String, [], ◌∷◌, Option, none, some, ◌==◌, ltb, length, ◌≡◌, ◌≢◌, refl, sym, subst, ◌∙◌, arith,
  In, Bool-cases, inl, inr, if◌then◌else◌, if_so, get_last?, eq_iff,
}
use restq.Effects.{Effect, get, at}
use restq.ErrorHandler.{bad_request}
use restq.ErrorHandler.Laws.{IsPrepared, bad_request-Answers}
use restq.Exchange.{typed_query}
use restq.Exchange.Answer.{update_resource_callback}
use restq.Exchange.Contract.{
  ClosesOnce, ClosesOnce-of_Answers, read-ClosesOnce, update-ClosesOnce, In-insert,
}
use restq.Exchange.Handlers.{
  queues_query, with_capacity, malformed_message, update_one, update_resource_handler,
}
use restq.Exchange.Replying.{update_resource_callback-ClosesOnce}
use restq.Platform.{Platform, Moment}
use restq.Query.{Query, of_session, set_session, set_include, set_keys, set_exclusive_filter}
use restq.Resource.{Resource, Resources, message_type, subscription_type}
use restq.Session.{Session, Formatter}
use restq.Validator.{has_reserved_update_fields, has_invalid_update_fields}
use restq.Exchange.Answering.{IsRouted, with_capacity-ClosesOnce}

subscription-ne-message : subscription_type ≢ message_type
subscription-ne-message e = ground (arith, eq_iff subscription_type message_type)

module _ (p : Platform) where
  plain_update-ClosesOnce :
      (type : String) (s : Session) (change : Resource)
      → IsPrepared s
      → type ≢ message_type
      → ClosesOnce (Effect.update change (typed_query type s) (update_resource_callback p))
  unfolding typed_query of_session set_exclusive_filter
  plain_update-ClosesOnce type s change h n = update-ClosesOnce _ _ _ λ m q (r, dated).
      update_resource_callback-ClosesOnce p m q s r.same_session h
        (dated type (In-insert "type" type _) n)

  -- Where the queues of a subscription have to be read first.
  pub with_queues-ClosesOnce :
      (resources : Resources) (s : Session) (k : Session → Query → Effect)
      → IsRouted s
      → ((q : Query)
          → q.session ≡ some s
          → In ("type", subscription_type) q.exclusive_filters
          → ClosesOnce (k s q))
      → ClosesOnce (Effect.read (queues_query s resources) (with_capacity p resources k))
  unfolding queues_query set_include set_keys set_session set_exclusive_filter
  with_queues-ClosesOnce resources s k h later =
      read-ClosesOnce _ _
        λ m q (r, _, _). with_capacity-ClosesOnce p resources k m q s r.same_session h r.fit later

  subscription_update-ClosesOnce :
      (s : Session) (change : Resource) (q : Query)
      → IsPrepared s
      → q.session ≡ some s
      → In ("type", subscription_type) q.exclusive_filters
      → ClosesOnce (Effect.update change q (update_resource_callback p))
  subscription_update-ClosesOnce s change q h same typed =
      update-ClosesOnce _ _ _ λ m q' (r, dated).
        update_resource_callback-ClosesOnce p m q' s (r.same_session ∙ same) h
          (dated subscription_type typed subscription-ne-message)

  update_one-ClosesOnce :
      (m : Moment) (type : String) (s : Session) (change : Resource)
      → IsRouted s
      → type ≢ message_type
      → ClosesOnce (update_one p m type s change)
  unfolding update_one
  update_one-ClosesOnce m type s change h n =
      elim (Bool-cases (has_reserved_update_fields change)) [
        | inl b ↦ rw b (ClosesOnce-of_Answers 400 _ (bad_request-Answers p m _ s h.0.0))
        | inr b ↦ elim (Bool-cases (has_invalid_update_fields p change type)) [
          | inl c ↦ rw (b, c) (ClosesOnce-of_Answers 400 _ (bad_request-Answers p m _ s h.0.0))
          | inr c ↦ elim (Bool-cases (type == subscription_type)) [
            | inl t ↦
                rw (b, c, t)
                  (with_queues-ClosesOnce _ s _ h
                    λ q same typed. subscription_update-ClosesOnce s _ q h.0.0 same typed)
            | inr t ↦ rw (b, c, t) (plain_update-ClosesOnce type s _ h.0.0 n)
          ]
        ]
      ]

  parsed_update-ClosesOnce :
      (m : Moment) (type : String) (s : Session) (parsed : Option Resources)
      → IsRouted s
      → type ≢ message_type
      → parsed ≢ some []
      → ClosesOnce (elim parsed [
        | none ↦ bad_request p m malformed_message s
        | some changeset ↦
            if ltb 1 (length changeset)
            then bad_request p m
                "The exchange is refusing to process the request because multiple resources in an update are not supported."
                s
            else (at (get_last? changeset) λ change. update_one p m type s change)
      ])
  parsed_update-ClosesOnce m type s none h n e =
      ClosesOnce-of_Answers 400 _ (bad_request-Answers p m _ s h.0.0)
  parsed_update-ClosesOnce m type s (some []) h n e = absurd (e refl)
  parsed_update-ClosesOnce m type s (some (change ∷ [])) h n e =
      update_one-ClosesOnce m type s change h n
  parsed_update-ClosesOnce m type s (some (change ∷ next ∷ changes)) h n e =
      subst ClosesOnce (sym (if_so (ltb 1 (length (change ∷ next ∷ changes))) _ _ (ground arith)))
        (ClosesOnce-of_Answers 400 _ (bad_request-Answers p m _ s h.0.0))

  -- An update with a body that is parsed to at least one resource, or not at all, answers a routed
  -- session once.
  pub update_resource_handler-ClosesOnce :
      (m : Moment) (type : String) (s : Session) (f : Formatter)
      → IsRouted s
      → type ≢ message_type
      → s.content_format ≡ some f
      → f.try_parse s.request.body ≢ some []
      → ClosesOnce (update_resource_handler p m type s)
  unfolding update_resource_handler
  update_resource_handler-ClosesOnce m type s f h n e ne =
      subst
        (λ o. ClosesOnce (
          get o λ parser. elim (parser.try_parse s.request.body) [
            | none ↦ bad_request p m malformed_message s
            | some changeset ↦
                if ltb 1 (length changeset)
                then bad_request p m
                    "The exchange is refusing to process the request because multiple resources in an update are not supported."
                    s
                else (at (get_last? changeset) λ change. update_one p m type s change)
          ]))
        (sym e) (parsed_update-ClosesOnce m type s (f.try_parse s.request.body) h n ne)
