-- ===== src/Exchange/Answering/Creation.antt =====
-- A creation (exchange_impl.cpp, create_resource_handler) answers its request once.
use restq.Base.{
  ℕ, suc, String, Bool, true, false, not, [], ◌∷◌, some, ◌==◌, ◌≡◌, refl, ◌∙◌, Bool-cases,
  Option-cases, inl, inr, if◌then◌else◌,
}
use restq.Effects.{Effect}
use restq.ErrorHandler.Laws.{IsPrepared, bad_request-Answers}
use restq.Exchange.{typed_query}
use restq.Exchange.Answer.{create_resource_callback}
use restq.Exchange.Contract.{ClosesOnce, ClosesOnce-of_Answers, create-ClosesOnce}
use restq.Exchange.Handlers.{queues_query, with_capacity, prepare, create_resource_handler}
use restq.Exchange.Make.{initialise_default_resource}
use restq.Exchange.Replying.{create_resource_callback-ClosesOnce}
use restq.Multimap.{has}
use restq.Platform.{Platform, Moment}
use restq.Query.{Query, of_session, set_exclusive_filter}
use restq.Resource.{Resource, Resources, queue_type, subscription_type}
use restq.Ruleset.Preparing.{IsReady}
use restq.Session.{Session, Formatter}
use restq.Validator.{has_reserved_create_fields, has_invalid_create_fields, has_invalid_key}
use restq.Settings.{
  Properties, get_default_queue_message_limit, get_default_queue_message_size_limit,
  get_default_queue_subscription_limit, get_default_queue_max_delivery_attempts,
  get_default_queue_redelivery_interval,
}
use restq.Exchange.Answering.{IsRouted}
use restq.Exchange.Answering.Updates.{with_queues-ClosesOnce}

if_some : (b : Bool) (x y : Resource) → (if b then some x else some y) ≡ some (if b then x else y)
if_some true x y = refl
if_some false x y = refl

module _ (p : Platform) (ps : Properties) (settings : ps.Store) where
  -- Each default of a queue can be read.
  pub record HasDefaults : Type 0 where
    pub messages : (n : ℕ) × (get_default_queue_message_limit ps settings ≡ some n)
    pub size : (n : ℕ) × (get_default_queue_message_size_limit ps settings ≡ some n)
    pub subscriptions : (n : ℕ) × (get_default_queue_subscription_limit ps settings ≡ some n)
    pub attempts : (n : ℕ) × (get_default_queue_max_delivery_attempts ps settings ≡ some n)
    pub interval : (t : String) × (get_default_queue_redelivery_interval ps settings ≡ some t)

  initialised :
      (m : Moment) (i : ℕ) (type : String) (s : Session) (r : Resource)
      → HasDefaults
      → (r' : Resource) × (initialise_default_resource p ps settings m i type s r ≡ some r')
  unfolding initialise_default_resource
  initialised m i type s r d = elim (Bool-cases (type == queue_type)) [
    | inl b ↦
        simp (b, d.messages.1, d.size.1, d.subscriptions.1, d.attempts.1, d.interval.1, if_some)
          (_, refl)
    | inr b ↦ elim (Bool-cases (type == subscription_type)) [
      | inl c ↦ rw (b, c) (_, refl)
      | inr c ↦ rw (b, c) (_, refl)
    ]
  ]

  prepare-ClosesOnce :
      (m : Moment) (type : String) (s : Session)
      → IsPrepared s
      → HasDefaults
      → (rs : Resources) (i : ℕ) (k : Resources → Effect) → ((rs' : Resources) → ClosesOnce (k rs'))
      → ClosesOnce (prepare p ps settings m i type s rs k)
  unfolding prepare
  prepare-ClosesOnce m type s h d [] i k f = f []
  prepare-ClosesOnce m type s h d (r ∷ rs) i k f =
      let (r', e) = initialised m i type s r d in
      let later =
        prepare-ClosesOnce m type s h d rs (if has "key" r then i else suc i) (λ rs'. k (r' ∷ rs'))
          (λ rs'. f (r' ∷ rs')) in
      elim (Bool-cases (has_reserved_create_fields r)) [
        | inl b ↦ rw b (ClosesOnce-of_Answers 400 _ (bad_request-Answers p m _ s h))
        | inr b ↦ elim (Bool-cases (has_invalid_create_fields p r type)) [
          | inl c ↦ rw (b, c) (ClosesOnce-of_Answers 400 _ (bad_request-Answers p m _ s h))
          | inr c ↦ elim (Bool-cases (has_invalid_key r)) [
            | inl t ↦ rw (b, c, t) (ClosesOnce-of_Answers 400 _ (bad_request-Answers p m _ s h))
            | inr t ↦ rw (b, c, t, e) later
          ]
        ]
      ]

  plain_create-ClosesOnce :
      (type : String) (s : Session) (resources : Resources)
      → IsReady s
      → ClosesOnce (Effect.create resources (typed_query type s) (create_resource_callback p))
  unfolding typed_query of_session set_exclusive_filter
  plain_create-ClosesOnce type s resources h =
      create-ClosesOnce _ _ _
        λ m q (r, _). create_resource_callback-ClosesOnce p m q s r.same_session h.0 h.1 r.fit

  subscription_create-ClosesOnce :
      (s : Session) (resources : Resources) (q : Query)
      → IsReady s
      → q.session ≡ some s
      → ClosesOnce (Effect.create resources q (create_resource_callback p))
  subscription_create-ClosesOnce s resources q h same = create-ClosesOnce _ _ _ λ m q' (r, _).
      create_resource_callback-ClosesOnce p m q' s (r.same_session ∙ same) h.0 h.1 r.fit

  prepared-ClosesOnce :
      (type : String) (s : Session) (resources : Resources)
      → IsRouted s
      → ClosesOnce (
          if not (type == subscription_type)
          then Effect.create resources (typed_query type s) (create_resource_callback p)
          else Effect.read (queues_query s resources) (
              with_capacity p resources
                (λ s' q. Effect.create resources q (create_resource_callback p))))
  prepared-ClosesOnce type s resources h = elim (Bool-cases (type == subscription_type)) [
    | inl t ↦ rw t (
        with_queues-ClosesOnce p resources s _ h
          λ q same typed. subscription_create-ClosesOnce s resources q h.0 same)
    | inr t ↦ rw t (plain_create-ClosesOnce type s resources h.0)
  ]

  -- A creation answers a routed session once, where the defaults of a queue can be read.
  pub create_resource_handler-ClosesOnce :
      (m : Moment) (type : String) (s : Session) (f : Formatter)
      → IsRouted s
      → s.content_format ≡ some f
      → HasDefaults
      → ClosesOnce (create_resource_handler p ps settings m type s)
  unfolding create_resource_handler
  create_resource_handler-ClosesOnce m type s f h e d =
      rw e (elim (Option-cases (f.try_parse s.request.body)) [
        | inl n ↦ rw n (ClosesOnce-of_Answers 400 _ (bad_request-Answers p m _ s h.0.0))
        | inr (rs, n) ↦ rw n (
            prepare-ClosesOnce m type s h.0.0 d rs 0 _
              λ resources. prepared-ClosesOnce type s resources h)
      ])
