-- ===== src/Workers/Creating.antt =====
-- The handlers that take a body (exchange_impl.cpp) write lawful resources only.
use restq.Base.{
  ℕ, suc, String, not, [], ◌∷◌, Option, none, some, ◌==◌, ltb, length, get_last?, ◌≡◌, ◌≢◌, refl,
  inl, inr, All, Bool-cases, if◌then◌else◌,
}
use restq.Effects.{Effect, at, get}
use restq.ErrorHandler.{bad_request}
use restq.Exchange.{typed_query}
use restq.Exchange.Answer.{create_resource_callback}
use restq.Exchange.Handlers.{
  queues_query, with_capacity, update_one, update_resource_handler, prepare,
  create_resource_handler, malformed_message,
}
use restq.Exchange.Make.{initialise_default_resource}
use restq.Multimap.{has}
use restq.Multimap.Laws.{IsSorted}
use restq.Platform.{Platform, Moment}
use restq.Query.{set_include, set_exclusive_filter, set_keys, set_session}
use restq.Resource.{Resources, state_type, subscription_type}
use restq.Session.{Session}
use restq.Settings.{Properties}
use restq.Validator.{has_reserved_create_fields, has_invalid_create_fields, has_invalid_key}
use restq.Workers.Closing.{
  WritesLawful-if, WritesLawful-at, WritesLawful-get, WritesLawful-bad_request,
}
use restq.Workers.Lawful.{IsLawful}
use restq.Workers.Making.{initialise_default_resource-IsLawful}
use restq.Workers.Requests.{IsClean, with_capacity-WritesLawful, update_one-WritesLawful}
use restq.Workers.Replying.{create_resource_callback-WritesLawful}
use restq.Workers.Writing.{WritesLawful}

WritesLawful-get_eq {ℓ} :
    {A : Type ℓ} (o : Option A) (k : A → Effect)
    → ((a : A) → o ≡ some a → WritesLawful (k a))
    → WritesLawful (get o k)
WritesLawful-get_eq none k h = tt
WritesLawful-get_eq (some a) k h = h a refl

module _ (p : Platform) where
  pub update_resource_handler-WritesLawful :
      (m : Moment) (type : String) (s : Session)
      → s.related ≡ none
      → type ≢ state_type
      → WritesLawful (update_resource_handler p m type s)
  unfolding update_resource_handler
  update_resource_handler-WritesLawful m type s e n =
      WritesLawful-get s.content_format _ λ parser. parsed (parser.try_parse s.request.body)
    where
      parsed :
          (o : Option Resources)
          → WritesLawful (elim o as (λ x. Effect) [
            | none ↦ bad_request p m malformed_message s
            | some changeset ↦
                if ltb 1 (length changeset)
                then bad_request p m
                    "The exchange is refusing to process the request because multiple resources in an update are not supported."
                    s
                else (at (get_last? changeset) λ change. update_one p m type s change)
          ])
      parsed none = WritesLawful-bad_request p m _ s
      parsed (some changeset) =
          WritesLawful-if (ltb 1 (length changeset)) _ _ (WritesLawful-bad_request p m _ s) (
            WritesLawful-at (get_last? changeset) _
              λ change. update_one-WritesLawful p m type s change e n)

  module _ (ps : Properties) (settings : ps.Store) where
    prepare-WritesLawful :
        (m : Moment) (i : ℕ) (type : String) (s : Session) (rs : Resources) (k : Resources → Effect)
        → type ≢ state_type
        → All IsSorted rs
        → ((made : Resources) → All IsLawful made → WritesLawful (k made))
        → WritesLawful (prepare p ps settings m i type s rs k)
    unfolding prepare
    prepare-WritesLawful m i type s [] k n sorted h = h [] tt
    prepare-WritesLawful m i type s (r ∷ rs) k n (sorted, others) h =
        elim (Bool-cases (has_reserved_create_fields r)) [
          | inl b ↦ rw b (WritesLawful-bad_request p m _ s)
          | inr b ↦ rw b (
              WritesLawful-if (has_invalid_create_fields p r type) _ _
                (WritesLawful-bad_request p m _ s)
                (WritesLawful-if (has_invalid_key r) _ _ (WritesLawful-bad_request p m _ s) (
                  WritesLawful-get_eq (initialise_default_resource p ps settings m i type s r) _
                    λ r' e.
                      prepare-WritesLawful m (if has "key" r then i else suc i) type s rs
                        (λ made. k (r' ∷ made)) n others
                        λ made a. h (r' ∷ made) (
                          initialise_default_resource-IsLawful p ps settings m i type s r r' sorted
                              b n e,
                          a,
                        ))))
        ]

    pub create_resource_handler-WritesLawful :
        (m : Moment) (type : String) (s : Session)
        → IsClean s
        → type ≢ state_type
        → WritesLawful (create_resource_handler p ps settings m type s)
    unfolding create_resource_handler queues_query set_include set_exclusive_filter set_keys
        set_session
    create_resource_handler-WritesLawful m type s (e, sorted) n =
        WritesLawful-get_eq s.content_format _ λ parser f.
          parsed (parser.try_parse s.request.body) λ rs q. sorted parser s.request.body rs f q
      where
        parsed :
            (o : Option Resources)
            → ((rs : Resources) → o ≡ some rs → All IsSorted rs)
            → WritesLawful (elim o as (λ x. Effect) [
              | none ↦ bad_request p m malformed_message s
              | some rs ↦ prepare p ps settings m 0 type s rs λ resources.
                  if not (type == subscription_type)
                  then Effect.create resources (typed_query type s) (create_resource_callback p)
                  else Effect.read (queues_query s resources) (
                      with_capacity p resources
                        (λ s' q. Effect.create resources q (create_resource_callback p)))
            ])
        parsed none a = WritesLawful-bad_request p m _ s
        parsed (some rs) a = prepare-WritesLawful m 0 type s rs _ n (a rs refl) λ resources lawful.
            WritesLawful-if (not (type == subscription_type)) _ _
              (lawful, λ m' q same. create_resource_callback-WritesLawful p m' q)
              (λ m' q same. with_capacity-WritesLawful p resources _ m' q same.1 λ s' q' restored.
                (lawful, λ m'' q'' same'. create_resource_callback-WritesLawful p m'' q''))
