-- ===== src/Exchange/Answering.antt =====
-- The handlers of queues and subscriptions (exchange_impl.cpp): each answers its request once.
pub mod Updates
pub mod Creation
use restq.Base.{
  ℕ, suc, String, Bool, true, false, not, List, [], ◌∷◌, ◌++◌, Option, none, some, ◌==◌, ◌||◌, ltb,
  length, count_if, ◌+◌, ◌≡◌, ◌≢◌, refl, sym, subst, ap, ◌∙◌, arith, All, All-append, In,
  Bool-cases, Option-cases, inl, inr, if◌then◌else◌, if_so, get_last?, eq_iff, ◌>>=◌,
}
use restq.Dispatch.{number}
use restq.Effects.{Effect, get, at}
use restq.ErrorHandler.{bad_request, find_and_invoke_for, service_unavailable}
use restq.ErrorHandler.Laws.{IsPrepared, bad_request-Answers, explain-Answers}
use restq.Exchange.{typed_query, restored}
use restq.Exchange.Answer.{create_resource_callback, update_resource_callback}
use restq.Exchange.Capacity.{note, sort_results, capacity}
use restq.Exchange.Contract.{
  IsQueue, IsFit, IsDated, Replies, Finds, ClosesOnce, closes_now, ClosesOnce-of_Answers,
  ClosesOnce-if, read-ClosesOnce, create-ClosesOnce, update-ClosesOnce, destroy-ClosesOnce,
  In-insert,
}
use restq.Exchange.Handlers.{
  queues_query, with_capacity, read_resource_handler, delete_resource_handler,
  options_resource_handler, malformed_message, stamp_change, update_one, update_resource_handler,
  prepare, create_resource_handler,
}
use restq.Exchange.Make.{initialise_default_resource}
use restq.Exchange.Replying.{
  refused-ClosesOnce, deleted-ClosesOnce, described-ClosesOnce, create_resource_callback-ClosesOnce,
  read_resource_callback-ClosesOnce, update_resource_callback-ClosesOnce,
}
use restq.Multimap.{has, value_at, insert}
use restq.Platform.{Platform, Moment}
use restq.Query.{
  Query, of_session, has_failed, set_session, set_index, set_limit, set_include, set_keys,
  set_fields, set_inclusive_filters, set_exclusive_filters, set_exclusive_filter,
}
use restq.Resource.{Resource, Resources, queue_type, message_type, subscription_type}
use restq.Ruleset.Preparing.{IsReady}
use restq.Session.{Session, Formatter}
use restq.Validator.{
  has_reserved_create_fields, has_reserved_update_fields, has_invalid_create_fields,
  has_invalid_update_fields, has_invalid_key,
}
use restq.Settings.{
  Properties, get_default_queue_message_limit, get_default_queue_message_size_limit,
  get_default_queue_subscription_limit, get_default_queue_max_delivery_attempts,
  get_default_queue_redelivery_interval,
}

-- A session that the rules of the service and of the resource have left.
abbrev pub IsRouted : Session → Type 0
IsRouted s = IsReady s × ((ks : List String) × (s.keys ≡ some ks))

pub note-ClosesOnce : (b : Bool) (e : Effect) → ClosesOnce e → ClosesOnce (note b e)
note-ClosesOnce true e h = h
note-ClosesOnce false e h = record { closing = h.closing }

-- The query that the session's rules restore is for its session and for resources of the type.
pub restored-ClosesOnce :
    (type : String) (s : Session) (q : Query) (k : Query → Effect)
    → IsRouted s
    → ((q' : Query)
        → q'.session ≡ q.session
        → In ("type", type) q'.exclusive_filters
        → ClosesOnce (k q'))
    → ClosesOnce (restored type s q k)
unfolding restored set_exclusive_filter set_exclusive_filters set_inclusive_filters set_fields
    set_keys set_limit set_index
restored-ClosesOnce type s q k
      ((_, _, _, (inclusive, ei), (exclusive, ee), (fields, ef), (paging, ep)), (keys, ek)) h =
    simp (ep, ek, ef, ei, ee) (h _ refl (In-insert "type" type exclusive))

pub if-IsQueue :
    (t : String) (r : Resource) (queues : Resources)
    → IsFit r
    → value_at "type" r ≡ some t
    → All IsQueue queues
    → All IsQueue (if t == queue_type then queues ++ r ∷ [] else queues)
if-IsQueue t r queues h e a = elim (Bool-cases (t == queue_type)) [
  | inl b ↦ rw b (
      All-append IsQueue queues (r ∷ []) a
        (h.queue (e ∙ ap (λ x. some x) ((eq_iff t queue_type).0 b)), tt))
  | inr b ↦ rw b a
]

sort_results-ClosesOnce :
    (rs queues subscriptions : Resources) (k : Resources → Resources → Effect)
    → All IsFit rs
    → All IsQueue queues
    → ((qs ss : Resources) → All IsQueue qs → ClosesOnce (k qs ss))
    → ClosesOnce (sort_results rs queues subscriptions k)
unfolding sort_results
sort_results-ClosesOnce [] queues subscriptions k f a h = h queues subscriptions a
sort_results-ClosesOnce (r ∷ rs) queues subscriptions k (f, fs) a h =
    let (t, e) = f.typed in
    rw e (note-ClosesOnce _ _ (sort_results-ClosesOnce rs _ _ k fs (if-IsQueue t r queues f e a) h))

module _ (p : Platform) where
  capacity-ClosesOnce :
      (m : Moment) (s : Session) (resources subscriptions queues : Resources) (k : Effect)
      → IsPrepared s
      → All IsQueue queues
      → ClosesOnce k
      → ClosesOnce (capacity p m s resources subscriptions queues k)
  unfolding capacity service_unavailable
  capacity-ClosesOnce m s resources subscriptions [] k hp a h = h
  capacity-ClosesOnce m s resources subscriptions (queue ∷ queues) k hp
        ((((key, ek), _, _), _, _, (n, (t, et, en))), more) h =
      rw (ek, et, en)
        (ClosesOnce-if _ _ _ (ClosesOnce-of_Answers 503 _ (explain-Answers p m 503 s _ _ hp))
          (capacity-ClosesOnce m s resources subscriptions queues k hp more h))

  pub with_capacity-ClosesOnce :
      (resources : Resources) (k : Session → Query → Effect) (m : Moment) (q : Query) (s : Session)
      → q.session ≡ some s
      → IsRouted s
      → (has_failed q ≡ false → All IsFit q.resultset)
      → ((q' : Query)
          → q'.session ≡ some s
          → In ("type", subscription_type) q'.exclusive_filters
          → ClosesOnce (k s q'))
      → ClosesOnce (with_capacity p resources k m q)
  unfolding with_capacity
  with_capacity-ClosesOnce resources k m q s e h f later =
      simp e (elim (Bool-cases (has_failed q)) [
        | inl b ↦ rw b (refused-ClosesOnce p m q _ s h.0.0)
        | inr b ↦ rw b (
            sort_results-ClosesOnce q.resultset [] [] _ (f b) tt λ queues subscriptions a.
              capacity-ClosesOnce m s resources subscriptions queues _ h.0.0 a (
                restored-ClosesOnce subscription_type s q (k s) h
                  λ q' same typed. later q' (same ∙ e) typed))
      ])

  -- A read, a deletion and a request for the options answer a prepared session once.
  pub read_resource_handler-ClosesOnce :
      (type : String) (s : Session)
      → IsPrepared s
      → type ≢ message_type
      → ClosesOnce (read_resource_handler p type s)
  unfolding read_resource_handler typed_query of_session set_exclusive_filter
  read_resource_handler-ClosesOnce type s h n = read-ClosesOnce _ _ λ m q (r, dated, _).
      read_resource_callback-ClosesOnce p m q s r.same_session h
        (dated type (In-insert "type" type _) n)

  pub delete_resource_handler-ClosesOnce :
      (type : String) (s : Session) → IsPrepared s → ClosesOnce (delete_resource_handler p type s)
  unfolding delete_resource_handler typed_query of_session set_exclusive_filter
  delete_resource_handler-ClosesOnce type s h =
      destroy-ClosesOnce _ _ λ m q r. deleted-ClosesOnce p m q s r.same_session h

  pub options_resource_handler-ClosesOnce :
      (type options : String) (s : Session)
      → IsPrepared s
      → ClosesOnce (options_resource_handler p type options s)
  unfolding options_resource_handler typed_query of_session set_exclusive_filter
  options_resource_handler-ClosesOnce type options s h =
      read-ClosesOnce _ _ λ m q (r, _, _). described-ClosesOnce p m q options s r.same_session h
