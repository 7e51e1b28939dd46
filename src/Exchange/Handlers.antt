-- ===== src/Exchange/Handlers.antt =====
-- The handlers of queues and subscriptions (exchange_impl.cpp), and those of OPTIONS.
use restq.Base.{
  ℕ, suc, String, not, [], ◌∷◌, none, some, ◌==◌, ltb, length, get_last?, if◌then◌else◌,
}
use restq.Effects.{Effect, get, at}
use restq.ErrorHandler.{bad_request, find_and_invoke_for}
use restq.Exchange.{typed_query, restored, with_ranges, queue_keys}
use restq.Exchange.Answer.{
  close_bare, create_resource_callback, read_resource_callback, update_resource_callback, deleted,
  described,
}
use restq.Exchange.Capacity.{sort_results, capacity}
use restq.Exchange.Make.{initialise_default_resource}
use restq.Multimap.{insert, has, of_list}
use restq.Number.{to_string}
use restq.Platform.{Platform, Moment}
use restq.Query.{Query, empty, has_failed, set_session, set_keys, set_include, set_exclusive_filter}
use restq.Resource.{Resource, Resources, queue_type, subscription_type}
use restq.Rule.{make_date, make_revision}
use restq.Session.{Session}
use restq.Settings.{Properties}
use restq.Validator.{
  has_reserved_create_fields, has_reserved_update_fields, has_invalid_create_fields,
  has_invalid_update_fields, has_invalid_key,
}

abbrev pub reserved_message : String
reserved_message =
    "The exchange is refusing to process the request because the body contains reserved properties."

abbrev pub invalid_message : String
invalid_message =
    "The exchange is refusing to process the request because the body contains invalid property values."

abbrev pub malformed_message : String
malformed_message = "The exchange is refusing to process the request because it was malformed."

-- The read of the queues that a request's subscriptions name.
unfoldable pub queues_query : Session → Resources → Query
queues_query s resources = set_exclusive_filter "type" queue_type (
    set_include subscription_type (set_keys (queue_keys resources []) (set_session (some s) empty)))

module _ (p : Platform) where
  -- The lambda that both handlers of subscriptions pass to the read; `k` is its last call.
  unfoldable pub with_capacity : Resources → (Session → Query → Effect) → Moment → Query → Effect
  with_capacity resources k m q = at q.session λ s.
      if has_failed q
      then find_and_invoke_for p m q.error_code
          "The exchange is refusing to process the request because one or more subscription queues property values could not be found."
          s
      else sort_results q.resultset [] [] λ queues subscriptions.
        capacity p m s resources subscriptions queues (restored subscription_type s q (k s))

  unfoldable pub read_resource_handler : String → Session → Effect
  read_resource_handler type s = Effect.read (typed_query type s) (read_resource_callback p)

  unfoldable pub delete_resource_handler : String → Session → Effect
  delete_resource_handler type s = Effect.destroy (typed_query type s) (deleted p)

  unfoldable pub options_resource_handler : String → String → Session → Effect
  options_resource_handler type options s = Effect.read (typed_query type s) (described p options)

  -- Given what the system says of uptime, workers, processor and memory.
  unfoldable pub asterisk_resource_handler :
      (uptime workers cpu memory : String) → Moment → Session → Effect
  asterisk_resource_handler uptime workers cpu memory m s = close_bare 204 (
      with_ranges s (
        of_list (
          ("Allow", "OPTIONS")
          ∷ ("Date", make_date p m)
          ∷ ("Uptime", uptime)
          ∷ ("Workers", workers)
          ∷ ("CPU", cpu)
          ∷ ("Memory", memory)
          ∷ [])))

  -- The changes that an update adds to the client's.
  unfoldable pub stamp_change : Moment → String → Resource → Resource
  stamp_change m type change =
      insert "modified" (to_string m.time)
        (insert "revision" (make_revision p m) (insert "type" type change))

  unfoldable pub update_one : Moment → String → Session → Resource → Effect
  update_one m type s change =
      if has_reserved_update_fields change
      then bad_request p m reserved_message s
      else if has_invalid_update_fields p change type
      then bad_request p m invalid_message s
      else (let change' = stamp_change m type change in
          if not (type == subscription_type)
          then Effect.update change' (typed_query type s) (update_resource_callback p)
          else Effect.read (queues_query s (change' ∷ [])) (
              with_capacity (change' ∷ [])
                (λ s' q. Effect.update change' q (update_resource_callback p))))

  -- `back( )` of an empty list is undefined.
  unfoldable pub update_resource_handler : Moment → String → Session → Effect
  update_resource_handler m type s = get s.content_format λ parser.
      elim (parser.try_parse s.request.body) [
        | none ↦ bad_request p m malformed_message s
        | some changeset ↦
            if ltb 1 (length changeset)
            then bad_request p m
                "The exchange is refusing to process the request because multiple resources in an update are not supported."
                s
            else (at (get_last? changeset) λ change. update_one m type s change)
      ]

  module _ (ps : Properties) (settings : ps.Store) where
    -- The loop over the resources of the request; `k` is what follows it.
    unfoldable pub prepare :
        Moment → ℕ → String → Session → Resources → (Resources → Effect) → Effect
    prepare m i type s [] k = k []
    prepare m i type s (r ∷ rs) k =
        if has_reserved_create_fields r
        then bad_request p m reserved_message s
        else if has_invalid_create_fields p r type
        then bad_request p m invalid_message s
        else if has_invalid_key r
        then bad_request p m
            "The exchange is refusing to process the request because of a malformed identifier." s
        else (get (initialise_default_resource p ps settings m i type s r)
            λ r'. prepare m (if has "key" r then i else suc i) type s rs λ rs'. k (r' ∷ rs'))

    unfoldable pub create_resource_handler : Moment → String → Session → Effect
    unfolding prepare
    create_resource_handler m type s = get s.content_format λ parser.
        elim (parser.try_parse s.request.body) [
          | none ↦ bad_request p m malformed_message s
          | some parsed ↦ prepare m 0 type s parsed λ resources.
              if not (type == subscription_type)
              then Effect.create resources (typed_query type s) (create_resource_callback p)
              else Effect.read (queues_query s resources) (
                  with_capacity resources
                    (λ s' q. Effect.create resources q (create_resource_callback p)))
        ]
