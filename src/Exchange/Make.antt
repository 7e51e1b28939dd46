-- ===== src/Exchange/Make.antt =====
-- The resources that the exchange makes (exchange_impl.cpp): the properties that it gives to what
-- a client creates, a message, and the state of a message for a subscription. A key is the moment's
-- identifier at the position given.
use Prim.Native.String.{◌++◌ as join}
use restq.Base.{ℕ, ◌/◌, ◌%◌, String, [], ◌∷◌, Option, some, ◌==◌, if◌then◌else◌, ◌>>=◌}
use restq.Dispatch.{pending}
use restq.Effects.{Effect, get}
use restq.Multimap.{Multimap, insert, has}
use restq.Number.{to_string}
use restq.Platform.{Platform, Moment}
use restq.Resource.{Resource, queue_type, state_type, message_type, subscription_type}
use restq.Rule.{make_date, make_content_length, make_checksum, make_revision}
use restq.Session.{Session}
use restq.Settings.{
  Properties, get_default_queue_message_limit, get_default_queue_message_size_limit,
  get_default_queue_subscription_limit, get_default_queue_max_delivery_attempts,
  get_default_queue_redelivery_interval,
}
use restq.Text.{trim_lagging}
use restq.Validator.{is_valid_forwarding_header}

abbrev pub or_insert : String → String → Resource → Resource
or_insert name value r = if has name r then r else insert name value r

-- With a default that is read only where it is needed.
abbrev pub or_insert_of : String → Option String → Resource → Option Resource
or_insert_of name value r = if has name r then some r else (do v ← value; some (insert name v r))

-- The decimal text of a setting.
abbrev pub text_of : Option ℕ → Option String
text_of n = do v ← n; some (to_string v)

module _ (p : Platform) (ps : Properties) (settings : ps.Store) (m : Moment) where
  -- What every resource is given.
  abbrev pub stamped : ℕ → String → Session → Resource → Resource
  stamped i type s r = insert "origin" s.origin (
      insert "revision" (make_revision p m) (
        insert "modified" (to_string m.time) (
          insert "created" (to_string m.time) (insert "type" type (or_insert "key" (m.uuid i) r)))))

  abbrev pub queue_defaults : Resource → Option Resource
  queue_defaults r = do
    messages ← text_of (get_default_queue_message_limit ps settings)
    size ← text_of (get_default_queue_message_size_limit ps settings)
    subscriptions ← text_of (get_default_queue_subscription_limit ps settings)
    r' ←
        or_insert_of "max-delivery-attempts"
          (text_of (get_default_queue_max_delivery_attempts ps settings))
          (or_insert "subscription-limit" subscriptions (
            or_insert "message-size-limit" size
              (or_insert "message-limit" messages (insert "pattern" "pub-sub" r))))
    or_insert_of "redelivery-interval" (get_default_queue_redelivery_interval ps settings) r'

  -- `none` is the exception of a setting that is no number.
  unfoldable pub initialise_default_resource : ℕ → String → Session → Resource → Option Resource
  initialise_default_resource i type s r =
      if type == queue_type
      then queue_defaults (stamped i type s r)
      else if type == subscription_type
      then some (or_insert "state" "reachable" (stamped i type s r))
      else some (stamped i type s r)

-- The request headers that are forwarded, each under the name that the client gave it.
unfoldable pub forwarded : Platform → Multimap → Resource → Resource
forwarded p [] message = message
forwarded p ((name, value) ∷ headers) message =
    forwarded p headers
      (if is_valid_forwarding_header p name then insert name value message else message)

unfoldable pub query_text : Multimap → String
query_text [] = ""
query_text ((name, value) ∷ parameters) =
    join name (join "=" (join value (join "&" (query_text parameters))))

-- `format( "%.1f", version )`
abbrev version_text : ℕ → String
version_text v = join (to_string (v / 10)) (join "." (to_string (v % 10)))

module _ (p : Platform) (m : Moment) where
  -- With the parameters of the request.
  abbrev pub message_of : ℕ → Session → Multimap → Resource
  message_of i s parameters =
      let request = s.request in
      let body = request.body in
      insert "query" (trim_lagging "&" (query_text parameters)) (
        forwarded p request.headers (
          insert "protocol-version" (version_text request.version) (
            insert "protocol" request.protocol (
              insert "destination" (p.get_header request "Host") (
                insert "checksum" (make_checksum p body) (
                  insert "size" (make_content_length body) (
                    insert "origin" s.origin (
                      insert "author" "not implemented" (
                        insert "modified" (make_date p m) (
                          insert "created" (make_date p m) (
                            insert "type" message_type
                              (insert "data" body (insert "key" (m.uuid i) [])))))))))))))

  unfoldable pub make_message : ℕ → Session → (Resource → Effect) → Effect
  make_message i s k = get s.filters λ parameters. k (message_of i s parameters)

-- The state of a message for one subscription to one queue.
unfoldable pub make_state :
    (key queue_key interval attempts message_key subscription_key endpoint : String) → Resource
make_state key queue_key interval attempts message_key subscription_key endpoint =
    insert "subscription-endpoint" endpoint (
      insert "subscription-key" subscription_key (
        insert "message-key" message_key (
          insert "max-delivery-attempts" attempts (
            insert "redelivery-interval" interval (
              insert "queue-key" queue_key
                (insert "status" pending (insert "key" key (insert "type" state_type []))))))))
