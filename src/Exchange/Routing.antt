-- ===== src/Exchange/Routing.antt =====
-- The resources that exchange_impl.cpp publishes at its service, each with its paths, the rules that
-- restbed runs behind those of the service, and a handler for each of its methods.
pub mod Ruled
pub mod Serving
use Prim.Native.String.{◌++◌ as join}
use restq.Base.{String, List, [], ◌∷◌}
use restq.Effects.{Effect}
use restq.Exchange.Handlers.{
  read_resource_handler, delete_resource_handler, options_resource_handler,
  asterisk_resource_handler, update_resource_handler, create_resource_handler,
}
use restq.Exchange.Messages.{create_message_handler}
use restq.Platform.{Platform, Moment}
use restq.Resource.{queue_type, message_type, subscription_type}
use restq.Ruleset.Headers.{content_type, content_encoding}
use restq.Ruleset.Parameters.{key, keys}
use restq.Session.{Session, Formatter}
use restq.Settings.{Properties}

-- ValidatorImpl::key_pattern
abbrev key_pattern : String
key_pattern =
    "^[0-9a-fA-F]{8}\\-[0-9a-fA-F]{4}\\-[0-9a-fA-F]{4}\\-[0-9a-fA-F]{4}\\-[0-9a-fA-F]{12}$"

-- The rules that the constructor of ExchangeImpl makes.
pub data Rule : Type 0 where
  key_rule keys_rule content_type_rule content_encoding_rule : Rule

-- The member functions that are bound as handlers, with the arguments that are bound.
pub data Handler : Type 0 where
  reading : String → Handler
  updating : String → Handler
  deleting : String → Handler
  creating : String → Handler
  describing : String → String → Handler
  sending : Handler
  surveying : Handler

pub record Published : Type 0 where
  pub paths : List String
  pub rules : List Rule
  pub handlers : List (String × Handler)

-- `"{key: " + ValidatorImpl::key_pattern + "}"` behind a path.
abbrev keyed : String → String
keyed path = join path (join "{key: " (join key_pattern "}"))

-- The handlers of one resource of a type, and of many.
unfoldable pub setup_queue_resource : Published
setup_queue_resource = record {
  paths = keyed "/queues/" ∷ [];
  rules = Rule.key_rule ∷ Rule.content_type_rule ∷ Rule.content_encoding_rule ∷ [];
  handlers =
      ("GET", Handler.reading queue_type)
      ∷ ("HEAD", Handler.reading queue_type)
      ∷ ("PUT", Handler.updating queue_type)
      ∷ ("DELETE", Handler.deleting queue_type)
      ∷ ("OPTIONS", Handler.describing queue_type "GET,PUT,HEAD,DELETE,OPTIONS")
      ∷ [];
}

unfoldable pub setup_queues_resource : Published
setup_queues_resource = record {
  paths = "/queues" ∷ [];
  rules = Rule.keys_rule ∷ Rule.content_type_rule ∷ Rule.content_encoding_rule ∷ [];
  handlers =
      ("GET", Handler.reading queue_type)
      ∷ ("HEAD", Handler.reading queue_type)
      ∷ ("POST", Handler.creating queue_type)
      ∷ ("DELETE", Handler.deleting queue_type)
      ∷ ("OPTIONS", Handler.describing queue_type "GET,POST,HEAD,DELETE,OPTIONS")
      ∷ [];
}

unfoldable pub setup_message_resource : Published
setup_message_resource = record {
  paths = keyed "/messages/" ∷ [];
  rules = Rule.key_rule ∷ [];
  handlers = ("OPTIONS", Handler.describing message_type "OPTIONS") ∷ [];
}

unfoldable pub setup_messages_resource : Published
setup_messages_resource = record {
  paths = "/messages" ∷ join (keyed "/queues/") "/messages" ∷ [];
  rules = Rule.key_rule ∷ Rule.keys_rule ∷ [];
  handlers =
      ("POST", Handler.sending) ∷ ("OPTIONS", Handler.describing message_type "POST,OPTIONS") ∷ [];
}

unfoldable pub setup_asterisk_resource : Published
setup_asterisk_resource = record {
  paths = "\\*" ∷ [];
  rules = [];
  handlers = ("OPTIONS", Handler.surveying) ∷ [];
}

unfoldable pub setup_subscription_resource : Published
setup_subscription_resource = record {
  paths = keyed "/subscriptions/" ∷ [];
  rules = Rule.key_rule ∷ Rule.content_type_rule ∷ Rule.content_encoding_rule ∷ [];
  handlers =
      ("GET", Handler.reading subscription_type)
      ∷ ("HEAD", Handler.reading subscription_type)
      ∷ ("PUT", Handler.updating subscription_type)
      ∷ ("DELETE", Handler.deleting subscription_type)
      ∷ ("OPTIONS", Handler.describing subscription_type "GET,PUT,HEAD,DELETE,OPTIONS")
      ∷ [];
}

unfoldable pub setup_subscriptions_resource : Published
setup_subscriptions_resource = record {
  paths = "/subscriptions" ∷ [];
  rules = Rule.keys_rule ∷ Rule.content_type_rule ∷ Rule.content_encoding_rule ∷ [];
  handlers =
      ("GET", Handler.reading subscription_type)
      ∷ ("HEAD", Handler.reading subscription_type)
      ∷ ("POST", Handler.creating subscription_type)
      ∷ ("DELETE", Handler.deleting subscription_type)
      ∷ ("OPTIONS", Handler.describing subscription_type "GET,POST,HEAD,DELETE,OPTIONS")
      ∷ [];
}

-- In the order in which ExchangeImpl::start publishes them.
unfoldable pub published : List Published
unfolding setup_queue_resource setup_queues_resource setup_message_resource setup_messages_resource
    setup_asterisk_resource setup_subscription_resource setup_subscriptions_resource
published =
    setup_queue_resource ∷ setup_queues_resource ∷ setup_message_resource ∷ setup_messages_resource
    ∷ setup_asterisk_resource ∷ setup_subscription_resource ∷ setup_subscriptions_resource ∷ []

-- What the system says for a request for `*`.
pub record System : Type 0 where
  pub uptime : String
  pub workers : String
  pub cpu : String
  pub memory : String

module _ (p : Platform) (m : Moment) (formats : List (String × Formatter)) where
  -- One rule, and the rules of a resource in order.
  unfoldable pub apply_rule : Rule → Session → (Session → Effect) → Effect
  apply_rule Rule.key_rule s k = key p s k
  apply_rule Rule.keys_rule s k = keys p s k
  apply_rule Rule.content_type_rule s k = content_type p m formats s k
  apply_rule Rule.content_encoding_rule s k = content_encoding p m s k

  unfoldable pub apply_rules : List Rule → Session → (Session → Effect) → Effect
  unfolding apply_rule
  apply_rules [] s k = k s
  apply_rules (r ∷ rs) s k = apply_rule r s λ s'. apply_rules rs s' k

-- The member function that is bound.
unfoldable pub invoke :
    (p : Platform) (m : Moment) (ps : Properties) (settings : ps.Store) (system : System)
    → Handler
    → Session
    → Effect
invoke p m ps settings system (Handler.reading type) s = read_resource_handler p type s
invoke p m ps settings system (Handler.updating type) s = update_resource_handler p m type s
invoke p m ps settings system (Handler.deleting type) s = delete_resource_handler p type s
invoke p m ps settings system (Handler.creating type) s =
    create_resource_handler p ps settings m type s
invoke p m ps settings system (Handler.describing type options) s =
    options_resource_handler p type options s
invoke p m ps settings system Handler.sending s = create_message_handler p m s
invoke p m ps settings system Handler.surveying s =
    asterisk_resource_handler p system.uptime system.workers system.cpu system.memory m s
