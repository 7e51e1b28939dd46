-- ===== src/Settings.antt =====
-- source/corvusoft/restq/settings.cpp over the properties of restbed::Settings, of which the
-- program uses `get_property`, empty for a name not set, and `set_property`.
pub mod Laws
use restq.Base.{
  ℕ, zero, suc, ◌-◌, ◌≤◌, String, Bool, Option, none, some, ◌≡◌, ◌≢◌, ◌==◌, leb, if◌then◌else◌,
  ◌>>=◌,
}
use restq.Number.{ℤ, to_string, integer_text, stoul, stol_text}

pub record Properties : Type 1 where
  pub Store : Type 0
  pub get_property : Store → String → String
  pub set_property : Store → String → String → Store

-- What restbed documents: a property reads as it was last set.
pub record IsMap (ps : Properties) : Type 0 where
  pub get-set_self :
      (s : ps.Store) (name value : String)
      → ps.get_property (ps.set_property s name value) name ≡ value
  pub get-set_ne :
      (s : ps.Store) (name other value : String)
      → name ≢ other
      → ps.get_property (ps.set_property s name value) other ≡ ps.get_property s other

-- `( value.empty( ) ) ? fallback : stoul( value )`; `none` is the exception of `stoul`.
abbrev pub or_default : String → ℕ → Option ℕ
or_default value fallback = if value == "" then some fallback else stoul value

module _ (ps : Properties) where
  open ps use {Store, get_property, set_property}

  unfoldable pub get_default_queue_message_limit : Store → Option ℕ
  get_default_queue_message_limit s = or_default (get_property s "queue-message-limit") 100

  unfoldable pub get_default_queue_message_size_limit : Store → Option ℕ
  get_default_queue_message_size_limit s =
      or_default (get_property s "queue-message-size-limit") 1024

  unfoldable pub get_default_queue_subscription_limit : Store → Option ℕ
  get_default_queue_subscription_limit s = or_default (get_property s "queue-subscription-limit") 25

  unfoldable pub get_default_queue_max_delivery_attempts : Store → Option ℕ
  get_default_queue_max_delivery_attempts s = or_default (get_property s "max-delivery-attempts") 3

  -- The seconds as the exchange writes them.
  unfoldable pub get_default_queue_redelivery_interval : Store → Option String
  get_default_queue_redelivery_interval s =
      let value = get_property s "redelivery-interval" in
      if value == "" then some "30" else stol_text value

  unfoldable pub set_default_queue_message_limit : ℕ → Store → Store
  set_default_queue_message_limit value s = set_property s "queue-message-limit" (to_string value)

  unfoldable pub set_default_queue_message_size_limit : ℕ → Store → Store
  set_default_queue_message_size_limit value s =
      set_property s "queue-message-size-limit" (to_string value)

  unfoldable pub set_default_queue_subscription_limit : ℕ → Store → Store
  set_default_queue_subscription_limit value s =
      set_property s "queue-subscription-limit" (to_string value)

  unfoldable pub set_default_queue_max_delivery_attempts : ℕ → Store → Store
  set_default_queue_max_delivery_attempts value s =
      set_property s "max-delivery-attempts" (to_string value)

  -- The count of the seconds, which may be negative.
  unfoldable pub set_default_queue_redelivery_interval : ℤ → Store → Store
  set_default_queue_redelivery_interval value s =
      set_property s "redelivery-interval" (integer_text value)
