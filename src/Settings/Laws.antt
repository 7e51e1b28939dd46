-- ===== src/Settings/Laws.antt =====
-- A default that is set is read back, and setting one leaves the others.
use restq.Base.{
  ℕ, ◌≤◌, String, false, some, ◌≡◌, refl, ◌∙◌, ap, arith, eq_iff, ◌==◌, if_not, if◌then◌else◌,
}
use restq.Number.{ℤ, size_max, to_string, integer_text, stol_text}
use restq.Number.Decimal.{
  IsLong, stoul-to_string, stol-integer_text, to_string-ne-nil, integer_text-ne-nil,
}
use restq.Settings.{
  Properties, IsMap, or_default, get_default_queue_message_limit,
  get_default_queue_subscription_limit, get_default_queue_max_delivery_attempts,
  get_default_queue_message_size_limit, set_default_queue_message_limit,
  set_default_queue_message_size_limit, set_default_queue_subscription_limit,
  set_default_queue_max_delivery_attempts, get_default_queue_redelivery_interval,
  set_default_queue_redelivery_interval,
}

or_default-to_string : (n fallback : ℕ) → n ≤ size_max → or_default (to_string n) fallback ≡ some n
or_default-to_string n fallback h =
    if_not (to_string n == "") _ _ (ground (arith, eq_iff (to_string n) "", to_string-ne-nil n))
    ∙ stoul-to_string n h

interval-integer_text :
    (i : ℤ)
    → IsLong i
    → (if integer_text i == "" then some "30" else stol_text (integer_text i))
      ≡ some (integer_text i)
unfolding stol_text
interval-integer_text i h =
    if_not (integer_text i == "") _ _
      (ground (arith, eq_iff (integer_text i) "", integer_text-ne-nil i))
    ∙ rw (stol-integer_text i h) refl

module _ (ps : Properties) (laws : IsMap ps) where
  skip :
      (s : ps.Store) (name other value : String)
      → (name == other) ≡ false
      → ps.get_property (ps.set_property s name value) other ≡ ps.get_property s other
  skip s name other value h =
      laws.get-set_ne s name other value (λ e. ground (arith, eq_iff name other))

  -- Where a property reads as it was last set, each default of a queue reads as the number it was set
  -- to after the five are set, in this order: the four limits to numbers in the range of size_t, and
  -- the redelivery interval to one of 64 bits with a sign.
  pub defaults_round_trip :
      (s : ps.Store) (messages size subscriptions attempts : ℕ) (interval : ℤ)
      → messages ≤ size_max
      → size ≤ size_max
      → subscriptions ≤ size_max
      → attempts ≤ size_max
      → IsLong interval
      → let s' = set_default_queue_redelivery_interval ps interval (
          set_default_queue_max_delivery_attempts ps attempts (
            set_default_queue_subscription_limit ps subscriptions (
              set_default_queue_message_size_limit ps size
                (set_default_queue_message_limit ps messages s)))) in
        (get_default_queue_message_limit ps s' ≡ some messages)
        × (get_default_queue_message_size_limit ps s' ≡ some size)
        × (get_default_queue_subscription_limit ps s' ≡ some subscriptions)
        × (get_default_queue_max_delivery_attempts ps s' ≡ some attempts)
        × (get_default_queue_redelivery_interval ps s' ≡ some (integer_text interval))
  unfolding get_default_queue_message_limit get_default_queue_message_size_limit
      get_default_queue_subscription_limit get_default_queue_max_delivery_attempts
      get_default_queue_redelivery_interval set_default_queue_message_limit
      set_default_queue_message_size_limit set_default_queue_subscription_limit
      set_default_queue_max_delivery_attempts set_default_queue_redelivery_interval
  defaults_round_trip s a b c d i ha hb hc hd hi = (
    ap (λ v. or_default v 100)
          (skip _ "redelivery-interval" "queue-message-limit" (integer_text i) refl
            ∙ (skip _ "max-delivery-attempts" "queue-message-limit" (to_string d) refl
                ∙ (skip _ "queue-subscription-limit" "queue-message-limit" (to_string c) refl
                    ∙ (skip _ "queue-message-size-limit" "queue-message-limit" (to_string b) refl
                        ∙ laws.get-set_self _ _ _))))
        ∙ or_default-to_string a 100 ha,
    ap (λ v. or_default v 1024)
          (skip _ "redelivery-interval" "queue-message-size-limit" (integer_text i) refl
            ∙ (skip _ "max-delivery-attempts" "queue-message-size-limit" (to_string d) refl
                ∙ (skip _ "queue-subscription-limit" "queue-message-size-limit" (to_string c) refl
                    ∙ laws.get-set_self _ _ _)))
        ∙ or_default-to_string b 1024 hb,
    ap (λ v. or_default v 25)
          (skip _ "redelivery-interval" "queue-subscription-limit" (integer_text i) refl
            ∙ (skip _ "max-delivery-attempts" "queue-subscription-limit" (to_string d) refl
                ∙ laws.get-set_self _ _ _))
        ∙ or_default-to_string c 25 hc,
    ap (λ v. or_default v 3)
          (skip _ "redelivery-interval" "max-delivery-attempts" (integer_text i) refl
            ∙ laws.get-set_self _ _ _)
        ∙ or_default-to_string d 3 hd,
    ap (λ v. if v == "" then some "30" else stol_text v) (laws.get-set_self _ _ _)
        ∙ interval-integer_text i hi,
  )
