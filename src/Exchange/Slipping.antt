-- ===== src/Exchange/Slipping.antt =====
-- A change with two values of one limit (validator_impl.cpp, the update of stl_repository.cpp and the
-- test of the queues' limits in exchange_impl.cpp).
use restq.Base.{ℕ, String, Bool, false, [], ◌∷◌, none, some, ◌==◌, ◌||◌, ◌≡◌, refl, ap, ◌∙◌}
use restq.Effects.{Effect}
use restq.Exchange.Quota.{quota}
use restq.Multimap.{Multimap, equal_range, has, value_at, lower_bound}
use restq.Multimap.Laws.{IsSorted, value_at_first}
use restq.Number.{stoul}
use restq.Platform.{Platform, Moment}
use restq.Query.{Query}
use restq.Resource.{Resource, Resources, queue_type}
use restq.Session.{Session}
use restq.Stl.{apply_changes}
use restq.Stl.Changing.{apply_change-IsSorted, equal_range-apply_change, apply_change_sets}
use restq.Stl.Updating.{HasOnly}
use restq.Validator.{
  has_reserved_create_fields, has_reserved_update_fields, has_invalid_create_fields,
  has_invalid_update_fields, bad_queue, no_number,
}

-- A limit set to the one value and then to the other.
abbrev pub twice : String → String → String → Multimap
twice name v w = (name, v) ∷ (name, w) ∷ []

-- The second value is what is kept, and the other properties stay.
twice-HasOnly :
    (name other old v w : String) (r : Resource) (b : Bool)
    → (name == "modified" || name == "revision") ≡ false
    → (other == name) ≡ false
    → IsSorted r
    → HasOnly name old r
    → IsSorted (apply_changes (twice name v w) (r, b)).0
      × HasOnly name w (apply_changes (twice name v w) (r, b)).0
      × (equal_range other (apply_changes (twice name v w) (r, b)).0 ≡ equal_range other r)
unfolding apply_changes
twice-HasOnly name other old v w r b m d s h =
    let sorted = apply_change-IsSorted name v (r, b) s in
    (
      apply_change-IsSorted name w _ sorted,
      apply_change_sets name w v _ m (apply_change_sets name v old (r, b) m h),
      equal_range-apply_change other name w _ d sorted
          ∙ equal_range-apply_change other name v (r, b) d s,
    )

no_number_of : (v : String) (n : ℕ) → stoul v ≡ some n → no_number v ≡ false
no_number_of v n e = rw (no_number, e) refl

-- Only the first of the two values is looked at.
twice-passes :
    (p : Platform) (v w : String) (n : ℕ)
    → stoul v ≡ some n
    → has_invalid_update_fields p (twice "message-size-limit" v w) queue_type ≡ false
unfolding has_invalid_update_fields has_invalid_create_fields bad_queue has value_at lower_bound
twice-passes p v w n e = ap (λ b. b || false || false) (no_number_of v n e)

-- A change of a queue that has two values for the limit on the size of messages, of which only the
-- first is a number, passes both tests of an update; and where the queue is in order with one key and
-- one such limit, each message to the queue as the change leaves it ends with an exception.
pub second_limit_slips :
    (p : Platform) (m : Moment) (s : Session) (size : ℕ) (states queues : Resources) (q : Query)
    (k : Query → Effect) (r : Resource) (b : Bool) (key old v w : String) (n : ℕ)
    → stoul v ≡ some n
    → stoul w ≡ none
    → IsSorted r
    → HasOnly "key" key r
    → HasOnly "message-size-limit" old r
    → let change = twice "message-size-limit" v w in
      (has_reserved_update_fields change ≡ false)
      × (has_invalid_update_fields p change queue_type ≡ false)
      × (quota p m s size states ((apply_changes change (r, b)).0 ∷ queues) q k ≡ Effect.raise)
unfolding has_reserved_update_fields has_reserved_create_fields has quota
second_limit_slips p m s size states queues q k r b key old v w n ev ew sorted hk h =
    let (sorted', kept, other) =
      twice-HasOnly "message-size-limit" "key" old v w r b refl refl sorted h in
    (
      refl,
      twice-passes p v w n ev,
      rw
          (
            value_at_first "key" key [] _ sorted' (other ∙ hk),
            value_at_first "message-size-limit" w [] _ sorted' kept,
            ew,
          )
          refl,
    )
