-- ===== src/Exchange/States.antt =====
-- The states that a message gets are such as the dispatcher expects.
use restq.Base.{
  ℕ, suc, String, List, [], ◌∷◌, ◌++◌, some, ◌==◌, ◌≡◌, refl, ◌∙◌, ap, All, All-append, Bool-cases,
  inl, inr, length, count_if,
}
use restq.Dispatch.{pending}
use restq.Dispatch.Redelivery.{IsMade}
use restq.Effects.{Effect}
use restq.Exchange.Make.{make_state}
use restq.Exchange.Messages.{states_for, states_of_queues, make_states}
use restq.Multimap.{insert, equal_range, value_at}
use restq.Number.{stoul}
use restq.Platform.{Platform, Moment}
use restq.Resource.{Resource, Resources, state_type}
use restq.Stl.Updating.{HasOnly}

-- A new state for some number of attempts and some interval, of the message.
abbrev pub IsNew : String → Resource → Type 0
IsNew message_key r =
    ((n : ℕ) × (i : ℕ) × IsMade n i r)
    × HasOnly "status" pending r
    × HasOnly "type" state_type r
    × HasOnly "message-key" message_key r

pub make_state-IsMade :
    (key qk interval attempts mk sk endpoint : String) (n i : ℕ)
    → stoul attempts ≡ some n
    → stoul interval ≡ some i
    → IsMade n i (make_state key qk interval attempts mk sk endpoint)
unfolding make_state insert equal_range
make_state-IsMade key qk interval attempts mk sk endpoint n i en ei = record {
  sorted = (
    (refl, (refl, (refl, (refl, (refl, (refl, (refl, (refl, tt)))))))),
    (
      (refl, (refl, (refl, (refl, (refl, (refl, (refl, tt))))))),
      (
        (refl, (refl, (refl, (refl, (refl, (refl, tt)))))),
        (
          (refl, (refl, (refl, (refl, (refl, tt))))),
          (
            (refl, (refl, (refl, (refl, tt)))),
            ((refl, (refl, (refl, tt))), ((refl, (refl, tt)), ((refl, tt), (tt, tt)))),
          ),
        ),
      ),
    ),
  );
  key = key;
  has-key = refl;
  endpoint = endpoint;
  has-endpoint = refl;
  subscription = sk;
  has-subscription = refl;
  message = mk;
  has-message = refl;
  left = attempts;
  has-left = refl;
  reads-left = en;
  between = interval;
  has-between = refl;
  reads-between = ei;
  status = pending;
  has-status = refl;
}

make_state-IsNew :
    (key qk interval attempts mk sk endpoint : String) (n i : ℕ)
    → stoul attempts ≡ some n
    → stoul interval ≡ some i
    → IsNew mk (make_state key qk interval attempts mk sk endpoint)
unfolding make_state insert equal_range
make_state-IsNew key qk interval attempts mk sk endpoint n i en ei =
    ((n, i, make_state-IsMade key qk interval attempts mk sk endpoint n i en ei), refl, refl, refl)

-- The queue says how often and after how many seconds a message is sent again.
abbrev pub IsServed : Resource → Type 0
IsServed r =
    ((k : String) × (value_at "key" r ≡ some k))
    × ((t : String) × (i : ℕ) × (value_at "redelivery-interval" r ≡ some t) × (stoul t ≡ some i))
    × ((t : String) × (n : ℕ) × (value_at "max-delivery-attempts" r ≡ some t) × (stoul t ≡ some n))

abbrev pub IsReachable : Resource → Type 0
IsReachable r =
    ((k : String) × (value_at "key" r ≡ some k)) × ((e : String) × (value_at "endpoint" r ≡ some e))

module _ (p : Platform) (m : Moment) (mk : String) where
  -- A message gets one state for a subscription and a queue for each time that the subscription lists
  -- the queue, in any case of letters.
  pub length-states_for :
      (sk endpoint qk interval attempts : String) (vs : List String) (i : ℕ)
      → length (states_for p m i mk sk endpoint qk interval attempts vs)
        ≡ count_if (λ v. p.lowercase v == p.lowercase qk) vs
  unfolding states_for
  length-states_for sk endpoint qk interval attempts [] i = refl
  length-states_for sk endpoint qk interval attempts (v ∷ vs) i =
      elim (Bool-cases (p.lowercase v == p.lowercase qk)) [
        | inl e ↦ rw e (ap suc (length-states_for sk endpoint qk interval attempts vs (suc i)))
        | inr e ↦ rw e (length-states_for sk endpoint qk interval attempts vs i)
      ]

  states_for-IsNew :
      (sk endpoint qk interval attempts : String) (n j : ℕ)
      → stoul attempts ≡ some n
      → stoul interval ≡ some j
      → (vs : List String) (i : ℕ)
      → All (IsNew mk) (states_for p m i mk sk endpoint qk interval attempts vs)
  unfolding states_for
  states_for-IsNew sk endpoint qk interval attempts n j en ej [] i = tt
  states_for-IsNew sk endpoint qk interval attempts n j en ej (v ∷ vs) i =
      elim (Bool-cases (p.lowercase v == p.lowercase qk)) [
        | inl e ↦ rw e (
          make_state-IsNew (m.uuid i) qk interval attempts mk sk endpoint n j en ej,
          states_for-IsNew sk endpoint qk interval attempts n j en ej vs (suc i),
        )
        | inr e ↦ rw e (states_for-IsNew sk endpoint qk interval attempts n j en ej vs i)
      ]

  states_of_queues-IsNew :
      (sk endpoint : String) (listed : List String) (queues states : Resources)
      (k : Resources → Effect)
      → All IsServed queues
      → All (IsNew mk) states
      → (states' : Resources) × (states_of_queues p m mk sk endpoint listed queues states k
          ≡ k states')
        × All (IsNew mk) states'
  unfolding states_of_queues
  states_of_queues-IsNew sk endpoint listed [] states k h a = (states, refl, a)
  states_of_queues-IsNew sk endpoint listed (queue ∷ queues) states k
        (((qk, ek), (ti, i, ei, ni), (ta, n, ea, na)), hs) a =
      rw (ek, ei, ea)
        (states_of_queues-IsNew sk endpoint listed queues
          (states ++ states_for p m (suc (length states)) mk sk endpoint qk ti ta listed) k hs
          (All-append (IsNew mk) states _ a
            (states_for-IsNew sk endpoint qk ti ta n i na ni listed (suc (length states)))))

  pub make_states-IsNew :
      (queues subscriptions states : Resources) (k : Resources → Effect)
      → All IsServed queues
      → All IsReachable subscriptions
      → All (IsNew mk) states
      → (states' : Resources) × (make_states p m mk queues subscriptions states k ≡ k states')
        × All (IsNew mk) states'
  unfolding make_states
  make_states-IsNew queues [] states k h hs a = (states, refl, a)
  make_states-IsNew queues (s ∷ subscriptions) states k h (((sk, esk), (endpoint, ee)), hs) a =
      let (states1, e1, a1) =
        states_of_queues-IsNew sk endpoint (equal_range "queues" s) queues states
          (λ states'. make_states p m mk queues subscriptions states' k) h a in
      let (states2, e2, a2) = make_states-IsNew queues subscriptions states1 k h hs a1 in
      (states2, rw (esk, ee) (e1 ∙ e2), a2)
