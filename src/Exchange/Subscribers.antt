-- ===== src/Exchange/Subscribers.antt =====
-- The read of the subscriptions that a message goes to (exchange_impl.cpp,
-- create_message_and_read_queues_callback).
use restq.Base.{
  String, false, List, [], ◌∷◌, ◌++◌, some, ◌≡◌, refl, sym, ◌∙◌, ap, subst, All, append_assoc,
  append-nil, if◌then◌else◌,
}
use restq.Effects.{Effect}
use restq.Exchange.Limits.{AllTake, naming, quota_passes}
use restq.Exchange.Messages.{
  create_message_and_read_queues_callback, create_message_and_read_subscriptions_callback,
}
use restq.Exchange.Quota.{sort_states, listed, quota}
use restq.Multimap.{equal_range, insert, value_at}
use restq.Multimap.Laws.{IsSorted, insert-All, insert-IsSorted, equal_range-insert}
use restq.Platform.{Platform, Moment}
use restq.Query.{Query, has_failed, clear, set_session, set_exclusive_filter, set_inclusive_filter}
use restq.Resource.{Resources, queue_type, state_type, subscription_type}
use restq.Session.{Session}

-- The query filters by these queues, in order, and includes by nothing else.
pub record Names (keys : List String) (q : Query) : Type 0 where
  pub sorted : IsSorted q.inclusive_filters
  pub queues : equal_range "queues" q.inclusive_filters ≡ keys
  pub only : All (λ f. f.0 ≡ "queues") q.inclusive_filters

Names-insert :
    (keys : List String) (key : String) (q : Query)
    → Names keys q
    → Names (keys ++ key ∷ []) (set_inclusive_filter "queues" key q)
unfolding set_inclusive_filter
Names-insert keys key q h = record {
  sorted = insert-IsSorted "queues" key _ h.sorted;
  queues =
      equal_range-insert "queues" "queues" key _ h.sorted
      ∙ ap (λ (l : List String). l ++ key ∷ []) h.queues;
  only = insert-All (λ n. n ≡ "queues") "queues" key _ refl h.only;
}

Names-naming :
    (more keys : List String) (q : Query) → Names keys q → Names (keys ++ more) (naming more q)
Names-naming [] keys q h = subst (λ ks. Names ks q) (sym (append-nil keys)) h
Names-naming (k ∷ more) keys q h =
    subst (λ ks. Names ks (naming (k ∷ more) q)) (append_assoc keys (k ∷ []) more)
      (Names-naming more (keys ++ k ∷ []) (set_inclusive_filter "queues" k q)
        (Names-insert keys k q h))

-- What the filters on queues leave of a query.
naming_keeps :
    (keys : List String) (q : Query)
    → ((naming keys q).exclusive_filters ≡ q.exclusive_filters)
      × ((naming keys q).session ≡ q.session)
      × ((naming keys q).fields ≡ q.fields)
      × ((naming keys q).keys ≡ q.keys)
unfolding set_inclusive_filter
naming_keeps [] q = (refl, refl, refl, refl)
naming_keeps (k ∷ keys) q = naming_keeps keys (set_inclusive_filter "queues" k q)

module _ (p : Platform) where
  -- The states that are counted: the first with each key, in any case of letters.
  abbrev pub counted : Resources → List String → Resources → Resources
  counted (r ∷ states) (key ∷ keys) seen =
      counted states keys (if listed p (p.lowercase key) seen then seen else seen ++ r ∷ [])
  counted _ _ seen = seen

  abbrev pub AreQueues : Resources → Type 0
  AreQueues queues = All (λ r. value_at "type" r ≡ some queue_type) queues

  -- The states have these keys.
  abbrev pub AreStates : Resources → List String → Type 0
  AreStates [] [] = Unit
  AreStates (r ∷ states) (key ∷ keys) =
      (value_at "type" r ≡ some state_type) × (value_at "key" r ≡ some key) × AreStates states keys
  AreStates _ _ = ⊥

  sort_states-states :
      (states : Resources) (keys : List String) (queues seen : Resources)
      (k : Resources → Resources → Effect)
      → AreStates states keys
      → sort_states p states queues seen k ≡ k queues (counted states keys seen)
  unfolding sort_states
  sort_states-states [] [] queues seen k h = refl
  sort_states-states (r ∷ states) (key ∷ keys) queues seen k (t, e, h) =
      rw (t, e) (sort_states-states states keys queues _ k h)
  sort_states-states [] (key ∷ keys) queues seen k h = elim h [ ]
  sort_states-states (r ∷ states) [] queues seen k h = elim h [ ]

  sort_states-queues :
      (new rest queues : Resources) (k : Resources → Resources → Effect)
      → AreQueues new
      → sort_states p (new ++ rest) queues [] k ≡ sort_states p rest (queues ++ new) [] k
  unfolding sort_states
  sort_states-queues [] rest queues k h =
      ap (λ qs. sort_states p rest qs [] k) (sym (append-nil queues))
  sort_states-queues (r ∷ new) rest queues k (t, h) =
      rw t (sort_states-queues new rest (queues ++ r ∷ []) k h)
      ∙ ap (λ qs. sort_states p rest qs [] k) (append_assoc queues (r ∷ []) new)

  -- Where the read of a message's queues has given queues and then states with keys, and each queue has
  -- a key, limits that are numbers, and room for the message by its size and by the number of its
  -- states, of which those with one key count once, the handler goes on with a read, for the same
  -- session, of the reachable subscriptions, filtered by the keys of exactly these queues.
  pub queues-Reads :
      (m : Moment) (q : Query) (s : Session) (queues states : Resources)
      (keys state_keys : List String)
      → q.session ≡ some s
      → has_failed q ≡ false
      → q.resultset ≡ queues ++ states
      → AreQueues queues
      → AreStates states state_keys
      → AllTake p m s
          (p.header_number s.request "Content-Length" 0)
          (counted states state_keys [])
          queues
          keys
      → (q' : Query) × (create_message_and_read_queues_callback p m q
          ≡ Effect.read q' (create_message_and_read_subscriptions_callback p queues))
        × Names keys q'
        × (q'.exclusive_filters ≡ ("state", "reachable") ∷ ("type", subscription_type) ∷ [])
        × (q'.session ≡ some s)
        × (q'.fields ≡ [])
        × (q'.keys ≡ [])
  unfolding create_message_and_read_queues_callback set_exclusive_filter set_session clear insert
      has_failed create_message_and_read_subscriptions_callback equal_range
  queues-Reads m q s queues states keys state_keys es ok e hq hs take =
      let base =
        set_exclusive_filter "state" "reachable"
          (set_exclusive_filter "type" subscription_type (set_session (some s) (clear q))) in
      let k : Query → Effect =
        λ q'. Effect.read q' (create_message_and_read_subscriptions_callback p queues) in
      let sorted : Resources → Resources → Effect = λ queues states.
        quota p m s (p.header_number s.request "Content-Length" 0) states queues base
          λ q'. Effect.read q' (create_message_and_read_subscriptions_callback p queues) in
      let (exclusive, session, fields, none_named) = naming_keeps keys base in
      (
        naming keys base,
        rw (es, ok)
            (ap (λ rs. sort_states p rs [] [] sorted) e
              ∙ sort_states-queues queues states [] _ hq
              ∙ (sort_states-states states state_keys queues [] _ hs
                  ∙ quota_passes p m s _ _ queues keys base k take)),
        Names-naming keys [] base (record { sorted = tt; queues = refl; only = tt }),
        exclusive,
        session,
        fields,
        none_named,
      )
