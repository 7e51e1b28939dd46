-- ===== src/Exchange/Limits.antt =====
-- When a queue takes another subscription, and when it takes another message.
use restq.Base.{
  ℕ, ◌+◌, ◌≤◌, ◌<◌, String, List, [], ◌∷◌, ◌++◌, some, ltb, count_if, ◌≡◌, refl, arith, All, if_so,
  if_not, ◌∙◌, subst, sym,
}
use restq.Effects.{Effect}
use restq.ErrorHandler.{service_unavailable, request_entity_too_large}
use restq.ErrorHandler.Laws.{Answers, IsPrepared, explain-Answers}
use restq.Exchange.Capacity.{capacity, subscribes}
use restq.Exchange.Quota.{quota, count_states}
use restq.Multimap.{value_at}
use restq.Number.{stoul}
use restq.Platform.{Platform, Moment}
use restq.Query.{Query, set_inclusive_filter}
use restq.Resource.{Resource, Resources}
use restq.Session.{Session}

-- A property of the resource that is a number.
abbrev pub HasNumber : String → Resource → ℕ → Type 0
HasNumber name r n = (text : String) × (value_at name r ≡ some text) × (stoul text ≡ some n)

-- The filters on queues that the loop adds.
abbrev pub naming : List String → Query → Query
naming [] q = q
naming (k ∷ ks) q = naming ks (set_inclusive_filter "queues" k q)

module _ (p : Platform) (m : Moment) (s : Session) where
  -- The new and the present subscriptions that list a queue.
  abbrev pub demand : Resources → Resources → String → ℕ
  demand resources subscriptions key =
      count_if (subscribes p (p.lowercase key)) resources
      + count_if (subscribes p (p.lowercase key)) subscriptions

  -- The queue has room for the subscriptions.
  abbrev pub HasRoom : Resources → Resources → Resource → Type 0
  HasRoom resources subscriptions queue =
      (key : String) × (limit : ℕ) × (value_at "key" queue ≡ some key)
      × HasNumber "subscription-limit" queue limit
      × (demand resources subscriptions key ≤ limit)

  -- Where every queue has a key, a limit that is a number, and room for the new and the present
  -- subscriptions that list it, the request goes on.
  pub capacity_passes :
      (resources subscriptions queues : Resources) (k : Effect)
      → All (HasRoom resources subscriptions) queues
      → capacity p m s resources subscriptions queues k ≡ k
  unfolding capacity
  capacity_passes resources subscriptions [] k h = refl
  capacity_passes resources subscriptions (queue ∷ queues) k
        ((key, limit, ek, (text, et, en), le), hs) =
      rw (ek, et, en)
        (if_not (ltb limit (demand resources subscriptions key)) _ _ (ground arith)
          ∙ capacity_passes resources subscriptions queues k hs)

  -- The first queue without room ends the request of a prepared session with status 503, where it
  -- has a key and a limit that is a number, and those before it have room.
  pub capacity_refuses :
      (resources subscriptions before after : Resources) (queue : Resource) (k : Effect)
      (key : String) (limit : ℕ)
      → IsPrepared s
      → All (HasRoom resources subscriptions) before
      → value_at "key" queue ≡ some key
      → HasNumber "subscription-limit" queue limit
      → limit < demand resources subscriptions key
      → Answers 503 (capacity p m s resources subscriptions (before ++ queue ∷ after) k)
  unfolding capacity service_unavailable
  capacity_refuses resources subscriptions [] after queue k key limit hp h ek (text, et, en) lt =
      rw (ek, et, en)
        (subst (Answers 503)
          (sym (if_so (ltb limit (demand resources subscriptions key)) _ _ (ground arith)))
          (explain-Answers p m 503 s _ _ hp))
  capacity_refuses resources subscriptions (b ∷ before) after queue k key limit hp
        ((kb, lb, ekb, (tb, etb, enb), leb'), hs) ek num lt =
      rw (ekb, etb, enb)
        (subst (Answers 503)
          (sym (if_not (ltb lb (demand resources subscriptions kb)) _ _ (ground arith)))
          (capacity_refuses resources subscriptions before after queue k key limit hp hs ek num lt))

  -- The queue takes a message of the size.
  abbrev pub Takes : ℕ → Resources → Resource → String → Type 0
  Takes size states queue key =
      (size_limit : ℕ) × (limit : ℕ) × (value_at "key" queue ≡ some key)
      × HasNumber "message-size-limit" queue size_limit
      × HasNumber "message-limit" queue limit
      × (size ≤ size_limit)
      × (count_states key states < limit)

  abbrev pub AllTake : ℕ → Resources → Resources → List String → Type 0
  AllTake size states [] [] = Unit
  AllTake size states (queue ∷ queues) (key ∷ keys) =
      Takes size states queue key × AllTake size states queues keys
  AllTake size states _ _ = ⊥

  -- Where every queue has its key and limits that are numbers, and takes the message by size and by
  -- number, the request goes on with a filter for each of their keys.
  pub quota_passes :
      (size : ℕ) (states queues : Resources) (keys : List String) (q : Query) (k : Query → Effect)
      → AllTake size states queues keys
      → quota p m s size states queues q k ≡ k (naming keys q)
  unfolding quota
  quota_passes size states [] [] q k h = refl
  quota_passes size states (queue ∷ queues) (key ∷ keys) q k
        ((size_limit, limit, ek, (st, est, esn), (t, et, en), le, lt), hs) =
      rw (ek, est, esn)
        (if_not (ltb size_limit size) _ _ (ground arith)
          ∙ rw (et, en)
              (if_not (ltb limit (count_states key states + 1)) _ _ (ground arith)
                ∙ quota_passes size states queues keys (set_inclusive_filter "queues" key q) k hs))
  quota_passes size states [] (key ∷ keys) q k h = elim h [ ]
  quota_passes size states (queue ∷ queues) [] q k h = elim h [ ]

  -- Where the first queue has a key and limits that are numbers, a message larger than it allows
  -- ends the request of a prepared session with status 413; one too many for it, with status 503.
  pub quota_refuses :
      (size : ℕ) (states queues : Resources) (queue : Resource) (key : String)
      (size_limit limit : ℕ) (q : Query) (k : Query → Effect)
      → IsPrepared s
      → value_at "key" queue ≡ some key
      → HasNumber "message-size-limit" queue size_limit
      → HasNumber "message-limit" queue limit
      → (size_limit < size → Answers 413 (quota p m s size states (queue ∷ queues) q k))
        × (size ≤ size_limit
            → limit ≤ count_states key states
            → Answers 503 (quota p m s size states (queue ∷ queues) q k))
  unfolding quota request_entity_too_large service_unavailable
  quota_refuses size states queues queue key size_limit limit q k hp ek (st, est, esn) (t, et, en) =
      (
        λ lt.
            rw (ek, est, esn)
              (subst (Answers 413) (sym (if_so (ltb size_limit size) _ _ (ground arith)))
                (explain-Answers p m 413 s _ _ hp)),
        λ le full.
            rw (ek, est, esn)
              (subst (Answers 503) (sym (if_not (ltb size_limit size) _ _ (ground arith))) (
                rw (et, en)
                  (subst (Answers 503)
                    (sym (if_so (ltb limit (count_states key states + 1)) _ _ (ground arith)))
                    (explain-Answers p m 503 s _ _ hp)))),
      )
