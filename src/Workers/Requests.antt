-- ===== src/Workers/Requests.antt =====
-- The handlers of queues and subscriptions (exchange_impl.cpp) write lawful resources only.
use restq.Base.{
  String, Bool, true, false, not, ◌||◌, [], ◌∷◌, none, some, ◌==◌, ltb, count_if, less, ◌+◌, ◌≡◌,
  ◌≢◌, refl, sym, ◌∙◌, arith, eq_iff, inl, inr, All, In, Bool-cases,
}
use restq.Effects.{Effect}
use restq.Exchange.{typed_query, restored}
use restq.Exchange.Capacity.{sort_results, capacity, subscribes, note}
use restq.Exchange.Contract.{In-insert}
use restq.Exchange.Handlers.{queues_query, with_capacity, stamp_change, update_one}
use restq.Multimap.{insert, equal_range, value_at}
use restq.Multimap.Laws.{IsSorted}
use restq.Number.{stoul}
use restq.Platform.{Platform, Moment}
use restq.Query.{
  Query, has_failed, set_include, set_exclusive_filter, of_session, set_index, set_limit, set_keys,
  set_fields, set_inclusive_filters, set_exclusive_filters, set_session,
}
use restq.Resource.{Resource, Resources, queue_type, state_type, subscription_type}
use restq.Session.{Session, Formatter}
use restq.Validator.{has_reserved_update_fields, has_invalid_update_fields}
use restq.Workers.Closing.{
  WritesLawful-if, WritesLawful-at, WritesLawful-get, WritesLawful-bad_request,
  WritesLawful-service_unavailable, WritesLawful-find_and_invoke_for,
}
use restq.Workers.Lawful.{IsForeign}
use restq.Workers.Making.{unreserved}
use restq.Workers.Replying.{update_resource_callback-WritesLawful}
use restq.Workers.Writing.{WritesLawful, IsNarrow}

-- No related resources are asked for, and what a body is parsed to is in order, as a multimap is.
abbrev pub IsClean : Session → Type 0
IsClean s =
    (s.related ≡ none)
    × ((f : Formatter) (text : String) (rs : Resources)
        → s.content_format ≡ some f
        → f.try_parse text ≡ some rs
        → All IsSorted rs)

typed_query-IsNarrow :
    (type : String) (s : Session)
    → s.related ≡ none
    → type ≢ state_type
    → IsNarrow (typed_query type s)
unfolding typed_query of_session set_exclusive_filter
typed_query-IsNarrow type s e n =
    ((type, In-insert "type" type _, n), λ h. blank (sym (rw e refl) ∙ h))
  where
    blank : "" ≢ state_type
    blank h = ground (arith, eq_iff "" state_type)

-- The query of a request for subscriptions, as it is once the queues are read.
abbrev pub IsRestored : Query → Type 0
IsRestored q = (q.related ≡ subscription_type) × In ("type", subscription_type) q.exclusive_filters

pub subscription-ne-state : subscription_type ≢ state_type
subscription-ne-state e = ground (arith, eq_iff subscription_type state_type)

pub restored-WritesLawful :
    (type : String) (s : Session) (q : Query) (k : Query → Effect)
    → ((q' : Query)
        → q'.related ≡ q.related
        → In ("type", type) q'.exclusive_filters
        → WritesLawful (k q'))
    → WritesLawful (restored type s q k)
unfolding restored set_exclusive_filter set_exclusive_filters set_inclusive_filters set_fields
    set_keys set_limit set_index
restored-WritesLawful type s q k h = WritesLawful-get s.paging _ λ paging.
    WritesLawful-get s.keys _ λ keys. WritesLawful-get s.fields _ λ fields.
      WritesLawful-get s.inclusive_filters _ λ inclusive.
        WritesLawful-get s.exclusive_filters _
          λ exclusive. h _ refl (In-insert "type" type exclusive)

sort_results-WritesLawful :
    (rs queues subscriptions : Resources) (k : Resources → Resources → Effect)
    → ((queues subscriptions : Resources) → WritesLawful (k queues subscriptions))
    → WritesLawful (sort_results rs queues subscriptions k)
unfolding sort_results
sort_results-WritesLawful [] queues subscriptions k h = h queues subscriptions
sort_results-WritesLawful (r ∷ rs) queues subscriptions k h =
    WritesLawful-at (value_at "type" r) _ λ t.
      noted (t == queue_type || t == subscription_type) _ (sort_results-WritesLawful rs _ _ k h)
  where
    noted : (b : Bool) (e : Effect) → WritesLawful e → WritesLawful (note b e)
    noted true e w = w
    noted false e w = w

All-insert :
    (P : String × String → Type 0) (k v : String) (r : Resource)
    → P (k, v)
    → All P r
    → All P (insert k v r)
unfolding insert
All-insert P k v [] a h = (a, tt)
All-insert P k v ((j, w) ∷ r) a (b, h) = elim (Bool-cases (less k j)) [
  | inl e ↦ rw e (a, (b, h))
  | inr e ↦ rw e (b, All-insert P k v r a h)
]

untyped : (r : Resource) → equal_range "type" r ≡ [] → All IsForeign r
unfolding equal_range
untyped [] e = tt
untyped ((k, v) ∷ r) e = elim (Bool-cases ("type" == k)) [
  | inl c ↦ cc (rw c at e)
  | inr c ↦ (inl c, untyped r (rw c at e))
]

module _ (p : Platform) where
  capacity-WritesLawful :
      (m : Moment) (s : Session) (resources subscriptions queues : Resources) (k : Effect)
      → WritesLawful k
      → WritesLawful (capacity p m s resources subscriptions queues k)
  unfolding capacity
  capacity-WritesLawful m s resources subscriptions [] k h = h
  capacity-WritesLawful m s resources subscriptions (queue ∷ queues) k h =
      WritesLawful-at (value_at "key" queue) _ λ key.
        WritesLawful-at (value_at "subscription-limit" queue) _ λ text.
          WritesLawful-get (stoul text) _ λ limit.
            WritesLawful-if
              (ltb limit (
                count_if (subscribes p (p.lowercase key)) resources
                + count_if (subscribes p (p.lowercase key)) subscriptions))
              _ _ (WritesLawful-service_unavailable p m _ s)
              (capacity-WritesLawful m s resources subscriptions queues k h)

  -- Where the queues are read first, what follows has a query for subscriptions.
  pub with_capacity-WritesLawful :
      (resources : Resources) (k : Session → Query → Effect) (m : Moment) (q : Query)
      → q.related ≡ subscription_type
      → ((s : Session) (q' : Query) → IsRestored q' → WritesLawful (k s q'))
      → WritesLawful (with_capacity p resources k m q)
  unfolding with_capacity
  with_capacity-WritesLawful resources k m q e h = WritesLawful-at q.session _ λ s.
      WritesLawful-if (has_failed q) _ _ (WritesLawful-find_and_invoke_for p m q.error_code _ s) (
        sort_results-WritesLawful q.resultset [] [] _ λ queues subscriptions.
          capacity-WritesLawful m s resources subscriptions queues _ (
            restored-WritesLawful subscription_type s q (k s)
              λ q' same typed. h s q' (same ∙ e, typed)))

  stamp_change-IsForeign :
      (m : Moment) (type : String) (change : Resource)
      → type ≢ state_type
      → has_reserved_update_fields change ≡ false
      → All IsForeign (stamp_change p m type change)
  unfolding stamp_change has_reserved_update_fields
  stamp_change-IsForeign m type change n h = All-insert IsForeign "modified" _ _ (inl refl) (
      All-insert IsForeign "revision" _ _ (inl refl) (
        All-insert IsForeign "type" type change (inr (refl, n))
          (untyped change (unreserved change (ground arith)))))

  pub update_one-WritesLawful :
      (m : Moment) (type : String) (s : Session) (change : Resource)
      → s.related ≡ none
      → type ≢ state_type
      → WritesLawful (update_one p m type s change)
  unfolding update_one queues_query set_include set_exclusive_filter set_keys set_session
  update_one-WritesLawful m type s change e n =
      elim (Bool-cases (has_reserved_update_fields change)) [
        | inl b ↦ rw b (WritesLawful-bad_request p m _ s)
        | inr b ↦
            let foreign = stamp_change-IsForeign m type change n b in
            rw b (
              WritesLawful-if (has_invalid_update_fields p change type) _ _
                (WritesLawful-bad_request p m _ s)
                (WritesLawful-if (not (type == subscription_type)) _ _
                  (
                    inr (foreign, typed_query-IsNarrow type s e n),
                    λ m' q' same. update_resource_callback-WritesLawful p m' q',
                  )
                  (λ m' q' same.
                    with_capacity-WritesLawful (stamp_change p m type change ∷ []) _ m' q' same.1
                      λ s' q'' (related, typed). (
                        inr (
                          foreign,
                          (
                            (subscription_type, typed, subscription-ne-state),
                            λ h. subscription-ne-state (sym related ∙ h),
                          ),
                        ),
                        λ m'' q''' same'. update_resource_callback-WritesLawful p m'' q''',
                      ))))
      ]
