-- ===== src/Tests/Store.antt =====
-- The repository's theorems on a store of a queue, a subscription and a message state.
use restq.Base.{
  String, true, false, [], ◌∷◌, some, ◌≡◌, ◌↔◌, refl, arith, eq_iff, All, In, here, there, find_if,
}
use restq.Dispatch.{pending, inflight, route_query}
use restq.Dispatch.Once.{claim_query, claimed_once, claimed_twice}
use restq.Exchange.{typed_query}
use restq.Exchange.Typed.{IsOf, destroy_typed}
use restq.Multimap.{equal_range, assign, has, value_at, lower_bound, insert}
use restq.Query.{
  Query, empty, has_failed, set_key, set_fields, set_resultset, set_limit, set_exclusive_filter,
  of_session, has_fields,
}
use restq.Resource.{Resource, Resources}
use restq.Session.{Session}
use restq.Stl.{
  apply_changes, key_of, answers, candidates, answer, page, fill, read, create, conflicts, update,
  updated, found, destroy, keeps, exclusive_fails, erase_first, erase_all, fields, including,
}
use restq.Stl.Changing.{apply_changes_stale}
use restq.Stl.Creating.{create-KeysDistinct, create_duplicates}
use restq.Stl.Filter.{Matches, keeps_exclusive, under, HasOne, keeps_inclusive, second_name_ignored}
use restq.Stl.Keys.{KeysDistinct}
use restq.Stl.Reading.{read_sound, read_fails}
use restq.Stl.Updating.{IsStored}
use restq.Tests.Data.{lower, queue, subscription, state, session_of}

abbrev store : Resources
store = queue ∷ subscription ∷ state ∷ []

-- The store after the state is claimed.
abbrev claimed_store : Resources
claimed_store = queue ∷ subscription ∷ assign "status" inflight state ∷ []

abbrev another : Resource
another = ("key", "q1") ∷ ("type", "queue") ∷ []

abbrev fresh : Resource
fresh = ("key", "Q2") ∷ ("type", "queue") ∷ []

abbrev query_of : String → Query
query_of key = set_key key empty

store-KeysDistinct : KeysDistinct lower store
unfolding key_of value_at lower_bound lower
store-KeysDistinct = ((refl, (refl, tt)), ((refl, tt), (tt, tt)))

store-IsStored : All IsStored store
unfolding has
store-IsStored = (
  (
    (
      (refl, (refl, (refl, (refl, tt)))),
      ((refl, (refl, (refl, tt))), ((refl, (refl, tt)), ((refl, tt), (tt, tt)))),
    ),
    refl,
  ),
  (
    (((refl, (refl, (refl, tt))), ((refl, (refl, tt)), ((refl, tt), (tt, tt)))), refl),
    (
      (
        (
          (refl, (refl, (refl, (refl, (refl, (refl, (refl, tt))))))),
          (
            (refl, (refl, (refl, (refl, (refl, (refl, tt)))))),
            (
              (refl, (refl, (refl, (refl, (refl, tt))))),
              (
                (refl, (refl, (refl, (refl, tt)))),
                ((refl, (refl, (refl, tt))), ((refl, (refl, tt)), ((refl, tt), (tt, tt)))),
              ),
            ),
          ),
        ),
        refl,
      ),
      tt,
    ),
  ),
)

state-found : find_if (answers lower "T1") store ≡ some state
unfolding answers has key_of value_at lower_bound lower
state-found = refl

claimed_once_example :
    (store' : Resources) × (update lower store
        (("status", inflight) ∷ [])
        (claim_query pending "T1" [])
      ≡ some (
        store',
        set_resultset
            (assign "status" inflight state ∷ [])
            (found lower store (claim_query pending "T1" [])),
      ))
    × (update lower store' (("status", inflight) ∷ []) (claim_query pending "T1" [])
        ≡ some (store', set_resultset [] (found lower store' (claim_query pending "T1" []))))
unfolding equal_range
claimed_once_example =
    claimed_once lower "T1" state store [] [] store-IsStored state-found refl refl

claimed_twice_example :
    (store' : Resources) × (updated lower store
        (("status", inflight) ∷ [])
        (found lower store (claim_query pending "T1" []))
      ≡ some (
        store',
        set_resultset
            (assign "status" inflight state ∷ [])
            (found lower store (claim_query pending "T1" [])),
      ))
    × (updated lower store'
          (("status", inflight) ∷ [])
          (found lower store (claim_query pending "T1" []))
        ≡ some (
          store',
          set_resultset
              (assign "status" inflight state ∷ [])
              (found lower store (claim_query pending "T1" [])),
        ))
unfolding equal_range
claimed_twice_example =
    claimed_twice lower "T1" state store [] [] store-IsStored state-found refl refl

abbrev reader : Session
reader = session_of []

reader-found : has_failed (read lower store (typed_query "queue" reader)) ≡ false
unfolding read candidates answer has_failed typed_query set_exclusive_filter of_session
    set_resultset
reader-found = refl

-- The store without its queue.
abbrev rest_of_store : Resources
rest_of_store = subscription ∷ state ∷ []

queue_destroyed :
    destroy lower store (typed_query "queue" reader)
    ≡ some (rest_of_store, read lower store (typed_query "queue" reader))
unfolding destroy read candidates answer fields including page fill keeps exclusive_fails
    equal_range insert erase_all erase_first key_of value_at lower_bound lower has_failed has_fields
    typed_query set_exclusive_filter of_session set_resultset
queue_destroyed = refl

no_queue : ¬ IsOf "queue" state
unfolding equal_range
no_queue m = elim m [ here e ↦ ground (arith, eq_iff "queue" "state") | there n ↦ elim n [ ] ]

destroy_typed_example : In state rest_of_store
destroy_typed_example =
    destroy_typed lower store rest_of_store "queue" reader
      (read lower store (typed_query "queue" reader)) state store-KeysDistinct (refl, refl)
      queue_destroyed (there (there (here refl))) no_queue

read_sound_example :
    All
      (λ r. In r store × Matches r (route_query pending).exclusive_filters)
      (read lower store (route_query pending)).resultset
unfolding read candidates answer has_failed route_query set_exclusive_filter set_resultset set_limit
read_sound_example = read_sound lower store (route_query pending) refl refl refl

read_fails_example :
    (has_failed (read lower store (query_of "q9")) ≡ true)
    ↔ ((key : String) × In key (query_of "q9").keys × All (λ r. answers lower key r ≡ false) store)
unfolding set_key
read_fails_example = read_fails lower store (query_of "q9") refl

create-KeysDistinct_example : KeysDistinct lower (create lower store (fresh ∷ []) empty).0
create-KeysDistinct_example =
    create-KeysDistinct lower store (fresh ∷ []) empty store-KeysDistinct (tt, tt)

create_duplicates_example : ¬ KeysDistinct lower (create lower store (fresh ∷ fresh ∷ []) empty).0
unfolding conflicts key_of value_at lower_bound lower
create_duplicates_example = create_duplicates lower store fresh fresh empty refl refl refl

not_inflight : ¬ Matches state (("status", inflight) ∷ [])
unfolding equal_range
not_inflight (m, h) = elim m [
  | here e ↦ ground (arith, eq_iff "in-flight" "pending")
  | there n ↦ elim n [ ]
]

-- A deletion of the queue that asks for the field `type` only.
abbrev type_only : Query
type_only = set_fields ("type" ∷ []) (set_key "Q1" empty)

keeps_exclusive_example :
    (keeps [] (("status", pending) ∷ []) state ≡ true) ↔ Matches state (("status", pending) ∷ [])
keeps_exclusive_example = keeps_exclusive state (("status", pending) ∷ [])

keeps_inclusive_example :
    (keeps (under "queues" ("q1" ∷ "q2" ∷ [])) [] subscription ≡ true)
    ↔ HasOne subscription "queues" ("q1" ∷ "q2" ∷ [])
keeps_inclusive_example = keeps_inclusive subscription "queues" "q1" ("q2" ∷ [])

second_name_ignored_example :
    keeps (("key", "S1") ∷ ("type", "queue") ∷ []) [] subscription
    ≡ keeps (("key", "S1") ∷ []) [] subscription
second_name_ignored_example =
    second_name_ignored subscription "key" "type" "S1" "queue" []
      (λ e. ground (arith, eq_iff "key" "type"))

apply_changes_stale_example :
    let s' =
      apply_changes
        (("message-limit", "5") ∷ ("modified", "2000") ∷ ("revision", "b") ∷ [])
        (("modified", "1000") ∷ ("revision", "a") ∷ ("type", "queue") ∷ [], false) in
    (equal_range "modified" s'.0
      ≡ equal_range "modified" (("modified", "1000") ∷ ("revision", "a") ∷ ("type", "queue") ∷ []))
    × (equal_range "revision" s'.0
        ≡ equal_range "revision"
            (("modified", "1000") ∷ ("revision", "a") ∷ ("type", "queue") ∷ []))
apply_changes_stale_example =
    apply_changes_stale (("message-limit", "5") ∷ ("modified", "2000") ∷ ("revision", "b") ∷ [])
      (("modified", "1000") ∷ ("revision", "a") ∷ ("type", "queue") ∷ [], false)
      ((refl, (refl, tt)), ((refl, tt), (tt, tt)))
