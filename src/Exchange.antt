-- ===== src/Exchange.antt =====
-- source/corvusoft/restq/detail/exchange_impl.cpp: what its handlers share. The handlers of
-- resources and messages and the callbacks that answer are in the children, as are the resources
-- that the exchange makes.
pub mod Make
pub mod Answer
pub mod Capacity
pub mod Handlers
pub mod Quota
pub mod Subscribers
pub mod Slipping
pub mod Messages
pub mod Failing
pub mod Typed
pub mod Limits
pub mod Creation
pub mod States
pub mod Defaults
pub mod Contract
pub mod Keeping
pub mod Running
pub mod Replying
pub mod Answering
pub mod Accepting
pub mod Routing
use restq.Base.{String, Bool, List, [], ◌∷◌, Option, some, none, less, ◌==◌, if◌then◌else◌}
use restq.Effects.{Effect, get}
use restq.Multimap.{Multimap, insert, has, equal_range}
use restq.Query.{
  Query, of_session, set_session, set_index, set_limit, set_keys, set_fields, set_inclusive_filters,
  set_exclusive_filters, set_exclusive_filter,
}
use restq.Resource.{Resource, Resources}
use restq.Rule.{accept_ranges}
use restq.Session.{Session}

-- `Query( session )` for resources of a type.
unfoldable pub typed_query : String → Session → Query
typed_query type s = set_exclusive_filter "type" type (of_session s)

-- The query with what the session's rules made of the request, for resources of a type.
unfoldable pub restored : String → Session → Query → (Query → Effect) → Effect
restored type s q k = get s.paging λ paging. get s.keys λ keys. get s.fields λ fields.
    get s.inclusive_filters λ inclusive. get s.exclusive_filters λ exclusive. k (
      set_exclusive_filter "type" type (
        set_exclusive_filters exclusive (
          set_inclusive_filters inclusive
            (set_fields fields (set_keys keys (set_limit paging.1 (set_index paging.0 q)))))))

-- Accept-Ranges, where the response has none yet.
unfoldable pub with_ranges : Session → Multimap → Multimap
with_ranges s headers =
    if has "Accept-Ranges" s.headers then headers else insert "Accept-Ranges" accept_ranges headers

-- `insert` of a set< string >, as the list of its members in order.
unfoldable pub set_insert : String → List String → List String
set_insert k [] = k ∷ []
set_insert k (j ∷ js) =
    let rest = set_insert k js in
    if k == j then j ∷ js else if less k j then k ∷ j ∷ js else j ∷ rest

unfoldable pub insert_all : List String → List String → List String
unfolding set_insert
insert_all [] keys = keys
insert_all (v ∷ vs) keys = insert_all vs (set_insert v keys)

-- The loop that collects the queues of the resources of a request.
unfoldable pub queue_keys : Resources → List String → List String
unfolding insert_all
queue_keys [] keys = keys
queue_keys (r ∷ rs) keys = queue_keys rs (insert_all (equal_range "queues" r) keys)
