-- ===== src/Tests/Working.antt =====
-- The theorems about the workers, on a round of the dispatcher that claims a state.
use restq.Base.{List, [], ◌∷◌, ◌++◌, some, ◌≡◌, refl, sym, ap, subst, All, here, there, true}
use mathlib.Core.Option.{some-injective}
use restq.Dispatch.{pending, inflight, route, route_query, router, claim, claimed}
use restq.Effects.{Effect}
use restq.Exchange.Make.{make_state, make_message}
use restq.Multimap.{insert, equal_range, value_at, lower_bound}
use restq.Query.{
  Query, empty, set_resultset, set_key, set_fields, set_limit, set_exclusive_filter, has_failed,
  has_resultset, has_fields,
}
use restq.Resource.{Resource, Resources, state_type}
use restq.Session.{Session}
use restq.Stl
use restq.Tests.Data.{platform, moment, properties, unset, request, lower, session_of, subscription}
use restq.Tests.Serving.{formats, system}
use restq.Workers.{State, Task, Step, Reach, advance}
use restq.Workers.Crashing.{update_crashes, forged_state}
use restq.Workers.Lawful.{IsLawful}
use restq.Workers.Messages.{make_state-IsLawful}
use restq.Workers.Ruling.{IsOrdering}
use restq.Multimap.Laws.{IsSorted}
use restq.Workers.Statuses.{Arrives, Reach-IsLawful}

abbrev waiting : Resource
waiting = make_state "T1" "Q1" "30" "3" "M1" "S1" "http://a"

abbrev idle : State
idle = record { store = waiting ∷ []; tasks = [] }

-- The query as the round has read it.
abbrev seen : Query
seen = Stl.read lower idle.store (route_query pending)

abbrev first : Task
first = Task.running (route platform pending)

abbrev second : Task
second = Task.running (router platform moment seen)

-- The round and its update, once each has copied what it reads.
abbrev first_copied : Task
first_copied =
    Task.reading (Stl.candidates lower [] idle.store) (route_query pending)
      (λ m q. Task.running (router platform m q))

abbrev sought : Query
sought = set_key "T1" seen

abbrev second_copied : Task
second_copied =
    Task.reading (Stl.candidates lower sought.keys idle.store) (set_fields [] sought) (λ m q.
      Task.updating (("status", inflight) ∷ []) (set_fields sought.fields q)
        (claimed platform "T1"))

abbrev third : Task
third =
    Task.updating (("status", inflight) ∷ []) (Stl.found lower idle.store (set_key "T1" seen))
      (claimed platform "T1")

abbrev with_task : Task → State
with_task a = record { store = idle.store; tasks = a ∷ [] }

-- The state once the round has claimed the message state.
abbrev worked : State
worked = record {
  store = (advance platform moment 202 idle.store third).0;
  tasks = (advance platform moment 202 idle.store third).1 ++ [];
}

first-advance : advance platform moment 202 idle.store first ≡ (idle.store, first_copied ∷ [])
unfolding advance route route_query set_exclusive_filter set_limit
first-advance = refl

first_copied-advance :
    advance platform moment 202 idle.store first_copied ≡ (idle.store, second ∷ [])
unfolding advance Stl.read route_query set_exclusive_filter set_limit
first_copied-advance = refl

second-advance : advance platform moment 202 idle.store second ≡ (idle.store, second_copied ∷ [])
unfolding advance router claim Stl.read Stl.candidates Stl.answer Stl.fields Stl.including Stl.page
    Stl.fill Stl.keeps Stl.exclusive_fails equal_range insert value_at lower_bound lower has_failed
    has_resultset has_fields route_query set_exclusive_filter set_limit set_resultset make_state
second-advance = refl

second_copied-advance :
    advance platform moment 202 idle.store second_copied ≡ (idle.store, third ∷ [])
unfolding advance Stl.found Stl.read set_fields
second_copied-advance = refl

abbrev after : Resources × List Task → State
after (store, tasks) = record { store = store; tasks = [] ++ (tasks ++ []) }

-- The arrival of the round, its read, and the two halves of its update.
round-worked : Reach platform (Arrives platform formats properties unset system) idle worked
round-worked =
    Reach.next {u = with_task third}
      (Reach.next {u = with_task second_copied}
        (Reach.next {u = with_task second}
          (Reach.next {u = with_task first_copied}
            (Reach.next {u = with_task first}
              (Reach.next Reach.here
                (Step.arrive (route platform pending) (Arrives.round pending refl) refl))
              (Step.work moment 202 [] [] first refl (sym (ap after first-advance))))
            (Step.work moment 202 [] [] first_copied refl (sym (ap after first_copied-advance))))
          (Step.work moment 202 [] [] second refl (sym (ap after second-advance))))
        (Step.work moment 202 [] [] second_copied refl (sym (ap after second_copied-advance))))
      (Step.work moment 202 [] [] third refl refl)

formats-IsOrdering : All (λ e. IsOrdering e.1) formats
formats-IsOrdering = ((λ text rs e. subst (All IsSorted) (some-injective _ _ e) ((tt, tt), tt)), tt)

Reach-IsLawful_example : All IsLawful worked.store
Reach-IsLawful_example =
    Reach-IsLawful platform formats properties unset system idle worked formats-IsOrdering
      (make_state-IsLawful "T1" "Q1" "30" "3" "M1" "S1" "http://a", tt) refl round-worked

-- The subscription is deleted between the two halves of an update.
abbrev changed : Query
changed = set_resultset (subscription ∷ []) empty

update_crashes_example :
    advance platform moment 202
      (waiting ∷ [])
      (Task.updating (("endpoint", "http://b") ∷ []) changed (claimed platform "S1"))
    ≡ (waiting ∷ [], Task.crashed ∷ [])
unfolding set_resultset has_failed equal_range lower Stl.key_of value_at lower_bound make_state
    insert
update_crashes_example =
    update_crashes platform moment 202 (waiting ∷ []) [] (("endpoint", "http://b") ∷ []) changed
      (claimed platform "S1") subscription "S1" [] refl refl
      ((refl, (refl, (refl, tt))), ((refl, (refl, tt)), ((refl, tt), (tt, tt)))) refl (refl, tt)
      (refl, tt)

abbrev forging : Session
forging = record (session_of []) {
  request = record request { headers = ("status", pending) ∷ ("type", state_type) ∷ [] };
  filters = some [];
}

abbrev keep : Resource → Effect
keep r = Effect.create (r ∷ []) empty (λ m q. Effect.done)

forged_state_example :
    (message : Resource) × (make_message platform moment 0 forging keep ≡ keep message)
    × (Stl.keeps
          (route_query pending).inclusive_filters
          (route_query pending).exclusive_filters
          message
        ≡ true)
unfolding lower
forged_state_example =
    forged_state platform moment 0 forging [] keep refl refl refl (there (here refl)) (here refl)
