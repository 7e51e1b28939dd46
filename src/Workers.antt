-- ===== src/Workers.antt =====
-- The exchange at work: the handlers of requests and the rounds of the dispatcher, which the workers
-- of the service run one step at a time, on the repository of the example (exchange_impl.cpp,
-- dispatch_impl.cpp, stl_repository.cpp). A step is what a task does up to the next point where its
-- thread holds no lock and other tasks may go first.
pub mod Lawful
pub mod Stored
pub mod Writing
pub mod Closing
pub mod Making
pub mod Messages
pub mod Replying
pub mod Requests
pub mod Creating
pub mod Sending
pub mod Ruling
pub mod Statuses
pub mod Crashing
pub mod Rounds
use restq.Base.{ℕ, List, [], ◌∷◌, ◌++◌, Option, none, some, ◌≡◌}
use restq.Dispatch.{route}
use restq.Effects.{Effect}
use restq.Platform.{Platform, Moment}
use restq.Query.{Query, set_fields}
use restq.Resource.{Resource, Resources}
use restq.Stl

-- A read that has copied what it starts from, none where a key is not there, and has not looked for
-- related resources yet goes on with its query. An update between its read and its write, and a
-- deletion between its read and its erasure, have the query as the read hands it over. A crashed task
-- has gone through the end of a container.
pub data Task : Type 0 where
  running : Effect → Task
  reading : Option Resources → Query → (Moment → Query → Task) → Task
  updating : Resource → Query → (Moment → Query → Effect) → Task
  erasing : Query → (Moment → Query → Effect) → Task
  crashed : Task

pub record State : Type 0 where
  pub store : Resources
  pub tasks : List Task

-- What follows the second half of an update or a deletion.
unfoldable pub written :
    Resources → (Query → Effect) → Option (Resources × Query) → Resources × List Task
written store k none = (store, Task.crashed ∷ [])
written store k (some (store', q)) = (store', Task.running (k q) ∷ [])

module _ (p : Platform) where
  -- One step of a task: the store that it leaves, and what it goes on as, with what it schedules. An
  -- exception ends the task.
  unfoldable pub advance : Moment → ℕ → Resources → Task → Resources × List Task
  unfolding written
  advance m code store (Task.running Effect.done) = (store, [])
  advance m code store (Task.running Effect.raise) = (store, [])
  advance m code store (Task.running Effect.fault) = (store, Task.crashed ∷ [])
  advance m code store (Task.running (Effect.close r e)) = (store, Task.running e ∷ [])
  advance m code store (Task.running (Effect.log l e)) = (store, Task.running e ∷ [])
  advance m code store (Task.running (Effect.schedule status e)) =
      (store, Task.running e ∷ Task.running (route p status) ∷ [])
  advance m code store (Task.running (Effect.create rs q k)) =
      let done = Stl.create p.lowercase store rs q in (done.0, Task.running (k m done.1) ∷ [])
  advance m code store (Task.running (Effect.read q k)) =
      let copied = Stl.candidates p.lowercase q.keys store in
      (store, Task.reading copied q (λ m' q'. Task.running (k m' q')) ∷ [])
  advance m code store (Task.running (Effect.update changes q k)) =
      let copied = Stl.candidates p.lowercase q.keys store in
      (
        store,
        Task.reading copied (set_fields [] q)
              (λ m' q'. Task.updating changes (set_fields q.fields q') k)
            ∷ [],
      )
  advance m code store (Task.running (Effect.destroy q k)) =
      let copied = Stl.candidates p.lowercase q.keys store in
      (store, Task.reading copied q (λ m' q'. Task.erasing q' k) ∷ [])
  advance m code store (Task.reading copied q k) =
      (store, k m (Stl.answer p.lowercase store q copied) ∷ [])
  advance m code store (Task.running (Effect.deliver d k)) = (store, Task.running (k m code) ∷ [])
  advance m code store (Task.updating changes q k) =
      written store (k m) (Stl.updated p.lowercase store changes q)
  advance m code store (Task.erasing q k) = written store (k m) (Stl.erased p.lowercase store q)
  advance m code store Task.crashed = (store, Task.crashed ∷ [])

  -- A task arrives, or any one of the tasks makes a step, at any time and with any answer of a
  -- subscriber.
  pub data Step (Arrives : Effect → Type 0) (t u : State) : Type 0 where
    arrive :
        (e : Effect)
        → Arrives e
        → u ≡ record { store = t.store; tasks = Task.running e ∷ t.tasks }
        → Step Arrives t u
    work :
        (m : Moment) (code : ℕ) (before after : List Task) (a : Task)
        → t.tasks ≡ before ++ a ∷ after
        → u ≡ record {
          store = (advance m code t.store a).0;
          tasks = before ++ ((advance m code t.store a).1 ++ after);
        }
        → Step Arrives t u

  pub data Reach (Arrives : Effect → Type 0) (t : State) : State → Type 0 where
    here : Reach Arrives t t
    next : {u v : State} → Reach Arrives t u → Step Arrives u v → Reach Arrives t v
