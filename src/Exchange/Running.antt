-- ===== src/Exchange/Running.antt =====
-- A repository as the exchange sees it (repository.hpp), and a handler run to its end with one.
use restq.Base.{ℕ, String, suc, List, [], ◌∷◌, ◌≡◌, refl, ap, In, true}
use restq.Effects.{Effect, Response, Delivery}
use restq.Exchange.Contract.{Replies, Finds, Creates, Updates, IsSilent, IsClosing}
use restq.Exchange.Answering.Creation.{HasDefaults}
use restq.Exchange.Routing.{Handler, Published, System, published}
use restq.Exchange.Routing.Serving.{serve, takes_key, IsFilled, served-ClosesOnce}
use restq.Platform.{Platform, Moment}
use restq.Session.{Session, Formatter}
use restq.Settings.{Properties}
use restq.Query.{Query}
use restq.Resource.{Resource, Resources}

-- The four operations, each with the query that it hands to the callback.
pub record Repository : Type 1 where
  pub Store : Type 0
  pub create : Store → Resources → Query → Store × Query
  pub read : Store → Query → Store × Query
  pub update : Store → Resource → Query → Store × Query
  pub destroy : Store → Query → Store × Query

-- What the handlers rely on, in every state of the repository.
pub record KeepsContract (repository : Repository) : Type 0 where
  pub creates :
      (s : repository.Store) (rs : Resources) (q : Query)
      → Creates rs q (repository.create s rs q).1
  pub finds : (s : repository.Store) (q : Query) → Finds q (repository.read s q).1
  pub updates :
      (s : repository.Store) (r : Resource) (q : Query) → Updates q (repository.update s r q).1
  pub replies : (s : repository.Store) (q : Query) → Replies q (repository.destroy s q).1

pub data Ending : Type 0 where
  finished thrown undefined : Ending

abbrev answered : Response → List Response × Ending → List Response × Ending
answered r (rs, ending) = (r ∷ rs, ending)

-- The n-th callback runs at `clock n`; what `others n` does to the repository comes before it. A
-- subscriber answers with the status that `subscriber` says.
module _ (repository : Repository) (clock : ℕ → Moment)
    (others : ℕ → repository.Store → repository.Store) (subscriber : Delivery → ℕ) where
  -- The answers that the session gets, and how it ends.
  unfoldable pub run : ℕ → Effect → repository.Store → List Response × Ending
  run n Effect.done s = ([], Ending.finished)
  run n Effect.raise s = ([], Ending.thrown)
  run n Effect.fault s = ([], Ending.undefined)
  run n (Effect.close r e) s = answered r (run n e s)
  run n (Effect.log l e) s = run n e s
  run n (Effect.schedule status e) s = run n e s
  run n (Effect.create rs q k) s =
      let done = repository.create s rs q in run (suc n) (k (clock n) done.1) (others n done.0)
  run n (Effect.read q k) s =
      let done = repository.read s q in run (suc n) (k (clock n) done.1) (others n done.0)
  run n (Effect.update r q k) s =
      let done = repository.update s r q in run (suc n) (k (clock n) done.1) (others n done.0)
  run n (Effect.destroy q k) s =
      let done = repository.destroy s q in run (suc n) (k (clock n) done.1) (others n done.0)
  run n (Effect.deliver d k) s = run (suc n) (k (clock n) (subscriber d)) (others n s)

  run-IsSilent :
      (n : ℕ) (e : Effect) (s : repository.Store) → IsSilent e → run n e s ≡ ([], Ending.finished)
  unfolding run
  run-IsSilent n Effect.done s h = refl
  run-IsSilent n (Effect.log l e) s h = run-IsSilent n e s h
  run-IsSilent n (Effect.schedule status e) s h = run-IsSilent n e s h
  run-IsSilent n Effect.raise s h = absurd h
  run-IsSilent n Effect.fault s h = absurd h
  run-IsSilent n (Effect.close r e) s h = absurd h
  run-IsSilent n (Effect.create rs q k) s h = absurd h
  run-IsSilent n (Effect.read q k) s h = absurd h
  run-IsSilent n (Effect.update r q k) s h = absurd h
  run-IsSilent n (Effect.destroy q k) s h = absurd h
  run-IsSilent n (Effect.deliver d k) s h = absurd h

  run-IsClosing :
      (n : ℕ) (e : Effect) (s : repository.Store)
      → KeepsContract repository
      → IsClosing e
      → (r : Response) × (run n e s ≡ (r ∷ [], Ending.finished))
  unfolding run
  run-IsClosing n Effect.done s c h = absurd h
  run-IsClosing n Effect.raise s c h = absurd h
  run-IsClosing n Effect.fault s c h = absurd h
  run-IsClosing n (Effect.deliver d k) s c h = absurd h
  run-IsClosing n (Effect.close r e) s c h = (r, ap (answered r) (run-IsSilent n e s h))
  run-IsClosing n (Effect.log l e) s c h = run-IsClosing n e s c h
  run-IsClosing n (Effect.schedule status e) s c h = run-IsClosing n e s c h
  run-IsClosing n (Effect.create rs q k) s c h =
      let done = repository.create s rs q in
      run-IsClosing (suc n) (k (clock n) done.1) (others n done.0) c
        (h (clock n) done.1 (c.creates s rs q))
  run-IsClosing n (Effect.read q k) s c h =
      let done = repository.read s q in
      run-IsClosing (suc n) (k (clock n) done.1) (others n done.0) c
        (h (clock n) done.1 (c.finds s q))
  run-IsClosing n (Effect.update r q k) s c h =
      let done = repository.update s r q in
      run-IsClosing (suc n) (k (clock n) done.1) (others n done.0) c
        (h (clock n) done.1 (c.updates s r q))
  run-IsClosing n (Effect.destroy q k) s c h =
      let done = repository.destroy s q in
      run-IsClosing (suc n) (k (clock n) done.1) (others n done.0) c
        (h (clock n) done.1 (c.replies s q))

  -- A request to a published resource, with a method that the resource has a handler for, ends with
  -- exactly one answer to its session, with no exception and without a step through the end of a
  -- container, in every state of a repository that keeps its contract, whatever the other handlers do
  -- to it before each callback. Given are that the defaults of a queue can be read, that the path of a
  -- resource for one has its key, and that no format reads the body as an empty list.
  pub run-serve :
      (p : Platform) (m : Moment) (formats : List (String × Formatter)) (ps : Properties)
      (settings : ps.Store) (system : System) (resource : Published) (method : String)
      (handler : Handler) (session : Session) (n : ℕ) (s : repository.Store)
      → KeepsContract repository
      → HasDefaults p ps settings
      → p.lowercase "PUT" ≡ "put"
      → p.lowercase "POST" ≡ "post"
      → In resource published
      → In (method, handler) resource.handlers
      → session.request.method ≡ method
      → (takes_key resource.rules ≡ true → p.has_path_parameter session.request "key" ≡ true)
      → IsFilled p m formats ps settings system session.request
      → (r : Response) × (run n
            (serve p m formats ps settings system resource.rules handler session)
            s
          ≡ (r ∷ [], Ending.finished))
  run-serve p m formats ps settings system resource method handler session n s contract defaults put
        post i j same key filled =
      run-IsClosing n _ s contract
        (served-ClosesOnce p m formats ps settings system resource method handler session defaults
          put post i j same key filled).closing
