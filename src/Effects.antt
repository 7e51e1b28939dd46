-- ===== src/Effects.antt =====
-- What a handler does, in order. A handler answers its session, asks the repository and goes on in
-- a callback, schedules a round of the dispatcher, or logs. Between a request to the repository and
-- its callback other handlers may run: each callback gets the moment at which it is called.
use restq.Base.{ℕ, String, List, Option}
use restq.Multimap.{Multimap}
use restq.Platform.{Moment}
use restq.Query.{Query}
use restq.Resource.{Resource, Resources}

-- `session->close( status, body, headers )`; without a body `none`.
pub record Response : Type 0 where
  pub status : ℕ
  pub body : Option String
  pub headers : Multimap

-- The request that `Http::sync` sends to a subscriber: `headers` as given to `set_headers`, and the
-- calls of `set_query_parameter`.
pub record Delivery : Type 0 where
  pub uri : String
  pub body : String
  pub headers : Multimap
  pub parameters : List (String × String)
  -- the later calls of `set_header`, in order
  pub properties : List (String × String)

pub data Level : Type 0 where
  info warning error : Level

pub data Effect : Type 0 where
  -- the callback returns
  done : Effect
  -- an exception leaves the callback
  raise : Effect
  -- the callback goes through the end of a container: undefined behaviour
  fault : Effect
  close : Response → Effect → Effect
  log : Level → Effect → Effect
  -- `m_service->schedule( bind( DispatchImpl::route, status ) )`
  schedule : String → Effect → Effect
  create : Resources → Query → (Moment → Query → Effect) → Effect
  read : Query → (Moment → Query → Effect) → Effect
  update : Resource → Query → (Moment → Query → Effect) → Effect
  destroy : Query → (Moment → Query → Effect) → Effect
  -- the status code of the subscriber's response
  deliver : Delivery → (Moment → ℕ → Effect) → Effect

-- The rest of a handler, given a value that the session keeps; `get` of one not set throws.
abbrev pub get {ℓ} : {A : Type ℓ} → Option A → (A → Effect) → Effect
get Option.none k = raise
get (Option.some a) k = k a

-- The rest of a handler, given what an iterator that must not be the end points at.
abbrev pub at {ℓ} : {A : Type ℓ} → Option A → (A → Effect) → Effect
at Option.none k = fault
at (Option.some a) k = k a
