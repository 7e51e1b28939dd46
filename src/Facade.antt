-- ===== src/Facade.antt =====
-- source/corvusoft/restq/exchange.cpp, and ExchangeImpl::start and log of detail/exchange_impl.cpp:
-- what the exchange calls of its service, repository, logger and formats, in order. An object behind
-- a pointer is a number, `none` the null pointer. Which calls throw is given from outside.
pub mod Setting
pub mod Dispatching
pub mod Running
pub mod Example
use Prim.Native.String.{◌++◌ as join}
use restq.Base.{
  ℕ, String, Bool, true, false, not, ◌&&◌, List, [], ◌∷◌, ◌++◌, Option, none, some, ◌==◌, less, map,
  if◌then◌else◌,
}
use restq.Dispatch.{pending, suspended}
use restq.Effects.{Level}
use restq.Exchange.Routing.{Published, published}

-- The calls. `set_default_header` is one on the settings of the service.
pub data Call : Type 0 where
  stop_service : Call
  stop_repository : ℕ → Call
  stop_logger : ℕ → Call
  write_log : ℕ → Level → String → Call
  start_logger : ℕ → ℕ → Call
  give_logger : (repository logger : ℕ) → Call
  give_format_logger : (format logger : ℕ) → Call
  start_repository : (repository settings : ℕ) → Call
  set_signal_handler : (signal handler : ℕ) → Call
  set_default_header : String → String → Call
  -- paths in any case; port, root, limits, address, timeout and TLS as the settings have them
  copy_settings : ℕ → Call
  -- the four error handlers
  set_error_handlers : Call
  -- the handler logs, and calls that of the program where there is one
  call_when_ready : Option ℕ → Call
  add_rules : Call
  publish : Published → Call
  -- DispatchImpl::set_logger, set_service and set_repository
  give_dispatcher_logger : Option ℕ → Call
  give_dispatcher_service : Call
  give_dispatcher_repository : ℕ → Call
  -- a round of the dispatcher for a status: at once, or each so many seconds
  schedule : String → Option ℕ → Call
  start_service : Call

pub data Exception : Type 0 where
  runtime_error : String → Exception
  invalid_argument : String → Exception
  -- what a call has thrown
  foreign : Exception

-- The members of ExchangeImpl that the program sets.
pub record Exchange : Type 0 where
  pub logger : Option ℕ
  pub repository : Option ℕ
  pub settings : Option ℕ
  pub ready_handler : Option ℕ
  pub formats : List (String × ℕ)

pub record Outcome : Type 0 where
  pub exchange : Exchange
  pub calls : List Call
  pub thrown : Option Exception

-- `log` catches whatever the logger throws.
abbrev pub is_caught : Call → Bool
is_caught (Call.write_log l level message) = true
is_caught _ = false

-- The calls one after the other, up to the first that throws.
unfoldable pub perform : (Call → Bool) → List Call → List Call × Option Exception
perform throws [] = ([], none)
perform throws (c ∷ cs) =
    let rest = perform throws cs in
    if throws c && not (is_caught c) then (c ∷ [], some Exception.foreign) else (c ∷ rest.0, rest.1)

-- ExchangeImpl::log
unfoldable pub log : Exchange → Level → String → List Call
log e level message = elim e.logger [ none ↦ [] | some l ↦ Call.write_log l level message ∷ [] ]

-- The constructor makes the service, so that it is there.
unfoldable pub stop_calls : Exchange → List Call
unfolding log
stop_calls e =
    Call.stop_service
    ∷ ((elim e.repository [ none ↦ [] | some r ↦ Call.stop_repository r ∷ [] ]) ++ (elim e.logger [
      | none ↦ []
      | some l ↦ log e Level.info "Exchange halted." ++ Call.stop_logger l ∷ []
    ]))

-- Exchange::stop
unfoldable pub stop : (Call → Bool) → Exchange → Outcome
unfolding perform stop_calls
stop throws e =
    let (calls, thrown) = perform throws (stop_calls e) in
    record { exchange = e; calls = calls; thrown = thrown }

-- The headers that each response has from the service.
abbrev default_headers : List (String × String)
default_headers =
    ("Expires", "0")
    ∷ ("Connection", "close")
    ∷ ("Server", "corvusoft/restq")
    ∷ ("Pragma", "no-cache")
    ∷ ("Cache-Control", "private,max-age=0,no-cache,no-store")
    ∷ ("Vary", "Accept,Accept-Encoding,Accept-Charset,Accept-Language")
    ∷ []

-- ExchangeImpl::start, for the repository and the settings that Exchange::start has seen to.
unfoldable pub start_calls : Exchange → ℕ → ℕ → List Call
unfolding published
start_calls e repository settings =
    map (λ h. Call.set_default_header h.0 h.1) default_headers
    ++ (Call.copy_settings settings
        ∷ Call.set_error_handlers
        ∷ Call.call_when_ready e.ready_handler
        ∷ Call.add_rules
        ∷ (map Call.publish published
            ++ (Call.give_dispatcher_logger e.logger
                ∷ Call.give_dispatcher_service
                ∷ Call.give_dispatcher_repository repository
                ∷ Call.schedule pending none
                ∷ Call.schedule suspended (some 1)
                ∷ Call.start_service
                ∷ [])))

-- What a logger is started for and given to.
unfoldable pub logger_calls : Option ℕ → List (String × ℕ) → ℕ → ℕ → List Call
logger_calls none formats repository settings = []
logger_calls (some l) formats repository settings =
    Call.start_logger l settings
    ∷ Call.give_logger repository l
    ∷ map (λ (f : String × ℕ). Call.give_format_logger f.1 l) formats

abbrev pub settings_of : ℕ → Option ℕ → ℕ
settings_of fresh none = fresh
settings_of fresh (some settings) = settings

-- Exchange::start for a repository; `fresh` are the settings made where none are given.
unfoldable pub start_with : (Call → Bool) → ℕ → Option ℕ → Exchange → Option ℕ → Outcome
unfolding perform start_calls logger_calls
start_with throws fresh given e none = record {
  exchange = e;
  calls = [];
  thrown = some (
      Exception.runtime_error
        "The exchange is incapable of performing any operations until a repository is supplied.");
}
start_with throws fresh given e (some repository) =
    let settings = settings_of fresh given in
    let e' = record e { settings = some settings } in
    let done = perform throws (
      logger_calls e.logger e.formats repository settings
      ++ (Call.start_repository repository settings ∷ start_calls e' repository settings)) in
    record { exchange = e'; calls = done.0; thrown = done.1 }

-- Exchange::start
unfoldable pub start : (Call → Bool) → ℕ → Option ℕ → Exchange → Outcome
unfolding start_with
start throws fresh given e = start_with throws fresh given e e.repository

-- What is logged of a stop that has thrown.
abbrev after_stop : Outcome → String → List Call
after_stop o message = elim o.thrown [
  | none ↦ o.calls
  | some x ↦ o.calls ++ log o.exchange Level.warning message
]

-- Exchange::restart
unfoldable pub restart : (Call → Bool) → ℕ → Option ℕ → Exchange → Outcome
unfolding stop start log
restart throws fresh given e =
    let o = start throws fresh given e in
    record o { calls = after_stop (stop throws e) "Exchange failed graceful reboot." ++ o.calls }

-- Exchange::~Exchange
unfoldable pub wind_down : (Call → Bool) → Exchange → List Call
unfolding stop log
wind_down throws e = after_stop (stop throws e) "Exchange failed to gracefully wind down."
