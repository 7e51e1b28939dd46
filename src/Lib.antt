-- ===== src/Lib.antt =====
-- A model of RestQ: a message exchange over HTTP, with queues, subscriptions and messages that
-- it keeps in a repository and dispatches to subscribers.
--
-- The parts and how they interact:
-- - Resource, Session, Query: the data (source/corvusoft/restq/resource.hpp, formatter.hpp, query.cpp,
--   detail/query_impl.hpp). A resource is a Multimap of named properties; a query carries a request
--   to the repository and its answer back.
-- - Multimap, Number, Text, Platform: what the program uses of the C++ library and of restbed. The
--   multimap, to_string and stoul are defined, with the trimming of string.cpp in Text; the rest of
--   restbed, MD5, the date format and std::hash are fields of Platform, and the clock and new keys
--   those of Moment, one for each callback.
-- - Effects: what a handler does, in order: it answers, calls the repository and goes on in the
--   callback (repository.hpp), schedules the dispatcher, or logs. An exception is `raise`, and what is
--   undefined, a step through the end of a container or an overflow of the clock, `fault`.
-- - Validator, Settings, Rule, ErrorHandler: detail/validator_impl.cpp, settings.cpp, the values that
--   detail/rule/*.hpp make, detail/error_handler_impl.cpp.
-- - Exchange: detail/exchange_impl.cpp. Handlers has the requests on queues and subscriptions, Answer
--   their callbacks, Capacity and Quota the limits of queues, Messages the creation of a message with
--   its states, Make the resources that the exchange makes.
-- - Ruleset: the rules that a request passes before its handler (detail/rule/*.hpp), those for headers
--   in Headers and for parameters in Parameters, in the order that setup_ruleset gives them.
-- - Dispatch: detail/dispatch_impl.cpp, the rounds that claim a message state, send the message to
--   the subscriber and settle the state; Message has the request that is sent.
-- - Exchange/Routing: the resources that the exchange publishes, with their rules and the handler of
--   each method; Exchange/Contract says what a repository owes the handlers, and they a request.
--   Exchange/Running runs a handler with a repository (repository.hpp, its four operations as functions
--   of its state), and Exchange/Keeping is about what Stl does of that contract.
-- - Workers: the handlers and the rounds of the dispatcher as tasks that the workers of the service run
--   in any order on the repository Stl, a step at a time; Step and Reach are the relations.
-- - Facade: exchange.cpp, with start and log of detail/exchange_impl.cpp: the calls that each member
--   function makes, in order, up to the first that throws. Facade/Setting has those that set
--   the exchange up, Facade/Dispatching the static members of
--   DispatchImpl, which the calls of start set, and Facade/Example the program of example.cpp.
-- - Json: example/exchange/source/json_formatter.cpp, over a record of what it uses of its library.
-- - Stl: example/exchange/source/stl_repository.cpp, the repository that keeps a list.
-- The functions keep the names of the source, methods without their class; a lambda has a name of
-- its own. The theorems stand in the modules under the component.
--
-- How things are represented. A byte is a character, so Bytes and std::string are both String, and
-- to_string and to_bytes of the source's String are the identity. String::format is concatenation,
-- without its stop at a NUL. An HTTP version is counted in tenths. A set is the list of its members
-- in order. A value that no rule has kept in a session is none, and reading it raises. The settings
-- are those of restbed with what it documents of get_property and set_property as hypotheses. Seconds
-- of a time are numbers; only the time of redelivery is checked against what the
-- clock holds. A number of 64 bits is a number with the bound written out where the source reads one. Loops are structural recursion; only to_string runs on fuel, one
-- more than its number, and a number has no more digits than that.
-- The body of a request is there from the start, where the source fetches it in ContentLength.
-- The repository calls back before it returns. The lock of the repository is not a state: a
-- creation is one step, a read of Workers two, since the lock is given up before the related resources
-- are looked for, and an update or deletion three, of which the last writes. A comparison of Stl or Quota with a property that is not there fails, where the source
-- would read through the end of the multimap.
--
-- A request is run through the rules of the service, those of its resource and the handler of its
-- method in this order, as restbed documents it; which resource a path belongs to is not modelled.
-- Values and documents of JSON are those of the library that the example uses, given as a record with
-- its laws, and a `long` in them is the text that to_string prints of it.
--
-- Not modelled: the loggers, which only write; what restbed does itself, and the other names for its
-- types.
pub mod Base
pub mod Number
pub mod Text
pub mod Multimap
pub mod Resource
pub mod Session
pub mod Query
pub mod Stl
pub mod Platform
pub mod Validator
pub mod Effects
pub mod Rule
pub mod ErrorHandler
pub mod Ruleset
pub mod Dispatch
pub mod Settings
pub mod Exchange
pub mod Json
pub mod Facade
pub mod Workers
mod Tests
