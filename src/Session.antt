-- ===== src/Session.antt =====
-- The session of restbed as the exchange sees it: the request, the values that the rules keep under
-- a name with `session->set`, and the response headers. A value that no rule has set is `none`.
-- The formatter is the interface of source/corvusoft/restq/formatter.hpp.
use restq.Base.{ℕ, String, Bool, List, Option, none, []}
use restq.Multimap.{Multimap}
use restq.Resource.{Resources}

-- `parse` is called nowhere, and `set_logger` when the exchange starts.
pub record Formatter : Type 0 where
  pub try_parse : String → Option Resources
  pub compose : Resources → Bool → String
  pub media_type : String

-- The version is counted in tenths: 10 is HTTP/1.0.
pub record Request : Type 0 where
  pub method : String
  pub path : String
  pub version : ℕ
  pub protocol : String
  pub headers : Multimap
  pub query_parameters : Multimap
  pub path_parameters : Multimap
  pub body : String

pub record Session : Type 0 where
  pub request : Request
  pub origin : String
  pub headers : Multimap
  pub echo : Option Bool
  pub style : Option Bool
  pub accept_format : Option Formatter
  pub content_format : Option Formatter
  pub accept : Option String
  pub charset : Option String
  pub host : Option String
  pub content_length : Option ℕ
  pub paging : Option (ℕ × ℕ)
  pub keys : Option (List String)
  pub related : Option String
  pub filters : Option Multimap
  pub inclusive_filters : Option Multimap
  pub exclusive_filters : Option Multimap
  pub fields : Option (List String)

-- A session as restbed opens it, before any rule has run.
abbrev pub opened : Request → String → Session
opened request origin = record {
  request = request;
  origin = origin;
  headers = [];
  echo = none;
  style = none;
  accept_format = none;
  content_format = none;
  accept = none;
  charset = none;
  host = none;
  content_length = none;
  paging = none;
  keys = none;
  related = none;
  filters = none;
  inclusive_filters = none;
  exclusive_filters = none;
  fields = none;
}
