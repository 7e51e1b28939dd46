-- ===== src/Query.antt =====
-- source/corvusoft/restq/query.cpp and detail/query_impl.hpp. A query is shared by the exchange
-- and the repository, which answers by writing to it; each operation gives the query after it.
pub mod Laws
use restq.Base.{ℕ, String, Bool, true, false, not, List, [], ◌∷◌, ◌++◌, Option, none, some, eqb}
use restq.Multimap.{Multimap, insert}
use restq.Number.{size_max}
use restq.Resource.{Resource, Resources}
use restq.Session.{Session}

pub record Query : Type 0 where
  pub error_code : ℕ
  pub related : String
  pub resultset : Resources
  pub fields : List String
  pub keys : List String
  pub session : Option Session
  pub inclusive_filters : Multimap
  pub exclusive_filters : Multimap
  pub index : ℕ
  pub limit : ℕ

-- Query::Query( void )
abbrev pub empty : Query
empty = record {
  error_code = 0;
  related = "";
  resultset = [];
  fields = [];
  keys = [];
  session = none;
  inclusive_filters = [];
  exclusive_filters = [];
  index = 0;
  limit = size_max;
}

-- `if ( value->has( name ) )`, then the assignment.
abbrev pub or_keep {ℓ} : {A : Type ℓ} → Option A → A → A
or_keep none a = a
or_keep (some b) a = b

abbrev pub start_of : Option (ℕ × ℕ) → ℕ → ℕ
start_of none i = i
start_of (some p) i = p.0

abbrev pub stop_of : Option (ℕ × ℕ) → ℕ → ℕ
stop_of none i = i
stop_of (some p) i = p.1

-- Query::Query( const shared_ptr< Session >& ), for a session that is no null pointer.
unfoldable pub of_session : Session → Query
of_session s = record {
  error_code = 0;
  related = or_keep s.related "";
  resultset = [];
  fields = or_keep s.fields [];
  keys = or_keep s.keys [];
  session = some s;
  inclusive_filters = or_keep s.inclusive_filters [];
  exclusive_filters = or_keep s.exclusive_filters [];
  index = start_of s.paging 0;
  limit = stop_of s.paging size_max;
}

unfoldable pub clear : Query → Query
clear q = record q {
  keys = [];
  error_code = 0;
  fields = [];
  related = "";
  session = none;
  resultset = [];
  inclusive_filters = [];
  exclusive_filters = [];
  index = 0;
  limit = size_max;
}

unfoldable pub has_failed : Query → Bool
has_failed q = not (eqb q.error_code 0)

abbrev is_empty {ℓ} : {A : Type ℓ} → List A → Bool
is_empty [] = true
is_empty (x ∷ xs) = false

unfoldable pub has_fields : Query → Bool
has_fields q = not (is_empty q.fields)

unfoldable pub has_resultset : Query → Bool
has_resultset q = not (is_empty q.resultset)

unfoldable pub set_error_code : ℕ → Query → Query
set_error_code code q = record q { error_code = code }

unfoldable pub set_index : ℕ → Query → Query
set_index start q = record q { index = start }

unfoldable pub set_limit : ℕ → Query → Query
set_limit stop q = record q { limit = stop }

unfoldable pub set_resultset : Resources → Query → Query
set_resultset values q = record q { resultset = values }

unfoldable pub set_include : String → Query → Query
set_include relationship q = record q { related = relationship }

unfoldable pub set_key : String → Query → Query
set_key value q = record q { keys = q.keys ++ value ∷ [] }

unfoldable pub set_keys : List String → Query → Query
set_keys values q = record q { keys = values }

unfoldable pub set_fields : List String → Query → Query
set_fields values q = record q { fields = values }

unfoldable pub set_session : Option Session → Query → Query
set_session value q = record q { session = value }

unfoldable pub set_inclusive_filter : String → String → Query → Query
set_inclusive_filter name value q = record q {
  inclusive_filters = insert name value q.inclusive_filters;
}

unfoldable pub set_inclusive_filters : Multimap → Query → Query
set_inclusive_filters values q = record q { inclusive_filters = values }

unfoldable pub set_exclusive_filter : String → String → Query → Query
set_exclusive_filter name value q = record q {
  exclusive_filters = insert name value q.exclusive_filters;
}

unfoldable pub set_exclusive_filters : Multimap → Query → Query
set_exclusive_filters values q = record q { exclusive_filters = values }
