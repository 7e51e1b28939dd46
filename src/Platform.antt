-- ===== src/Platform.antt =====
-- What restq takes from elsewhere. `Platform` holds the functions of restbed, of its URI and
-- of the C and C++ libraries that the model does not define; `Moment` is what time and chance
-- give one callback: the clock, and the identifiers that /dev/random would produce in turn.
use restq.Base.{ℕ, String, Char, Bool, List}
use restq.Multimap.{Multimap}
use restq.Session.{Request}

pub record Platform : Type 0 where
  -- restbed::String
  pub lowercase : String → String
  pub split : String → Char → List String
  -- restbed::Uri
  pub uri_is_valid : String → Bool
  pub uri_scheme : String → String
  -- restbed::Request; a header that is not there reads as the empty text
  pub has_header : Request → String → Bool
  pub get_header : Request → String → String
  pub header_number : Request → String → ℕ → ℕ
  pub query_parameters : Request → String → Multimap
  pub query_number : Request → String → ℕ → ℕ
  pub has_path_parameter : Request → String → Bool
  pub get_path_parameter : Request → String → String
  -- std::regex_match, text and pattern, as it is and with the flag icase
  pub regex_match : String → String → Bool
  pub regex_match_icase : String → String → Bool
  -- md5_init, md5_append, md5_finish: sixteen bytes
  pub md5_digest : String → List ℕ
  -- gmtime_r and strftime, with the format that date.hpp gives
  pub format_date : ℕ → String
  -- std::hash< string >
  pub hash : String → ℕ

pub record Moment : Type 0 where
  pub time : ℕ
  pub uuid : ℕ → String
