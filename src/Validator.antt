-- ===== src/Validator.antt =====
-- source/corvusoft/restq/detail/validator_impl.cpp
pub mod Laws
use restq.Base.{
  ℕ, zero, suc, String, Char, code, Bool, true, false, not, ◌&&◌, ◌||◌, List, [], ◌∷◌, Option, none,
  some, ◌==◌, leb, eqb, any, if◌then◌else◌, ◌>>=◌, length,
}
use restq.Multimap.{Multimap, equal_range, has, value_at}
use restq.Number.{stoul}
use restq.Platform.{Platform}
use restq.Resource.{Resource, queue_type, subscription_type}

abbrev pub member : String → List String → Bool
member name names = any (λ n. n == name) names

abbrev pub is_hex : Char → Bool
is_hex c =
    (leb b'0' (code c) && leb (code c) b'9')
    || (leb b'a' (code c) && leb (code c) b'f')
    || (leb b'A' (code c) && leb (code c) b'F')

-- What follows `n` hexadecimal digits.
unfoldable pub hex_run : ℕ → String → Option String
hex_run zero s = some s
hex_run (suc n) String.[] = none
hex_run (suc n) (String.◌∷◌ c s) = let rest = hex_run n s in if is_hex c then rest else none

unfoldable pub dash : String → Option String
dash String.[] = none
dash (String.◌∷◌ c s) = if eqb (code c) b'-' then some s else none

abbrev is_end : String → Option String
is_end String.[] = some ""
is_end (String.◌∷◌ c s) = none

abbrev pub is_some : Option String → Bool
is_some none = false
is_some (some s) = true

-- regex_match with `key_pattern`: groups of 8, 4, 4, 4 and 12 digits.
unfoldable pub matches_key : String → Bool
unfolding hex_run dash
matches_key s = is_some (do
  a ← hex_run 8 s
  b ← dash a
  c ← hex_run 4 b
  d ← dash c
  e ← hex_run 4 d
  f ← dash e
  g ← hex_run 4 f
  h ← dash g
  i ← hex_run 12 h
  is_end i)

-- A test of the first value under a name, where the name is there.
abbrev pub refuses : (String → Bool) → String → Resource → Bool
refuses test name r =
    if has name r then elim (value_at name r) [ none ↦ true | some v ↦ test v ] else false

unfoldable pub has_invalid_key : Resource → Bool
has_invalid_key r = refuses (λ v. not (matches_key v)) "key" r

abbrev pub reserved_words : List String
reserved_words = "type" ∷ "origin" ∷ "created" ∷ "revision" ∷ "modified" ∷ []

unfoldable pub has_reserved_create_fields : Resource → Bool
has_reserved_create_fields r = any (λ e. member e.0 reserved_words) r

unfoldable pub has_reserved_update_fields : Resource → Bool
has_reserved_update_fields r = has "key" r || has_reserved_create_fields r

-- `stoul` throws.
abbrev pub no_number : String → Bool
no_number v = elim (stoul v) [ none ↦ true | some n ↦ false ]

-- The limits of a queue, in the order of the tests.
abbrev pub limits : List String
limits =
    "message-limit" ∷ "message-size-limit" ∷ "subscription-limit" ∷ "max-delivery-attempts"
    ∷ "redelivery-interval" ∷ []

module _ (p : Platform) where
  unfoldable pub bad_endpoint : String → Bool
  bad_endpoint endpoint = not (p.uri_is_valid endpoint) || not (p.uri_scheme endpoint == "http")

  -- The two tests of the source are joined by `or`.
  unfoldable pub bad_state : String → Bool
  bad_state value =
      let state = p.lowercase value in not (state == "reachable") || not (state == "unreachable")

  unfoldable pub bad_subscription : Resource → Bool
  unfolding bad_endpoint bad_state
  bad_subscription r =
      if not (eqb (length (equal_range "endpoint" r)) 1)
      then true
      else if refuses bad_endpoint "endpoint" r
      then true
      else refuses bad_state "state" r

  unfoldable pub bad_queue : Resource → Bool
  bad_queue r =
      any (λ name. refuses no_number name r) limits
      || refuses (λ v. not (p.lowercase v == "pub-sub")) "pattern" r

  unfoldable pub has_invalid_create_fields : Resource → String → Bool
  unfolding bad_subscription bad_queue
  has_invalid_create_fields r type =
      if type == subscription_type
      then bad_subscription r
      else if type == queue_type
      then bad_queue r
      else false

  unfoldable pub has_invalid_update_fields : Resource → String → Bool
  unfolding bad_endpoint
  has_invalid_update_fields r type =
      if type == subscription_type
      then refuses bad_endpoint "endpoint" r
      else if type == queue_type
      then has_invalid_create_fields r type
      else false

abbrev pub invalid_headers : List String
invalid_headers =
    "upgrade" ∷ "connection" ∷ "te" ∷ "trailer" ∷ "transfer-encoding" ∷ "expect" ∷ "range"
    ∷ "retry-after" ∷ "allow" ∷ "content-length" ∷ "content-location" ∷ "content-md5" ∷ "from"
    ∷ "host" ∷ "via" ∷ "server" ∷ "referer" ∷ "date" ∷ "location" ∷ "pragma" ∷ "cache-control"
    ∷ "age" ∷ "etag" ∷ "vary" ∷ "expires" ∷ "last-modified" ∷ "authorization" ∷ "www-authenticate"
    ∷ "proxy-authorization" ∷ "proxy-authenticate" ∷ "accept" ∷ "accept-charset" ∷ "accept-encoding"
    ∷ "accept-language" ∷ "accept-ranges" ∷ "if-match" ∷ "if-modified-since" ∷ "if-none-match"
    ∷ "if-range" ∷ "if-unmodified-since" ∷ []

-- The name of a request header; its value is not looked at.
unfoldable pub is_valid_forwarding_header : Platform → String → Bool
is_valid_forwarding_header p name = not (member (p.lowercase name) invalid_headers)
