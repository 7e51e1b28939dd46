-- ===== src/Ruleset/Headers.antt =====
-- The rules that test the headers of a request (source/corvusoft/restq/detail/rule: accept.hpp,
-- accept_charset.hpp, accept_encoding.hpp, accept_language.hpp, version.hpp, host.hpp, expect.hpp,
-- content_length.hpp, content_md5.hpp, content_type.hpp, content_encoding.hpp, range.hpp).
use restq.Base.{String, Bool, not, ◌||◌, ◌&&◌, List, [], ◌∷◌, some, ◌==◌, eqb, if◌then◌else◌}
use restq.Effects.{Effect}
use restq.ErrorHandler.{
  not_acceptable, bad_request, expectation_failed, length_required, http_version_not_supported,
  unsupported_media_type,
}
use restq.Multimap.{insert}
use restq.Text.{all_digits}
use restq.Platform.{Platform, Moment}
use restq.Rule.{make_checksum}
use restq.Session.{Session, Formatter}

abbrev pub host_pattern : String
host_pattern =
    "^(([a-zA-Z0-9\\-._~%!$&'()*+,;=]+)(:([a-zA-Z0-9\\-._~%!$&'()*+,;=]+))?@)?([a-zA-Z0-9\\-._~%]+|\\[[a-zA-Z0-9\\-._~%!$&'()*+,;=:]+\\])(:[0-9]+)?$"

abbrev pub is_plain : String → Bool
is_plain encoding = encoding == "" || encoding == "identity" || encoding == "*"

-- `session->set_header`
abbrev set_header : String → String → Session → Session
set_header name value s = record s { headers = insert name value s.headers }

-- The condition that the content rules share.
abbrev pub has_content : Platform → Session → String → Bool
has_content p s name =
    p.lowercase s.request.method == "put"
    || p.lowercase s.request.method == "post"
    || p.has_header s.request name

module _ (p : Platform) (m : Moment) where
  -- The first format whose name, as a pattern, matches the header.
  unfoldable pub accept : List (String × Formatter) → Session → (Session → Effect) → Effect
  accept [] s k =
      not_acceptable p m
        "The exchange is only capable of generating response entities which have content characteristics not acceptable according to the accept header sent in the request."
        s
  accept ((name, format) ∷ formats) s k =
      let rest = accept formats s k in
      if p.regex_match_icase (p.get_header s.request "Accept") name
      then k (record s { accept_format = some format; accept = some format.media_type })
      else rest

  unfoldable pub accept_charset : Session → (Session → Effect) → Effect
  accept_charset s k =
      let s' = record s { charset = some "utf-8" } in
      let charset = p.lowercase (p.get_header s.request "Accept-Charset") in
      if not (p.has_header s.request "Accept-Charset") || (charset == "utf-8" || charset == "*")
      then k s'
      else not_acceptable p m
          "The exchange is only capable of generating response entities which have content characteristics not acceptable according to the accept-charset header sent in the request."
          s'

  unfoldable pub accept_encoding : Session → (Session → Effect) → Effect
  accept_encoding s k =
      if not (p.has_header s.request "Accept-Encoding")
        || is_plain (p.lowercase (p.get_header s.request "Accept-Encoding"))
      then k s
      else not_acceptable p m
          "The exchange is only capable of generating response entities which have content characteristics not acceptable according to the accept-encoding header sent in the request."
          s

  unfoldable pub accept_language : Session → (Session → Effect) → Effect
  accept_language s k =
      let language = p.lowercase (p.get_header s.request "Accept-Language") in
      if not (p.has_header s.request "Accept-Language")
        || (language == "en" || language == "en_gb" || language == "*")
      then k s
      else not_acceptable p m
          "The exchange is only capable of generating response entities which have content characteristics not acceptable according to the accept-language header sent in the request."
          s

  unfoldable pub version : Session → (Session → Effect) → Effect
  version s k =
      if not (eqb s.request.version 10) && not (eqb s.request.version 11)
      then http_version_not_supported p m
          "The exchange is only capable of processing request entities which conform to HTTP 1.0 and 1.1 characteristics."
          s
      else k s

  unfoldable pub host : Session → (Session → Effect) → Effect
  host s k =
      let host = p.lowercase (p.get_header s.request "Host") in
      let s' = record s { host = some host } in
      if not (p.regex_match host host_pattern)
      then bad_request p m
          "The exchange is refusing to process the request because it was missing or contained a malformed Host request-header."
          s'
      else k s'

  unfoldable pub expect : Session → (Session → Effect) → Effect
  expect s k =
      if p.has_header s.request "Expect"
      then expectation_failed p m
          "The exchange is refusing to process the request because a request expectation failed; not supported."
          s
      else k s

  -- The body, which is fetched before the callback, is that of the request.
  unfoldable pub content_length : Session → (Session → Effect) → Effect
  content_length s k =
      let value = p.get_header s.request "Content-Length" in
      if not (has_content p s "Content-Length")
      then k s
      else if value == "" || not (all_digits value)
      then length_required p m
          "The exchange refuses to accept the request without a well defined content-length entity header."
          s
      else k (record s { content_length = some (p.header_number s.request "Content-Length" 0) })

  unfoldable pub content_md5 : Session → (Session → Effect) → Effect
  content_md5 s k =
      if p.has_header s.request "Content-MD5"
        && not
            (make_checksum p s.request.body == p.lowercase (p.get_header s.request "Content-MD5"))
      then bad_request p m
          "The exchange is refusing to process the request because the entity-body failed Content-MD5 end-to-end message integrity check."
          s
      else k s

  -- Rules of the resources.
  unfoldable pub content_format : List (String × Formatter) → Session → (Session → Effect) → Effect
  content_format [] s k =
      unsupported_media_type p m
        "The exchange is only capable of processing request entities which have content characteristics not supported according to the content-type header sent in the request."
        s
  content_format ((name, format) ∷ formats) s k =
      let rest = content_format formats s k in
      if p.regex_match_icase (p.get_header s.request "Content-Type") name
      then k (record s { content_format = some format })
      else rest

  unfoldable pub content_type : List (String × Formatter) → Session → (Session → Effect) → Effect
  unfolding content_format
  content_type formats s k =
      if has_content p s "Content-Type" then content_format formats s k else k s

  unfoldable pub content_encoding : Session → (Session → Effect) → Effect
  content_encoding s k =
      if not (p.has_header s.request "Content-Encoding")
        || is_plain (p.lowercase (p.get_header s.request "Content-Encoding"))
      then k s
      else unsupported_media_type p m
          "The exchange is only capable of processing request entities which have content characteristics not supported according to the content-encoding header sent in the request."
          s

unfoldable pub range : Platform → Session → (Session → Effect) → Effect
range p s k =
    if p.has_header s.request "Range" then k (set_header "Accept-Ranges" "none" s) else k s
