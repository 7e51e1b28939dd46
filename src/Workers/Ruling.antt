-- ===== src/Workers/Ruling.antt =====
-- The rules of the service (detail/rule/*.hpp) write nothing, and leave a clean session clean.
use restq.Base.{
  String, Bool, not, ◌||◌, ◌&&◌, List, [], ◌∷◌, some, ◌==◌, eqb, ◌≡◌, subst, sym, All,
  if◌then◌else◌,
}
use mathlib.Core.Option.{some-injective}
use restq.Effects.{Effect}
use restq.Exchange.Routing.{Rule, apply_rule, apply_rules}
use restq.Multimap.Laws.{IsSorted}
use restq.Platform.{Platform, Moment}
use restq.Resource.{Resources}
use restq.Ruleset.{setup_ruleset}
use restq.Ruleset.Headers.{
  accept, accept_charset, accept_encoding, accept_language, version, host, expect, content_length,
  has_content, is_plain, host_pattern, content_md5, content_format, content_type, content_encoding,
  range,
}
use restq.Ruleset.Parameters.{echo, style, filters, fields, paging, keys, key}
use restq.Rule.{make_checksum}
use restq.Text.{all_digits}
use restq.Session.{Session, Formatter}
use restq.Workers.Closing.{
  WritesLawful-if, WritesLawful-bad_request, WritesLawful-not_acceptable,
  WritesLawful-unsupported_media_type, WritesLawful-http_version_not_supported,
  WritesLawful-expectation_failed, WritesLawful-length_required,
}
use restq.Workers.Requests.{IsClean}
use restq.Workers.Writing.{WritesLawful}

-- What a format makes of a text is in order, as a multimap is.
abbrev pub IsOrdering : Formatter → Type 0
IsOrdering f = (text : String) (rs : Resources) → f.try_parse text ≡ some rs → All IsSorted rs

-- The same as a record, which shows what the code is.
pub record IsHarmless (e : Effect) : Type 0 where
  pub lawful : WritesLawful e

IsHarmless-if :
    (b : Bool) (x y : Effect) → IsHarmless x → IsHarmless y → IsHarmless (if b then x else y)
IsHarmless-if b x y h k = record { lawful = WritesLawful-if b x y h.lawful k.lawful }

pub harmless : (e : Effect) → WritesLawful e → IsHarmless e
harmless e h = record { lawful = h }

abbrev pub Continues : (Session → Effect) → Type 0
Continues k = (s : Session) → IsClean s → IsHarmless (k s)

module _ (p : Platform) (m : Moment) (k : Session → Effect) (h : Continues k) where
  accept-Continues : (formats : List (String × Formatter)) → Continues (λ s. accept p m formats s k)
  unfolding accept
  accept-Continues [] s c = harmless _ (WritesLawful-not_acceptable p m _ s)
  accept-Continues ((name, format) ∷ formats) s c =
      IsHarmless-if _ _ _ (h _ c) (accept-Continues formats s c)

  accept_charset-Continues : Continues (λ s. accept_charset p m s k)
  unfolding accept_charset
  accept_charset-Continues s c =
      IsHarmless-if
        (not (p.has_header s.request "Accept-Charset")
          || (p.lowercase (p.get_header s.request "Accept-Charset") == "utf-8"
              || p.lowercase (p.get_header s.request "Accept-Charset") == "*"))
        _ _ (h _ c) (harmless _ (WritesLawful-not_acceptable p m _ _))

  accept_encoding-Continues : Continues (λ s. accept_encoding p m s k)
  unfolding accept_encoding
  accept_encoding-Continues s c =
      IsHarmless-if
        (not (p.has_header s.request "Accept-Encoding")
          || is_plain (p.lowercase (p.get_header s.request "Accept-Encoding")))
        _ _ (h _ c) (harmless _ (WritesLawful-not_acceptable p m _ s))

  accept_language-Continues : Continues (λ s. accept_language p m s k)
  unfolding accept_language
  accept_language-Continues s c =
      IsHarmless-if
        (not (p.has_header s.request "Accept-Language")
          || (p.lowercase (p.get_header s.request "Accept-Language") == "en"
              || p.lowercase (p.get_header s.request "Accept-Language") == "en_gb"
              || p.lowercase (p.get_header s.request "Accept-Language") == "*"))
        _ _ (h _ c) (harmless _ (WritesLawful-not_acceptable p m _ s))

  version-Continues : Continues (λ s. version p m s k)
  unfolding version
  version-Continues s c =
      IsHarmless-if (not (eqb s.request.version 10) && not (eqb s.request.version 11)) _ _
        (harmless _ (WritesLawful-http_version_not_supported p m _ s)) (h _ c)

  host-Continues : Continues (λ s. host p m s k)
  unfolding host
  host-Continues s c =
      IsHarmless-if (not (p.regex_match (p.lowercase (p.get_header s.request "Host")) host_pattern))
        _ _ (harmless _ (WritesLawful-bad_request p m _ _)) (h _ c)

  expect-Continues : Continues (λ s. expect p m s k)
  unfolding expect
  expect-Continues s c =
      IsHarmless-if (p.has_header s.request "Expect") _ _
        (harmless _ (WritesLawful-expectation_failed p m _ s)) (h _ c)

  content_length-Continues : Continues (λ s. content_length p m s k)
  unfolding content_length
  content_length-Continues s c =
      IsHarmless-if (not (has_content p s "Content-Length")) _ _ (h _ c) (
        IsHarmless-if
          (p.get_header s.request "Content-Length" == ""
            || not (all_digits (p.get_header s.request "Content-Length")))
          _ _ (harmless _ (WritesLawful-length_required p m _ s)) (h _ c))

  content_md5-Continues : Continues (λ s. content_md5 p m s k)
  unfolding content_md5
  content_md5-Continues s c =
      IsHarmless-if
        (p.has_header s.request "Content-MD5"
          && not (
              make_checksum p s.request.body == p.lowercase (p.get_header s.request "Content-MD5")))
        _ _ (harmless _ (WritesLawful-bad_request p m _ s)) (h _ c)

  content_encoding-Continues : Continues (λ s. content_encoding p m s k)
  unfolding content_encoding
  content_encoding-Continues s c =
      IsHarmless-if
        (not (p.has_header s.request "Content-Encoding")
          || is_plain (p.lowercase (p.get_header s.request "Content-Encoding")))
        _ _ (h _ c) (harmless _ (WritesLawful-unsupported_media_type p m _ s))

  range-Continues : Continues (λ s. range p s k)
  unfolding range
  range-Continues s c = IsHarmless-if (p.has_header s.request "Range") _ _ (h _ c) (h _ c)

  key-Continues : Continues (λ s. key p s k)
  unfolding key
  key-Continues s c = IsHarmless-if (p.has_path_parameter s.request "key") _ _ (h _ c) (h _ c)

  content_format-Continues :
      (formats : List (String × Formatter))
      → All (λ e. IsOrdering e.1) formats
      → Continues (λ s. content_format p m formats s k)
  unfolding content_format
  content_format-Continues [] a s c = harmless _ (WritesLawful-unsupported_media_type p m _ s)
  content_format-Continues ((name, format) ∷ formats) (a, as') s (e, c) =
      IsHarmless-if (p.regex_match_icase (p.get_header s.request "Content-Type") name) _ _
        ((h _ (
          e,
          λ f text rs q parsed. a text rs (
              subst (λ (g : Formatter). g.try_parse text ≡ some rs) (sym (some-injective _ _ q))
                parsed),
        )))
        (content_format-Continues formats as' s (e, c))

  content_type-Continues :
      (formats : List (String × Formatter))
      → All (λ e. IsOrdering e.1) formats
      → Continues (λ s. content_type p m formats s k)
  unfolding content_type
  content_type-Continues formats a s c =
      IsHarmless-if (has_content p s "Content-Type") _ _ (content_format-Continues formats a s c)
        (h _ c)

module _ (p : Platform) (m : Moment) (formats : List (String × Formatter)) where
  -- The rules of every request.
  pub setup_ruleset-Continues :
      (k : Session → Effect) → Continues k → Continues (λ s. setup_ruleset p m formats s k)
  unfolding setup_ruleset echo style filters fields paging
  setup_ruleset-Continues k h s c =
      accept-Continues p m _
        (accept_charset-Continues p m _ (
          accept_encoding-Continues p m _ (
            accept_language-Continues p m _ (
              version-Continues p m _ (
                host-Continues p m _ (
                  expect-Continues p m _ (
                    content_length-Continues p m _
                      (content_md5-Continues p m _ (range-Continues p m _ λ s c. h _ c)))))))))
        formats _ c

  -- Those of a resource.
  pub apply_rules-Continues :
      (rules : List Rule) (k : Session → Effect)
      → All (λ e. IsOrdering e.1) formats
      → Continues k
      → Continues (λ s. apply_rules p m formats rules s k)
  unfolding apply_rules apply_rule keys
  apply_rules-Continues [] k a h = h
  apply_rules-Continues (Rule.key_rule ∷ rules) k a h =
      key-Continues p m _ (apply_rules-Continues rules k a h)
  apply_rules-Continues (Rule.keys_rule ∷ rules) k a h =
      λ s c. apply_rules-Continues rules k a h _ c
  apply_rules-Continues (Rule.content_type_rule ∷ rules) k a h =
      content_type-Continues p m _ (apply_rules-Continues rules k a h) formats a
  apply_rules-Continues (Rule.content_encoding_rule ∷ rules) k a h =
      content_encoding-Continues p m _ (apply_rules-Continues rules k a h)
