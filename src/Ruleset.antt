-- ===== src/Ruleset.antt =====
-- The rules that the exchange gives its service, in the order of their priorities
-- (source/corvusoft/restq/detail/exchange_impl.cpp, setup_ruleset). A rule takes the session and the
-- callback: it calls it with the session as it leaves it, or answers. Where the condition of a rule
-- is false, restbed goes on to the next one.
pub mod Parameters
pub mod Headers
pub mod Preparing
use restq.Base.{String, Bool, List}
use restq.Effects.{Effect}
use restq.Platform.{Platform, Moment}
use restq.Session.{Session, Formatter}
use Parameters.{echo, style, filters, fields, paging}
use Headers.{
  accept, accept_charset, accept_encoding, accept_language, version, host, expect, content_length,
  content_md5, range,
}

unfoldable pub setup_ruleset :
    Platform → Moment → List (String × Formatter) → Session → (Session → Effect) → Effect
setup_ruleset p m formats s k = echo p s λ s. style p s λ s. accept p m formats s λ s.
    accept_charset p m s λ s. accept_encoding p m s λ s. accept_language p m s λ s.
      version p m s λ s. host p m s λ s. expect p m s λ s.
        content_length p m s
          λ s. content_md5 p m s λ s. range p s λ s. filters p s λ s. fields p s λ s. paging p s k
