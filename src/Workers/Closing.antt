-- ===== src/Workers/Closing.antt =====
-- Code that only answers writes nothing: what the handlers (error_handler_impl.cpp, exchange_impl.cpp)
-- are made of.
use restq.Base.{ℕ, String, Bool, true, false, List, [], ◌∷◌, Option, none, some, eqb, if◌then◌else◌}
use restq.Effects.{Effect, at, get}
use restq.ErrorHandler.{
  compose, close_with, explain, description, error_headers, method_not_allowed,
  method_not_implemented, conflict, not_found, bad_request, length_required, expectation_failed,
  service_unavailable, unsupported_media_type, request_entity_too_large, http_version_not_supported,
  not_acceptable, internal_server_error, find_and_invoke_for,
}
use restq.Multimap.{Multimap}
use restq.Platform.{Platform, Moment}
use restq.Resource.{Resource, Resources}
use restq.Session.{Session, Formatter}
use restq.Workers.Writing.{WritesLawful}

pub WritesLawful-if :
    (b : Bool) (x y : Effect) → WritesLawful x → WritesLawful y → WritesLawful (if b then x else y)
WritesLawful-if true x y h k = h
WritesLawful-if false x y h k = k

pub WritesLawful-at {ℓ} :
    {A : Type ℓ} (o : Option A) (k : A → Effect)
    → ((a : A) → WritesLawful (k a))
    → WritesLawful (at o k)
WritesLawful-at none k h = tt
WritesLawful-at (some a) k h = h a

pub WritesLawful-get {ℓ} :
    {A : Type ℓ} (o : Option A) (k : A → Effect)
    → ((a : A) → WritesLawful (k a))
    → WritesLawful (get o k)
WritesLawful-get none k h = tt
WritesLawful-get (some a) k h = h a

pub WritesLawful-compose :
    (s : Session) (values : Resources) (k : String → Effect)
    → ((body : String) → WritesLawful (k body))
    → WritesLawful (compose s values k)
WritesLawful-compose s values k h =
    WritesLawful-get s.accept_format _
      λ f. WritesLawful-get s.style _ λ style. h (f.compose values style)

pub WritesLawful-close_with :
    (status : ℕ) (s : Session) (body : String) (headers : Multimap)
    → WritesLawful (close_with status s body headers)
WritesLawful-close_with status s body headers = WritesLawful-get s.echo _ λ echo. tt

module _ (p : Platform) (m : Moment) where
  WritesLawful-explain :
      (status : ℕ) (s : Session) (value : Resource) (more : List (String × String))
      → WritesLawful (explain p m status s value more)
  WritesLawful-explain status s value more =
      WritesLawful-compose s (value ∷ [])
        (λ body. close_with status s body (error_headers p m s body more))
        λ body. WritesLawful-close_with status s body (error_headers p m s body more)

  pub WritesLawful-bad_request :
      (message : String) (s : Session) → WritesLawful (bad_request p m message s)
  unfolding bad_request
  WritesLawful-bad_request message s = WritesLawful-explain 400 s _ []

  pub WritesLawful-service_unavailable :
      (message : String) (s : Session) → WritesLawful (service_unavailable p m message s)
  unfolding service_unavailable
  WritesLawful-service_unavailable message s = WritesLawful-explain 503 s _ []

  pub WritesLawful-request_entity_too_large :
      (message : String) (s : Session) → WritesLawful (request_entity_too_large p m message s)
  unfolding request_entity_too_large
  WritesLawful-request_entity_too_large message s = WritesLawful-explain 413 s _ []

  pub WritesLawful-unsupported_media_type :
      (message : String) (s : Session) → WritesLawful (unsupported_media_type p m message s)
  unfolding unsupported_media_type
  WritesLawful-unsupported_media_type message s = WritesLawful-explain 415 s _ []

  pub WritesLawful-length_required :
      (message : String) (s : Session) → WritesLawful (length_required p m message s)
  unfolding length_required
  WritesLawful-length_required message s = WritesLawful-explain 411 s _ []

  pub WritesLawful-expectation_failed :
      (message : String) (s : Session) → WritesLawful (expectation_failed p m message s)
  unfolding expectation_failed
  WritesLawful-expectation_failed message s = WritesLawful-explain 417 s _ []

  pub WritesLawful-http_version_not_supported :
      (message : String) (s : Session) → WritesLawful (http_version_not_supported p m message s)
  unfolding http_version_not_supported
  WritesLawful-http_version_not_supported message s = WritesLawful-explain 505 s _ []

  pub WritesLawful-not_acceptable :
      (message : String) (s : Session) → WritesLawful (not_acceptable p m message s)
  unfolding not_acceptable
  WritesLawful-not_acceptable message s = chosen s.accept_format
    where
      formatted : Effect
      formatted = explain p m 406 s (description "40006" "406" "Not Acceptable" message) []

      plain : Effect
      plain = close_with 406 s message (error_headers p m s message [])

      chosen :
          (o : Option Formatter)
          → WritesLawful (elim o as (λ x. Effect) [ none ↦ plain | some g ↦ formatted ])
      chosen none = WritesLawful-close_with 406 s message (error_headers p m s message [])
      chosen (some f) =
          WritesLawful-explain 406 s (description "40006" "406" "Not Acceptable" message) []

  pub WritesLawful-find_and_invoke_for :
      (code : ℕ) (message : String) (s : Session)
      → WritesLawful (find_and_invoke_for p m code message s)
  unfolding find_and_invoke_for not_found method_not_allowed conflict method_not_implemented
      internal_server_error
  WritesLawful-find_and_invoke_for code message s =
      WritesLawful-if (eqb code 40004) _ _ (WritesLawful-explain 404 s _ []) (
        WritesLawful-if (eqb code 404) _ _ (WritesLawful-explain 404 s _ []) (
          WritesLawful-if (eqb code 405) _ _ (WritesLawful-explain 405 s _ _) (
            WritesLawful-if (eqb code 40009) _ _ (WritesLawful-explain 409 s _ []) (
              WritesLawful-if (eqb code 409) _ _ (WritesLawful-explain 409 s _ []) (
                WritesLawful-if (eqb code 400) _ _ (WritesLawful-bad_request message s) (
                  WritesLawful-if (eqb code 501) _ _ (WritesLawful-explain 501 s _ _) (
                    WritesLawful-if (eqb code 411) _ _ (WritesLawful-length_required message s) (
                      WritesLawful-if (eqb code 406) _ _ (WritesLawful-not_acceptable message s) (
                        WritesLawful-if (eqb code 417) _ _
                          (WritesLawful-expectation_failed message s)
                          (WritesLawful-if (eqb code 415) _ _
                            (WritesLawful-unsupported_media_type message s) tt))))))))))
