-- ===== src/ErrorHandler.antt =====
-- source/corvusoft/restq/detail/error_handler_impl.cpp. Each handler composes one resource that
-- describes the error, in the format and style of the session, and closes the session with it.
pub mod Laws
use text.Mathlib.Text.{find?}
use restq.Base.{
  ℕ, String, Bool, true, false, List, [], ◌∷◌, Option, none, some, eqb, ◌==◌, if◌then◌else◌,
}
use restq.Effects.{Effect, Response, get}
use restq.Multimap.{Multimap, of_list}
use restq.Platform.{Platform, Moment}
use restq.Resource.{Resource, Resources}
use restq.Rule.{make_date, make_content_length, make_checksum, make_content_type, content_language}
use restq.Session.{Session, Formatter}

-- The resource that describes an error.
abbrev pub description : String → String → String → String → Resource
description code status title message = of_list (
    ("type", "error")
    ∷ ("code", code)
    ∷ ("status", status)
    ∷ ("title", title)
    ∷ ("message", message)
    ∷ [])

-- `composer->compose( values, session->get( "style" ) )`
abbrev pub compose : Session → Resources → (String → Effect) → Effect
compose s values k = get s.accept_format λ f. get s.style λ style. k (f.compose values style)

-- `( echo ) ? session->close( status, body, headers ) : session->close( status, headers )`
abbrev pub close_with : ℕ → Session → String → Multimap → Effect
close_with status s body headers = get s.echo λ echo.
    Effect.close
      (record { status = status; body = if echo then some body else none; headers = headers })
      Effect.done

module _ (p : Platform) (m : Moment) where
  -- The headers of an error, behind those that the handler adds.
  abbrev pub error_headers : Session → String → List (String × String) → Multimap
  error_headers s body more = of_list (
      ("Date", make_date p m)
      ∷ ("Content-MD5", make_checksum p body)
      ∷ ("Content-Language", content_language)
      ∷ ("Content-Type", make_content_type s)
      ∷ ("Content-Length", make_content_length body)
      ∷ more)

  -- One description, composed, as the body.
  abbrev pub explain : ℕ → Session → Resource → List (String × String) → Effect
  explain status s value more =
      compose s (value ∷ []) λ body. close_with status s body (error_headers s body more)

  -- The methods that the request's resource allows.
  unfoldable pub allowed : Session → String
  allowed s =
      let keyed = p.has_path_parameter s.request "key" in
      if s.request.path == "/*" then "OPTIONS" else elim (find? s.request.path "messages") [
        | some i ↦ if keyed then "OPTIONS" else "POST,OPTIONS"
        | none ↦ if keyed then "GET,PUT,HEAD,DELETE,OPTIONS" else "GET,POST,HEAD,DELETE,OPTIONS"
      ]

  unfoldable pub method_not_allowed : Session → Effect
  method_not_allowed s =
      explain 405 s
        (description "40005" "405" "Method Not Allowed"
          "The exchange is refusing to process the request because the requested method is not allowed for this resource.")
        (("Allow", allowed s) ∷ [])

  unfoldable pub method_not_implemented : Session → Effect
  method_not_implemented s =
      explain 501 s
        (description "50001" "501" "Not Implemented"
          "The exchange is refusing to process the request because the requested method is not implemented within this service.")
        (("Allow", "GET,PUT,POST,HEAD,DELETE,OPTIONS") ∷ [])

  unfoldable pub conflict : String → Session → Effect
  conflict message s =
      let msg : String =
        if message == ""
        then "The exchange is refusing to process the request because of a conflict with an existing resource."
        else message in
      explain 409 s (description "40009" "409" "Conflict" msg) []

  unfoldable pub not_found : String → Session → Effect
  not_found message s =
      let msg : String =
        if message == ""
        then "The exchange is refusing to process the request because the requested URI could not be found within the exchange."
        else message in
      explain 404 s (description "40004" "404" "Not Found" msg) []

  unfoldable pub bad_request : String → Session → Effect
  bad_request message s = explain 400 s (description "40000" "400" "Bad Request" message) []

  unfoldable pub length_required : String → Session → Effect
  length_required message s = explain 411 s (description "40011" "411" "Length Required" message) []

  unfoldable pub expectation_failed : String → Session → Effect
  expectation_failed message s =
      explain 417 s (description "40017" "417" "Expectation Failed" message) []

  unfoldable pub service_unavailable : String → Session → Effect
  service_unavailable message s =
      explain 503 s (description "50003" "503" "Service Unavailable" message) []

  unfoldable pub unsupported_media_type : String → Session → Effect
  unsupported_media_type message s =
      explain 415 s (description "40015" "415" "Unsupported Media Type" message) []

  unfoldable pub request_entity_too_large : String → Session → Effect
  request_entity_too_large message s =
      explain 413 s (description "40013" "413" "Request Entity Too Large" message) []

  unfoldable pub http_version_not_supported : String → Session → Effect
  http_version_not_supported message s =
      explain 505 s (description "50005" "505" "HTTP Version Not Supported" message) []

  -- Before a format is chosen the body is the message itself.
  unfoldable pub not_acceptable : String → Session → Effect
  not_acceptable message s = elim s.accept_format [
    | none ↦ close_with 406 s message (error_headers s message [])
    | some f ↦ explain 406 s (description "40006" "406" "Not Acceptable" message) []
  ]

  -- With the message of the exception.
  unfoldable pub internal_server_error : ℕ → String → Session → Effect
  internal_server_error status message s =
      Effect.close
        (record { status = status; body = some message; headers = error_headers s message [] })
        Effect.done

  unfoldable pub find_and_invoke_for : ℕ → String → Session → Effect
  find_and_invoke_for status message s =
      if eqb status 40004
      then not_found message s
      else if eqb status 404
      then not_found message s
      else if eqb status 405
      then method_not_allowed s
      else if eqb status 40009
      then conflict message s
      else if eqb status 409
      then conflict message s
      else if eqb status 400
      then bad_request message s
      else if eqb status 501
      then method_not_implemented s
      else if eqb status 411
      then length_required message s
      else if eqb status 406
      then not_acceptable message s
      else if eqb status 417
      then expectation_failed message s
      else if eqb status 415
      then unsupported_media_type message s
      else internal_server_error status message s
