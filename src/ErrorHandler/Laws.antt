-- ===== src/ErrorHandler/Laws.antt =====
-- Which status an error is answered with.
use restq.Base.{
  ℕ, String, Bool, true, false, List, [], ◌∷◌, Option, none, some, eqb, ◌≡◌, refl, arith,
  if◌then◌else◌, Bool-cases, ◌≢◌, subst, sym, ap, ◌∙◌, inl, inr,
}
use restq.Effects.{Effect, Response}
use restq.Multimap.{Multimap}
use restq.Platform.{Platform, Moment}
use restq.Session.{Session, Formatter}
use restq.Resource.{Resource, Resources}
use restq.ErrorHandler.{
  description, explain, compose, close_with, error_headers, method_not_allowed,
  method_not_implemented, conflict, not_found, bad_request, not_acceptable, length_required,
  expectation_failed, unsupported_media_type, internal_server_error, find_and_invoke_for,
}

-- The status that the switch sends for an error code: the code itself but for two.
abbrev pub status_of : ℕ → ℕ
status_of code = if eqb code 40004 then 404 else if eqb code 40009 then 409 else code

-- The handler answers once, with the status, and does nothing else.
abbrev pub Answers : ℕ → Effect → Type 0
Answers status e = (r : Response) × (e ≡ Effect.close r Effect.done) × (r.status ≡ status)

-- The rules for format, style and echo have run.
abbrev pub IsPrepared : Session → Type 0
IsPrepared s =
    ((f : Formatter) × (s.accept_format ≡ some f))
    × ((b : Bool) × (s.style ≡ some b))
    × ((b : Bool) × (s.echo ≡ some b))

pub close_with-Answers :
    (status : ℕ) (s : Session) (body : String) (headers : Multimap) (b : Bool)
    → s.echo ≡ some b
    → Answers status (close_with status s body headers)
close_with-Answers status s body headers b e = (
  record { status = status; body = if b then some body else none; headers = headers },
  rw e,
  refl,
)

compose-Answers :
    (status : ℕ) (s : Session) (values : Resources) (k : String → Effect)
    → IsPrepared s
    → ((body : String) → Answers status (k body))
    → Answers status (compose s values k)
compose-Answers status s values k ((f, ef), (b, eb), _) h =
    let (r, e, q) = h (f.compose values b) in (r, rw (ef, eb) e, q)

eq_of_eqb : (n c : ℕ) → eqb n c ≡ true → n ≡ c
eq_of_eqb n c h = ground arith

eqb_sym : (c n : ℕ) → eqb n c ≡ eqb c n
eqb_sym c n = ground arith

ne_of_eqb : (c n : ℕ) → eqb c n ≡ false → c ≢ n
ne_of_eqb c n h e = ground arith

module _ (p : Platform) (m : Moment) where
  pub explain-Answers :
      (status : ℕ) (s : Session) (value : Resource) (more : List (String × String))
      → IsPrepared s
      → Answers status (explain p m status s value more)
  explain-Answers status s value more h =
      compose-Answers status s (value ∷ [])
        (λ body. close_with status s body (error_headers p m s body more)) h
        (λ body. close_with-Answers status s body (error_headers p m s body more) h.2.0 h.2.1)

  not_found-Answers :
      (message : String) (s : Session) → IsPrepared s → Answers 404 (not_found p m message s)
  unfolding not_found
  not_found-Answers message s h = explain-Answers 404 s _ _ h

  conflict-Answers :
      (message : String) (s : Session) → IsPrepared s → Answers 409 (conflict p m message s)
  unfolding conflict
  conflict-Answers message s h = explain-Answers 409 s _ _ h

  pub bad_request-Answers :
      (message : String) (s : Session) → IsPrepared s → Answers 400 (bad_request p m message s)
  unfolding bad_request
  bad_request-Answers message s h = explain-Answers 400 s _ _ h

  pub length_required-Answers :
      (message : String) (s : Session) → IsPrepared s → Answers 411 (length_required p m message s)
  unfolding length_required
  length_required-Answers message s h = explain-Answers 411 s _ _ h

  pub expectation_failed-Answers :
      (message : String) (s : Session)
      → IsPrepared s
      → Answers 417 (expectation_failed p m message s)
  unfolding expectation_failed
  expectation_failed-Answers message s h = explain-Answers 417 s _ _ h

  pub unsupported_media_type-Answers :
      (message : String) (s : Session)
      → IsPrepared s
      → Answers 415 (unsupported_media_type p m message s)
  unfolding unsupported_media_type
  unsupported_media_type-Answers message s h = explain-Answers 415 s _ _ h

  pub not_acceptable-Answers :
      (message : String) (s : Session) → IsPrepared s → Answers 406 (not_acceptable p m message s)
  unfolding not_acceptable
  not_acceptable-Answers message s h =
      subst (Answers 406) (sym (chosen (s.accept_format) h.0.0 h.0.1)) (explain-Answers 406 s _ _ h)
    where
      formatted : Effect
      formatted = explain p m 406 s (description "40006" "406" "Not Acceptable" message) []

      plain : Effect
      plain = close_with 406 s message (error_headers p m s message [])

      chosen :
          (o : Option Formatter) (f : Formatter)
          → o ≡ some f
          → (elim o as (λ x. Effect) [ none ↦ plain | some g ↦ formatted ]) ≡ formatted
      chosen o f e = ap (λ x. elim x as (λ y. Effect) [ none ↦ plain | some g ↦ formatted ]) e

  -- Also before a format is chosen.
  pub not_acceptable-Answers_early :
      (message : String) (s : Session) (b : Bool)
      → s.accept_format ≡ none
      → s.echo ≡ some b
      → Answers 406 (not_acceptable p m message s)
  unfolding not_acceptable
  not_acceptable-Answers_early message s b n e =
      subst (Answers 406)
        (sym (
          ap
            (λ (o : Option Formatter). elim o as (λ x. Effect) [
              | none ↦ close_with 406 s message (error_headers p m s message [])
              | some g ↦ explain p m 406 s (description "40006" "406" "Not Acceptable" message) []
            ])
            n))
        (close_with-Answers 406 s message (error_headers p m s message []) b e)

  method_not_allowed-Answers : (s : Session) → IsPrepared s → Answers 405 (method_not_allowed p m s)
  unfolding method_not_allowed
  method_not_allowed-Answers s h = explain-Answers 405 s _ _ h

  method_not_implemented-Answers :
      (s : Session) → IsPrepared s → Answers 501 (method_not_implemented p m s)
  unfolding method_not_implemented
  method_not_implemented-Answers s h = explain-Answers 501 s _ _ h

  -- One case of the switch.
  at_code :
      (code n : ℕ) (a b : Effect)
      → Answers (status_of n) a
      → (code ≢ n → Answers (status_of code) b)
      → Answers (status_of code) (if eqb code n then a else b)
  at_code code n a b f g = elim (Bool-cases (eqb code n)) [
    | inl e ↦ rw e (subst (λ c. Answers (status_of c) a) (eq_of_eqb n code (eqb_sym code n ∙ e)) f)
    | inr e ↦ rw e (g (ne_of_eqb code n e))
  ]

  -- Every error code is answered once for a prepared session, with the status that the switch sends.
  pub find_and_invoke_for-Answers :
      (code : ℕ) (message : String) (s : Session)
      → IsPrepared s
      → Answers (status_of code) (find_and_invoke_for p m code message s)
  unfolding find_and_invoke_for internal_server_error
  find_and_invoke_for-Answers code message s h =
      at_code code 40004 _ _ (not_found-Answers message s h) λ not_missing.
        at_code code 404 _ _ (not_found-Answers message s h) λ other1.
          at_code code 405 _ _ (method_not_allowed-Answers s h) λ other2.
            at_code code 40009 _ _ (conflict-Answers message s h) λ not_conflict.
              at_code code 409 _ _ (conflict-Answers message s h) λ other4.
                at_code code 400 _ _ (bad_request-Answers message s h) λ other5.
                  at_code code 501 _ _ (method_not_implemented-Answers s h) λ other6.
                    at_code code 411 _ _ (length_required-Answers message s h) λ other7.
                      at_code code 406 _ _ (not_acceptable-Answers message s h) λ other8.
                        at_code code 417 _ _ (expectation_failed-Answers message s h) λ other9.
                          at_code code 415 _ _ (unsupported_media_type-Answers message s h)
                            λ other10. (
                              record {
                                status = code;
                                body = some message;
                                headers = error_headers p m s message [];
                              },
                              refl,
                              ground arith,
                            )
