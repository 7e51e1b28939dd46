-- ===== src/Ruleset/Preparing.antt =====
-- What the rules leave in a session. Each of them answers, or goes on with what it has set.
use restq.Base.{
  ℕ, String, Bool, true, false, List, [], ◌∷◌, some, ◌≡◌, ◌⊎◌, inl, inr, refl, sym, subst,
  Option-cases, if◌then◌else◌,
}
use restq.Effects.{Effect}
use restq.ErrorHandler.{
  not_acceptable, bad_request, expectation_failed, length_required, http_version_not_supported,
}
use restq.ErrorHandler.Laws.{
  Answers, IsPrepared, explain-Answers, not_acceptable-Answers, not_acceptable-Answers_early,
}
use restq.Platform.{Platform, Moment}
use restq.Ruleset.{setup_ruleset}
use restq.Ruleset.Headers.{
  accept, accept_charset, accept_encoding, accept_language, version, host, expect, content_length,
  content_md5, range,
}
use restq.Ruleset.Parameters.{echo, style, filters, fields, paging}
use restq.Session.{Request, Session, Formatter}

-- A rule goes on, with a session of which P holds, or it answers.
abbrev pub GoesOn : (Session → Type 0) → (Session → Effect) → Effect → Type 0
GoesOn P k e = ((s : Session) × (e ≡ k s) × P s) ⊎ ((status : ℕ) × Answers status e)

pub GoesOn-if :
    (P : Session → Type 0) (k : Session → Effect) (b : Bool) (x y : Effect)
    → GoesOn P k x
    → GoesOn P k y
    → GoesOn P k (if b then x else y)
GoesOn-if P k true x y f g = f
GoesOn-if P k false x y f g = g

-- One rule and those that follow it.
pub GoesOn-then :
    (P Q : Session → Type 0) (rest k : Session → Effect) (e : Effect)
    → GoesOn P rest e
    → ((s : Session) → P s → GoesOn Q k (rest s))
    → GoesOn Q k e
GoesOn-then P Q rest k e (inl (s, q, h)) f = subst (GoesOn Q k) (sym q) (f s h)
GoesOn-then P Q rest k e (inr a) f = inr a

-- What is in a session for the handlers: format, style and echo, and what filters the resources.
abbrev pub IsReady : Session → Type 0
IsReady s =
    IsPrepared s
    × ((h : String) × (s.host ≡ some h))
    × ((f : List (String × String)) × (s.filters ≡ some f))
    × ((f : List (String × String)) × (s.inclusive_filters ≡ some f))
    × ((f : List (String × String)) × (s.exclusive_filters ≡ some f))
    × ((f : List String) × (s.fields ≡ some f))
    × ((n : ℕ × ℕ) × (s.paging ≡ some n))

-- The session is that of the request, and what is set in it so far.
abbrev HasEcho : Request → Session → Type 0
HasEcho r s = ((b : Bool) × (s.echo ≡ some b)) × (s.request ≡ r)

abbrev HasStyle : Request → Session → Type 0
HasStyle r s = ((b : Bool) × (s.style ≡ some b)) × HasEcho r s

abbrev HasFormat : Request → Session → Type 0
HasFormat r s = IsPrepared s × (s.request ≡ r)

abbrev HasHost : Request → Session → Type 0
HasHost r s = IsPrepared s × ((h : String) × (s.host ≡ some h)) × (s.request ≡ r)

-- The session is ready, and still that of the request.
abbrev pub IsReadyFor : Request → Session → Type 0
IsReadyFor r s = IsReady s × (s.request ≡ r)

module _ (p : Platform) (m : Moment) (r : Request) where
  echo-GoesOn :
      (s : Session) (k : Session → Effect) → s.request ≡ r → GoesOn (HasEcho r) k (echo p s k)
  unfolding echo
  echo-GoesOn s k q = inl (_, refl, ((_, refl), q))

  style-GoesOn :
      (s : Session) (k : Session → Effect) → HasEcho r s → GoesOn (HasStyle r) k (style p s k)
  unfolding style
  style-GoesOn s k h = inl (_, refl, ((_, refl), h))

  refused :
      (message : String) (s : Session) → HasStyle r s → Answers 406 (not_acceptable p m message s)
  refused message s (t, ((b, e), q)) = elim (Option-cases s.accept_format) [
    | inl f ↦ not_acceptable-Answers_early p m message s b f e
    | inr (f, ef) ↦ not_acceptable-Answers p m message s ((f, ef), t, (b, e))
  ]

  accept-GoesOn :
      (formats : List (String × Formatter)) (s : Session) (k : Session → Effect)
      → HasStyle r s
      → GoesOn (HasFormat r) k (accept p m formats s k)
  unfolding accept
  accept-GoesOn [] s k h = inr (406, refused _ s h)
  accept-GoesOn ((name, format) ∷ formats) s k (t, (e, q)) =
      GoesOn-if (HasFormat r) k _ _ _ (inl (_, refl, (((format, refl), t, e), q)))
        (accept-GoesOn formats s k (t, (e, q)))

  accept_charset-GoesOn :
      (s : Session) (k : Session → Effect)
      → HasFormat r s
      → GoesOn (HasFormat r) k (accept_charset p m s k)
  unfolding accept_charset
  accept_charset-GoesOn s k h =
      GoesOn-if (HasFormat r) k _ _ _ (inl (_, refl, h))
        (inr (406, not_acceptable-Answers p m _ _ h.0))

  accept_encoding-GoesOn :
      (s : Session) (k : Session → Effect)
      → HasFormat r s
      → GoesOn (HasFormat r) k (accept_encoding p m s k)
  unfolding accept_encoding
  accept_encoding-GoesOn s k h =
      GoesOn-if (HasFormat r) k _ _ _ (inl (s, refl, h))
        (inr (406, not_acceptable-Answers p m _ s h.0))

  accept_language-GoesOn :
      (s : Session) (k : Session → Effect)
      → HasFormat r s
      → GoesOn (HasFormat r) k (accept_language p m s k)
  unfolding accept_language
  accept_language-GoesOn s k h =
      GoesOn-if (HasFormat r) k _ _ _ (inl (s, refl, h))
        (inr (406, not_acceptable-Answers p m _ s h.0))

  version-GoesOn :
      (s : Session) (k : Session → Effect)
      → HasFormat r s
      → GoesOn (HasFormat r) k (version p m s k)
  unfolding version http_version_not_supported
  version-GoesOn s k h =
      GoesOn-if (HasFormat r) k _ _ _ (inr (505, explain-Answers p m 505 s _ _ h.0))
        (inl (s, refl, h))

  host-GoesOn :
      (s : Session) (k : Session → Effect) → HasFormat r s → GoesOn (HasHost r) k (host p m s k)
  unfolding host bad_request
  host-GoesOn s k h =
      GoesOn-if (HasHost r) k _ _ _ (inr (400, explain-Answers p m 400 _ _ _ h.0))
        (inl (_, refl, (h.0, (_, refl), h.1)))

  expect-GoesOn :
      (s : Session) (k : Session → Effect) → HasHost r s → GoesOn (HasHost r) k (expect p m s k)
  unfolding expect expectation_failed
  expect-GoesOn s k (h, e, q) =
      GoesOn-if (HasHost r) k _ _ _ (inr (417, explain-Answers p m 417 s _ _ h))
        (inl (s, refl, (h, e, q)))

  content_length-GoesOn :
      (s : Session) (k : Session → Effect)
      → HasHost r s
      → GoesOn (HasHost r) k (content_length p m s k)
  unfolding content_length length_required
  content_length-GoesOn s k (h, e, q) = GoesOn-if (HasHost r) k _ _ _ (inl (s, refl, (h, e, q))) (
      GoesOn-if (HasHost r) k _ _ _ (inr (411, explain-Answers p m 411 s _ _ h))
        (inl (_, refl, (h, e, q))))

  content_md5-GoesOn :
      (s : Session) (k : Session → Effect)
      → HasHost r s
      → GoesOn (HasHost r) k (content_md5 p m s k)
  unfolding content_md5 bad_request
  content_md5-GoesOn s k (h, e, q) =
      GoesOn-if (HasHost r) k _ _ _ (inr (400, explain-Answers p m 400 s _ _ h))
        (inl (s, refl, (h, e, q)))

  range-GoesOn :
      (s : Session) (k : Session → Effect) → HasHost r s → GoesOn (HasHost r) k (range p s k)
  unfolding range
  range-GoesOn s k h = GoesOn-if (HasHost r) k _ _ _ (inl (_, refl, h)) (inl (s, refl, h))

  reading-GoesOn :
      (s : Session) (k : Session → Effect)
      → HasHost r s
      → GoesOn (IsReadyFor r) k (filters p s λ s. fields p s λ s. paging p s k)
  unfolding filters fields paging
  reading-GoesOn s k (h, e, q) =
      inl (_, refl, ((h, e, (_, refl), (_, refl), (_, refl), (_, refl), (_, refl)), q))

  -- The rules answer a request, or go on with a session in which format, style, echo, host, filters,
  -- fields and paging are set and the request is the same.
  pub setup_ruleset-GoesOn :
      (formats : List (String × Formatter)) (s : Session) (k : Session → Effect)
      → s.request ≡ r
      → GoesOn (IsReadyFor r) k (setup_ruleset p m formats s k)
  unfolding setup_ruleset
  setup_ruleset-GoesOn formats s k q = GoesOn-then _ _ _ k _ (echo-GoesOn s _ q) λ s h.
      GoesOn-then _ _ _ k _ (style-GoesOn s _ h) λ s h.
        GoesOn-then _ _ _ k _ (accept-GoesOn formats s _ h) λ s h.
          GoesOn-then _ _ _ k _ (accept_charset-GoesOn s _ h) λ s h.
            GoesOn-then _ _ _ k _ (accept_encoding-GoesOn s _ h) λ s h.
              GoesOn-then _ _ _ k _ (accept_language-GoesOn s _ h) λ s h.
                GoesOn-then _ _ _ k _ (version-GoesOn s _ h) λ s h.
                  GoesOn-then _ _ _ k _ (host-GoesOn s _ h) λ s h.
                    GoesOn-then _ _ _ k _ (expect-GoesOn s _ h) λ s h.
                      GoesOn-then _ _ _ k _ (content_length-GoesOn s _ h) λ s h.
                        GoesOn-then _ _ _ k _ (content_md5-GoesOn s _ h) λ s h.
                          GoesOn-then _ _ _ k _ (range-GoesOn s _ h) λ s h. reading-GoesOn s k h
