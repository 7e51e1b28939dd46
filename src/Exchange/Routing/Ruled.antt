-- ===== src/Exchange/Routing/Ruled.antt =====
-- The rules that a request passes before its handler (exchange_impl.cpp, detail/rule): those of the
-- service, then those of the resource. They answer, or go on with what the handler needs.
use restq.Base.{
  String, Bool, true, false, ◌||◌, List, [], ◌∷◌, some, ◌==◌, ◌≡◌, refl, sym, subst, ap, ◌∙◌, All,
  inl, inr, Bool-cases,
}
use restq.Effects.{Effect}
use restq.ErrorHandler.Laws.{unsupported_media_type-Answers}
use restq.Exchange.Answering.{IsRouted}
use restq.Exchange.Contract.{ClosesOnce, ClosesOnce-of_Answers}
use restq.Exchange.Routing.{Rule, apply_rules}
use restq.Platform.{Platform, Moment}
use restq.Ruleset.{setup_ruleset}
use restq.Ruleset.Headers.{content_format, content_type, content_encoding}
use restq.Ruleset.Parameters.{key, keys}
use restq.Ruleset.Preparing.{GoesOn, GoesOn-if, GoesOn-then, IsReadyFor, setup_ruleset-GoesOn}
use restq.Session.{Request, Session, Formatter}

ClosesOnce-of_GoesOn :
    (P : Session → Type 0) (k : Session → Effect) (e : Effect)
    → GoesOn P k e
    → ((s : Session) → P s → ClosesOnce (k s))
    → ClosesOnce e
ClosesOnce-of_GoesOn P k e (inl (s, q, h)) f = subst ClosesOnce (sym q) (f s h)
ClosesOnce-of_GoesOn P k e (inr (status, a)) f = ClosesOnce-of_Answers status e a

module _ (p : Platform) (m : Moment) (formats : List (String × Formatter)) (r : Request)
    (P : Formatter → Type 0) where
  -- The request says of what kind its body is, or has to.
  abbrev pub content_of : Request → Bool
  content_of x =
      p.lowercase x.method == "put"
      || p.lowercase x.method == "post"
      || p.has_header x "Content-Type"

  abbrev pub IsRoutedFor : Session → Type 0
  IsRoutedFor s = IsRouted s × (s.request ≡ r)

  -- There is a format for the body.
  abbrev pub IsParsed : Session → Type 0
  IsParsed s =
      IsRouted s
      × (s.request ≡ r)
      × (content_of r ≡ true → (f : Formatter) × (s.content_format ≡ some f) × P f)

  pub key-GoesOn :
      (s : Session) (k : Session → Effect)
      → IsReadyFor r s
      → p.has_path_parameter r "key" ≡ true
      → GoesOn IsRoutedFor k (key p s k)
  unfolding key
  key-GoesOn s k (h, q) given =
      let given' = subst (λ x. p.has_path_parameter x "key" ≡ true) (sym q) given in
      rw given' (inl (_, refl, ((h, (_, refl)), q)))

  -- Where the path may be without a key, the next rule sets the keys.
  pub key_then_keys-GoesOn :
      (s : Session) (k : Session → Effect)
      → IsReadyFor r s
      → GoesOn IsRoutedFor k (key p s (λ s'. keys p s' k))
  unfolding key keys
  key_then_keys-GoesOn s k (h, q) =
      GoesOn-if IsRoutedFor k _ _ _ (inl (_, refl, ((h, (_, refl)), q)))
        (inl (_, refl, ((h, (_, refl)), q)))

  keys-GoesOn :
      (s : Session) (k : Session → Effect) → IsReadyFor r s → GoesOn IsRoutedFor k (keys p s k)
  unfolding keys
  keys-GoesOn s k (h, q) = inl (_, refl, ((h, (_, refl)), q))

  content_format-GoesOn :
      (formats : List (String × Formatter)) (s : Session) (k : Session → Effect)
      → All (λ e. P e.1) formats
      → IsRoutedFor s
      → GoesOn IsParsed k (content_format p m formats s k)
  unfolding content_format
  content_format-GoesOn [] s k a (h, q) = inr (415, unsupported_media_type-Answers p m _ s h.0.0)
  content_format-GoesOn ((name, f) ∷ formats) s k (a, more) (h, q) =
      GoesOn-if IsParsed k _ _ _ (inl (_, refl, (h, q, (λ c. (f, refl, a)))))
        (content_format-GoesOn formats s k more (h, q))

  content_type-GoesOn :
      (s : Session) (k : Session → Effect)
      → All (λ e. P e.1) formats
      → IsRoutedFor s
      → GoesOn IsParsed k (content_type p m formats s k)
  unfolding content_type
  content_type-GoesOn s k a (h, q) = elim (Bool-cases (content_of r)) [
    | inl c ↦ rw (ap content_of q ∙ c) (content_format-GoesOn formats s k a (h, q))
    | inr c ↦ rw (ap content_of q ∙ c) (inl (s, refl, (h, q, (λ d. absurd (no d c)))))
  ]
    where
      no : content_of r ≡ true → content_of r ≡ false → ⊥
      no d c = cc

  content_encoding-GoesOn :
      (s : Session) (k : Session → Effect)
      → IsParsed s
      → GoesOn IsParsed k (content_encoding p m s k)
  unfolding content_encoding
  content_encoding-GoesOn s k (h, q, c) =
      GoesOn-if IsParsed k _ _ _ (inl (s, refl, (h, q, c)))
        (inr (415, unsupported_media_type-Answers p m _ s h.0.0))

  content-GoesOn :
      (s : Session) (k : Session → Effect)
      → All (λ e. P e.1) formats
      → IsRoutedFor s
      → GoesOn IsParsed k (content_type p m formats s λ s'. content_encoding p m s' k)
  content-GoesOn s k a h =
      GoesOn-then IsParsed IsParsed _ k _ (content_type-GoesOn s _ a h)
        λ s' h'. content_encoding-GoesOn s' k h'

  -- The rules of a resource for one, which has a key in its path.
  pub one-GoesOn :
      (s : Session) (k : Session → Effect)
      → All (λ e. P e.1) formats
      → p.has_path_parameter r "key" ≡ true
      → IsReadyFor r s
      → GoesOn IsParsed k (
          apply_rules p m formats
            (Rule.key_rule ∷ Rule.content_type_rule ∷ Rule.content_encoding_rule ∷ [])
            s
            k)
  unfolding apply_rules
  one-GoesOn s k a given h =
      GoesOn-then IsRoutedFor IsParsed _ k _ (key-GoesOn s _ h given)
        λ s' h'. content-GoesOn s' k a h'

  -- The rules of a resource for many.
  pub many-GoesOn :
      (s : Session) (k : Session → Effect)
      → All (λ e. P e.1) formats
      → IsReadyFor r s
      → GoesOn IsParsed k (
          apply_rules p m formats
            (Rule.keys_rule ∷ Rule.content_type_rule ∷ Rule.content_encoding_rule ∷ [])
            s
            k)
  unfolding apply_rules
  many-GoesOn s k a h =
      GoesOn-then IsRoutedFor IsParsed _ k _ (keys-GoesOn s _ h) λ s' h'. content-GoesOn s' k a h'

  -- The rules of the service, then those of a resource, then a handler.
  pub ruled-ClosesOnce :
      (Q : Session → Type 0) (rules : List Rule) (s : Session) (k : Session → Effect)
      → s.request ≡ r
      → ((s' : Session) → IsReadyFor r s' → GoesOn Q k (apply_rules p m formats rules s' k))
      → ((s' : Session) → Q s' → ClosesOnce (k s'))
      → ClosesOnce (setup_ruleset p m formats s λ s'. apply_rules p m formats rules s' k)
  ruled-ClosesOnce Q rules s k q rule handle =
      ClosesOnce-of_GoesOn Q k _
        (GoesOn-then (IsReadyFor r) Q _ k _ (setup_ruleset-GoesOn p m r formats s _ q) rule) handle
