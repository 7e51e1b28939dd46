-- ===== src/Exchange/Creation.antt =====
-- What a request that creates resources lets through.
use restq.Base.{
  ℕ, suc, String, Bool, true, false, [], ◌∷◌, some, ◌≡◌, ◌⊎◌, inl, inr, refl, sym, subst, In,
  Bool-cases, Option-cases, if◌then◌else◌, here, there,
}
use restq.Effects.{Effect, get}
use restq.ErrorHandler.{bad_request}
use restq.ErrorHandler.Laws.{Answers, IsPrepared, explain-Answers}
use restq.Exchange.Handlers.{prepare, create_resource_handler}
use restq.Exchange.Make.{initialise_default_resource}
use restq.Multimap.{has}
use restq.Platform.{Platform, Moment}
use restq.Resource.{Resource, Resources}
use restq.Session.{Session, Formatter}
use restq.Settings.{Properties}
use restq.Validator.{has_reserved_create_fields, has_invalid_create_fields, has_invalid_key}

module _ (p : Platform) (ps : Properties) (settings : ps.Store) (m : Moment) where
  -- The three tests of a new resource pass.
  abbrev pub IsAccepted : String → Resource → Type 0
  IsAccepted type r =
      (has_reserved_create_fields r ≡ false)
      × (has_invalid_create_fields p r type ≡ false)
      × (has_invalid_key r ≡ false)

  -- The request is refused with status 400, or a setting is no number.
  abbrev pub Stops : Effect → Type 0
  Stops e = Answers 400 e ⊎ (e ≡ Effect.raise)

  bad-Stops : (message : String) (s : Session) → IsPrepared s → Stops (bad_request p m message s)
  unfolding bad_request
  bad-Stops message s h = inl (explain-Answers p m 400 s _ _ h)

  Stops-if : (b : Bool) (x y : Effect) → b ≡ true → Stops x → Stops (if b then x else y)
  Stops-if b x y e h = rw e h

  Stops-else : (b : Bool) (x y : Effect) → b ≡ false → Stops y → Stops (if b then x else y)
  Stops-else b x y e h = rw e h

  -- Where one resource of the list is refused, the loop stops, whatever follows it.
  prepare-Stops :
      (type : String) (s : Session) (rs : Resources) (i : ℕ) (r : Resource) (k : Resources → Effect)
      → IsPrepared s
      → In r rs
      → ¬ IsAccepted type r
      → Stops (prepare p ps settings m i type s rs k)
  unfolding prepare
  prepare-Stops type s [] i r k hp n bad = elim n [ ]
  prepare-Stops type s (x ∷ rs) i r k hp n bad = elim (Bool-cases (has_reserved_create_fields x)) [
    | inl e ↦ Stops-if _ _ _ e (bad-Stops _ s hp)
    | inr e1 ↦ Stops-else _ _ _ e1 (elim (Bool-cases (has_invalid_create_fields p x type)) [
      | inl e ↦ Stops-if _ _ _ e (bad-Stops _ s hp)
      | inr e2 ↦ Stops-else _ _ _ e2 (elim (Bool-cases (has_invalid_key x)) [
        | inl e ↦ Stops-if _ _ _ e (bad-Stops _ s hp)
        | inr e3 ↦ Stops-else _ _ _ e3 (
            made (e1, e2, e3) n
              (λ r' l.
                prepare-Stops type s rs (if has "key" x then i else suc i) r (λ rs'. k (r' ∷ rs'))
                  hp l bad))
      ])
    ])
  ]
    where
      later : IsAccepted type x → In r (x ∷ rs) → In r rs
      later ok (here e) = absurd (bad (subst (IsAccepted type) (sym e) ok))
      later ok (there n) = n

      made :
          IsAccepted type x
          → In r (x ∷ rs)
          → ((r' : Resource)
              → In r rs
              → Stops (
                  prepare p ps settings m
                    (if has "key" x then i else suc i)
                    type
                    s
                    rs
                    λ rs'. k (r' ∷ rs')))
          → Stops (
              get (initialise_default_resource p ps settings m i type s x) λ r'.
                prepare p ps settings m
                  (if has "key" x then i else suc i)
                  type
                  s
                  rs
                  λ rs'. k (r' ∷ rs'))
      made ok n again =
          elim (Option-cases (initialise_default_resource p ps settings m i type s x)) [
            | inl e ↦ rw e (inr refl)
            | inr (r', e) ↦ rw e (again r' (later ok n))
          ]

  -- A request of a prepared session, whose body is parsed to resources one of which fails one of the
  -- three tests, creates nothing: it is answered with status 400, or ends with the exception of a
  -- setting that is no number.
  pub create_refused :
      (type : String) (s : Session) (f : Formatter) (rs : Resources) (r : Resource)
      → IsPrepared s
      → s.content_format ≡ some f
      → f.try_parse s.request.body ≡ some rs
      → In r rs
      → ¬ IsAccepted type r
      → Stops (create_resource_handler p ps settings m type s)
  unfolding create_resource_handler
  create_refused type s f rs r hp ef ep n bad = rw (ef, ep) (prepare-Stops type s rs 0 r _ hp n bad)
