-- ===== src/Exchange/Failing.antt =====
-- What an update is refused for (exchange_impl.cpp).
use restq.Base.{
  String, true, Option, none, some, [], ◌∷◌, ◌≡◌, sym, subst, arith, ◌||◌, ltb, length, get_last?,
  if◌then◌else◌, if_so, Bool-cases, inl, inr,
}
use restq.ErrorHandler.{bad_request}
use restq.ErrorHandler.Laws.{Answers, IsPrepared, explain-Answers}
use restq.Effects.{at}
use restq.Exchange.Handlers.{malformed_message, update_one, update_resource_handler}
use restq.Resource.{Resources}
use restq.Validator.{has_reserved_update_fields, has_invalid_update_fields}
use restq.Platform.{Platform, Moment}
use restq.Session.{Session, Formatter}

module _ (p : Platform) (m : Moment) where
  -- What an update is refused for: a body that is not parsed, or to more than one resource, or to one
  -- with a reserved or an invalid property.
  abbrev pub IsRefused : String → Option Resources → Type 0
  IsRefused type none = Unit
  IsRefused type (some []) = ⊥
  IsRefused type (some (change ∷ [])) =
      (has_reserved_update_fields change || has_invalid_update_fields p change type) ≡ true
  IsRefused type (some (change ∷ more ∷ changes)) = Unit

  parsed-Answers :
      (type : String) (s : Session) (parsed : Option Resources)
      → IsPrepared s
      → IsRefused type parsed
      → Answers 400 (elim parsed [
        | none ↦ bad_request p m malformed_message s
        | some changeset ↦
            if ltb 1 (length changeset)
            then bad_request p m
                "The exchange is refusing to process the request because multiple resources in an update are not supported."
                s
            else (at (get_last? changeset) λ change. update_one p m type s change)
      ])
  unfolding update_one bad_request
  parsed-Answers type s none h r = explain-Answers p m 400 s _ _ h
  parsed-Answers type s (some []) h r = elim r [ ]
  parsed-Answers type s (some (change ∷ [])) h r =
      elim (Bool-cases (has_reserved_update_fields change)) [
        | inl e ↦ rw e (explain-Answers p m 400 s _ _ h)
        | inr e ↦ rw (e, rw e at r) (explain-Answers p m 400 s _ _ h)
      ]
  parsed-Answers type s (some (change ∷ more ∷ changes)) h r =
      subst (Answers 400)
        (sym (if_so (ltb 1 (length (change ∷ more ∷ changes))) _ _ (ground arith)))
        (explain-Answers p m 400 s _ _ h)

  -- An update of a prepared session whose body is not parsed, or to more than one resource, or to one
  -- with a reserved or an invalid property, is answered once, with status 400, and changes nothing.
  pub refused_update-Answers :
      (type : String) (s : Session) (f : Formatter)
      → IsPrepared s
      → s.content_format ≡ some f
      → IsRefused type (f.try_parse s.request.body)
      → Answers 400 (update_resource_handler p m type s)
  unfolding update_resource_handler
  refused_update-Answers type s f h e r =
      rw e (parsed-Answers type s (f.try_parse s.request.body) h r)
