-- ===== src/Facade/Dispatching.antt =====
-- The static members of DispatchImpl (detail/dispatch_impl.cpp), and what the start of the exchange
-- leaves in them.
use restq.Base.{
  ℕ, String, Bool, true, false, not, ◌&&◌, ◌||◌, List, [], ◌∷◌, ◌++◌, Option, none, some, map, ◌≡◌,
  refl, ◌∙◌, ap, arith, any, Bool-cases, inl, inr, is_nil,
}
use restq.Effects.{Level}
use restq.Facade.{
  Call, Exchange, is_caught, perform, start_calls, logger_calls, settings_of, start_with,
}

-- `service` tells whether the pointer is set: the exchange has one service.
pub record Members : Type 0 where
  pub logger : Option ℕ
  pub service : Bool
  pub repository : Option ℕ

-- As the program begins.
abbrev pub unset : Members
unset = record { logger = none; service = false; repository = none }

unfoldable pub set_logger : Option ℕ → Members → Members
set_logger value d = record d { logger = value }

unfoldable pub set_repository : Option ℕ → Members → Members
set_repository value d = record d { repository = value }

unfoldable pub set_service : Bool → Members → Members
set_service value d = record d { service = value }

-- DispatchImpl::log
unfoldable pub log : Members → Level → String → List Call
log d level message = elim d.logger [ none ↦ [] | some l ↦ Call.write_log l level message ∷ [] ]

-- What a call of the exchange does to the members.
unfoldable pub with_call : Call → Members → Members
unfolding set_logger set_repository set_service
with_call (Call.give_dispatcher_logger l) d = set_logger l d
with_call Call.give_dispatcher_service d = set_service true d
with_call (Call.give_dispatcher_repository r) d = set_repository (some r) d
with_call _ d = d

unfoldable pub members_after : List Call → Members → Members
members_after [] d = d
members_after (c ∷ cs) d = members_after cs (with_call c d)

-- The call that runs the service.
abbrev pub is_start : Call → Bool
is_start Call.start_service = true
is_start _ = false

-- The service is run by the last call, if by any.
unfoldable starts_last : List Call → Bool
starts_last [] = true
starts_last (c ∷ cs) = is_nil cs || (not (is_start c) && starts_last cs)

-- Where the service is run, no call before has thrown.
perform_all :
    (throws : Call → Bool) (cs : List Call)
    → starts_last cs ≡ true
    → any is_start (perform throws cs).0 ≡ true
    → (perform throws cs).0 ≡ cs
unfolding perform starts_last
perform_all throws [] h s = refl
perform_all throws (c ∷ []) h s = ground arith
perform_all throws (c ∷ d ∷ cs) h s = elim (Bool-cases (throws c && not (is_caught c))) [
  | inl f ↦ absurd (ground arith)
  | inr f ↦ rw f (ap (λ xs. c ∷ xs) (perform_all throws (d ∷ cs) (ground arith) (ground arith)))
]

formats_last :
    (formats : List (String × ℕ)) (l : ℕ) (c : Call) (cs : List Call)
    → starts_last (c ∷ cs) ≡ true
    → starts_last (map (λ (f : String × ℕ). Call.give_format_logger f.1 l) formats ++ c ∷ cs) ≡ true
unfolding starts_last
formats_last [] l c cs h = h
formats_last (f ∷ formats) l c cs h = rw (formats_last formats l c cs h) (ground arith)

logger_last :
    (o : Option ℕ) (formats : List (String × ℕ)) (repository settings : ℕ) (c : Call)
    (cs : List Call)
    → starts_last (c ∷ cs) ≡ true
    → starts_last (logger_calls o formats repository settings ++ c ∷ cs) ≡ true
unfolding starts_last logger_calls
logger_last none formats repository settings c cs h = h
logger_last (some l) formats repository settings c cs h =
    rw (formats_last formats l c cs h) (ground arith)

members_after-formats :
    (formats : List (String × ℕ)) (l : ℕ) (cs : List Call) (d : Members)
    → members_after (map (λ (f : String × ℕ). Call.give_format_logger f.1 l) formats ++ cs) d
      ≡ members_after cs d
unfolding members_after with_call
members_after-formats [] l cs d = refl
members_after-formats (f ∷ formats) l cs d = members_after-formats formats l cs d

members_after-logger_calls :
    (o : Option ℕ) (formats : List (String × ℕ)) (repository settings : ℕ) (cs : List Call)
    (d : Members)
    → members_after (logger_calls o formats repository settings ++ cs) d ≡ members_after cs d
unfolding members_after with_call logger_calls
members_after-logger_calls none formats repository settings cs d = refl
members_after-logger_calls (some l) formats repository settings cs d =
    members_after-formats formats l cs d

-- Where the service is run, the dispatcher has the service, and the exchange's logger and repository.
pub members_after-start_with :
    (throws : Call → Bool) (fresh : ℕ) (settings : Option ℕ) (e : Exchange) (r : ℕ) (d : Members)
    → any is_start (start_with throws fresh settings e (some r)).calls ≡ true
    → members_after (start_with throws fresh settings e (some r)).calls d
      ≡ record { logger = e.logger; service = true; repository = some r }
unfolding start_with start_calls starts_last members_after with_call set_logger set_repository
    set_service
members_after-start_with throws fresh settings e r d h =
    let s = settings_of fresh settings in
    let rest = Call.start_repository r s ∷ start_calls (record e { settings = some s }) r s in
    ap (λ cs. members_after cs d)
      (perform_all throws (logger_calls e.logger e.formats r s ++ rest)
        (logger_last e.logger e.formats r s _ _ refl) h)
    ∙ members_after-logger_calls e.logger e.formats r s rest d
