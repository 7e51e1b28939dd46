-- ===== src/Facade/Example.antt =====
-- example/exchange/source/example.cpp: the program that makes an exchange and starts it.
use restq.Base.{
  ℕ, String, subst, sym, Bool, true, false, not, ◌&&◌, List, [], ◌∷◌, ◌++◌, Option, none, some, ◌≡◌,
  refl, any, ap,
}
use restq.Facade.{
  Call, Exception, Exchange, Outcome, is_caught, perform, start_calls, logger_calls, start_with,
  settings_of, start, wind_down,
}
use restq.Facade.Setting.{insert_format, add_format, set_logger, set_repository, set_ready_handler}
use restq.Facade.Dispatching.{is_start}

abbrev media_types : String
media_types = "^application/json|application/\\*|\\*/\\*$"

-- As the constructor of Exchange leaves it.
abbrev made : Exchange
made = record {
  logger = none;
  repository = none;
  settings = none;
  ready_handler = none;
  formats = [];
}

-- One statement after the other, up to the first that throws.
unfoldable next : Outcome → (Exchange → Outcome) → Outcome
next o k = elim o.thrown [
  | none ↦ let o' = k o.exchange in record o' { calls = o.calls ++ o'.calls }
  | some x ↦ o
]

-- The exchange is destroyed as main returns.
unfoldable main : (Call → Bool) → (logger format repository handler settings : ℕ) → Outcome
unfolding next set_logger set_repository add_format set_ready_handler
main throws logger format repository handler settings =
    next
      (next
        (next
          (next
            (next (set_logger false (some logger) made) (set_repository false (some repository)))
            (add_format false media_types (some format)))
          (set_ready_handler false (some handler)))
        (start throws settings (some settings)))
      λ e. record { exchange = e; calls = wind_down throws e; thrown = none }

perform_quiet :
    (throws : Call → Bool) (cs : List Call)
    → ((c : Call) → (throws c && not (is_caught c)) ≡ false)
    → perform throws cs ≡ (cs, none)
unfolding perform
perform_quiet throws [] h = refl
perform_quiet throws (c ∷ cs) h = rw (h c, perform_quiet throws cs h) refl

-- A start none of whose calls throws makes them all.
start_with-quiet :
    (throws : Call → Bool) (fresh : ℕ) (given : Option ℕ) (e : Exchange) (r : ℕ)
    → ((c : Call) → (throws c && not (is_caught c)) ≡ false)
    → let s = settings_of fresh given in
      let e' = record e { settings = some s } in
      start_with throws fresh given e (some r) ≡ record {
        exchange = e';
        calls =
            logger_calls e.logger e.formats r s ++ (Call.start_repository r s ∷ start_calls e' r s);
        thrown = none;
      }
unfolding start_with
start_with-quiet throws fresh given e r h =
    ap
      (λ (d : List Call × Option Exception). record {
        exchange = record e { settings = some (settings_of fresh given) };
        calls = d.0;
        thrown = d.1;
      })
      (perform_quiet throws _ h)

-- Where no call throws but those that write to the log, the program runs its service, ends without an
-- exception, and leaves an exchange with its logger, its repository, its format and its settings.
main-Runs :
    (throws : Call → Bool) (logger format repository handler settings : ℕ)
    → ((c : Call) → (throws c && not (is_caught c)) ≡ false)
    → let o = main throws logger format repository handler settings in
      (any is_start o.calls ≡ true)
      × (o.thrown ≡ none)
      × (o.exchange ≡ record {
        logger = some logger;
        repository = some repository;
        settings = some settings;
        ready_handler = some handler;
        formats = (media_types, format) ∷ [];
      })
unfolding main next set_logger set_repository add_format set_ready_handler insert_format start
    start_with start_calls logger_calls
main-Runs throws logger format repository handler settings h =
    let ready : Exchange = record {
      logger = some logger;
      repository = some repository;
      settings = none;
      ready_handler = some handler;
      formats = (media_types, format) ∷ [];
    } in
    subst
      (λ (o : Outcome).
        let o' = next o (λ e. record { exchange = e; calls = wind_down throws e; thrown = none }) in
        (any is_start o'.calls ≡ true)
        × (o'.thrown ≡ none)
        × (o'.exchange ≡ record ready { settings = some settings }))
      (sym (start_with-quiet throws settings (some settings) ready repository h)) (refl, refl, refl)
