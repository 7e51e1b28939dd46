-- ===== src/Facade/Setting.antt =====
-- source/corvusoft/restq/exchange.cpp: the member functions that set up the exchange.
use restq.Base.{ℕ, String, Bool, List, [], ◌∷◌, Option, none, some, ◌==◌, less, if◌then◌else◌}
use restq.Facade.{Call, Exception, Exchange, Outcome, perform}

-- The setters throw while the service is up.
abbrev modification : Bool → Exchange → Outcome → Outcome
modification up e o =
    if up
    then (record {
      exchange = e;
      calls = [];
      thrown =
          some (Exception.runtime_error "Runtime modifications of the exchange are prohibited.");
    })
    else o

abbrev kept : Exchange → Outcome
kept e = record { exchange = e; calls = []; thrown = none }

abbrev invalid : Exchange → String → Outcome
invalid e message = record {
  exchange = e;
  calls = [];
  thrown = some (Exception.invalid_argument message);
}

-- `insert` of a std::map: an entry that is there stays.
unfoldable pub insert_format : String → ℕ → List (String × ℕ) → List (String × ℕ)
insert_format k v [] = (k, v) ∷ []
insert_format k v ((j, w) ∷ formats) =
    let rest = insert_format k v formats in
    if k == j
    then (j, w) ∷ formats
    else if less k j
    then (k, v) ∷ (j, w) ∷ formats
    else (j, w) ∷ rest

unfoldable pub add_format : Bool → String → Option ℕ → Exchange → Outcome
unfolding insert_format
add_format up media_type value e = modification up e (elim value [
  | none ↦ invalid e "Null formats are not supported."
  | some f ↦ kept (record e { formats = insert_format media_type f e.formats })
])

-- The call of the service is given what it throws.
unfoldable pub add_signal_handler : (Call → Bool) → Bool → ℕ → Option ℕ → Exchange → Outcome
unfolding perform
add_signal_handler throws up signal value e = modification up e (elim value [
  | none ↦ kept e
  | some h ↦
      let (calls, thrown) = perform throws (Call.set_signal_handler signal h ∷ []) in
      record { exchange = e; calls = calls; thrown = thrown }
])

unfoldable pub set_logger : Bool → Option ℕ → Exchange → Outcome
set_logger up value e = modification up e (kept (record e { logger = value }))

unfoldable pub set_repository : Bool → Option ℕ → Exchange → Outcome
set_repository up value e = modification up e (elim value [
  | none ↦ invalid e "Null repositories are not supported."
  | some r ↦ kept (record e { repository = some r })
])

unfoldable pub set_ready_handler : Bool → Option ℕ → Exchange → Outcome
set_ready_handler up value e =
    modification up e
      (elim value [ none ↦ kept e | some h ↦ kept (record e { ready_handler = some h }) ])
