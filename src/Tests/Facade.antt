-- ===== src/Tests/Facade.antt =====
-- The facade's theorems for an exchange with a repository, a logger and two formats.
use restq.Base.{ℕ, Bool, true, false, [], ◌∷◌, some, none, ◌≡◌, refl}
use restq.Facade.{settings_of, Call, Exchange, start}
use restq.Facade.Dispatching.{members_after, unset}
use restq.Facade.Running.{start-IsOrdered}

abbrev exchange : Exchange
exchange = record {
  logger = some 1;
  repository = some 2;
  settings = none;
  ready_handler = none;
  formats = ("application/json", 3) ∷ ("text/xml", 4) ∷ [];
}

-- Only writing to the log fails.
abbrev log_fails : Call → Bool
log_fails (Call.write_log l level message) = true
log_fails _ = false

start-IsOrdered_example :
    (r : ℕ) × (exchange.repository ≡ some r)
    × ((start log_fails 9 none exchange).exchange.settings ≡ some (settings_of 9 none))
    × (log_fails (Call.start_repository r (settings_of 9 none)) ≡ false)
    × ((l : ℕ)
        → exchange.logger ≡ some l
        → log_fails (Call.start_logger l (settings_of 9 none)) ≡ false)
    × (members_after (start log_fails 9 none exchange).calls unset
        ≡ record { logger = some 1; service = true; repository = some 2 })
unfolding start
start-IsOrdered_example = start-IsOrdered log_fails 9 none exchange refl
