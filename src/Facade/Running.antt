-- ===== src/Facade/Running.antt =====
-- source/corvusoft/restq/exchange.cpp: what holds when the service runs.
use restq.Base.{
  ℕ, String, Bool, true, false, not, ◌&&◌, ◌||◌, List, [], ◌∷◌, ◌++◌, Option, none, some, ◌==◌,
  less, map, ◌≡◌, refl, subst, arith, In, In_of_All, All-mono, less_irrefl, less_asymm,
  less-NotAfter-trans, any, Bool-cases, inl, inr, if◌then◌else◌, eq_iff,
}
use restq.Facade.{
  Call, Exception, Exchange, Outcome, is_caught, perform, start_calls, logger_calls, settings_of,
  start_with, start,
}
use restq.Facade.Setting.{
  add_format, insert_format, add_signal_handler, set_logger, set_repository, set_ready_handler,
}
use restq.Facade.Dispatching.{is_start, members_after, unset, members_after-start_with}
use restq.Json.{entry}
use restq.Json.Entries.{Ordered, entry-before}

abbrev pub fails : (Call → Bool) → Call → Bool
fails throws c = throws c && not (is_caught c)

or_false : (a b : Bool) → (a || b) ≡ false → (a ≡ false) × (b ≡ false)
or_false true b h = absurd (cc)
or_false false b h = (refl, h)

-- What stands before a call that is made has not thrown.
perform_past :
    (throws : Call → Bool) (before after : List Call) (c : Call)
    → any is_start before ≡ false
    → is_start c ≡ false
    → any is_start (perform throws (before ++ c ∷ after)).0 ≡ true
    → fails throws c ≡ false
unfolding perform
perform_past throws [] after c b n h = elim (Bool-cases (fails throws c)) [
  | inl f ↦ absurd (no (rw (f, n) at h))
  | inr f ↦ f
]
  where
    no : false ≡ true → ⊥
    no e = cc
perform_past throws (d ∷ before) after c b n h =
    let (bd, bs) = or_false (is_start d) (any is_start before) b in
    elim (Bool-cases (fails throws d)) [
      | inl f ↦ absurd (no (rw (f, bd) at h))
      | inr f ↦ perform_past throws before after c bs n (rw (f, bd) at h)
    ]
  where
    no : false ≡ true → ⊥
    no e = cc

formats_before :
    (formats : List (String × ℕ)) (l : ℕ)
    → any is_start (map (λ (f : String × ℕ). Call.give_format_logger f.1 l) formats) ≡ false
formats_before [] l = refl
formats_before (f ∷ formats) l = formats_before formats l

logger_before :
    (o : Option ℕ) (formats : List (String × ℕ)) (repository settings : ℕ)
    → any is_start (logger_calls o formats repository settings) ≡ false
unfolding logger_calls
logger_before none formats repository settings = refl
logger_before (some l) formats repository settings = formats_before formats l

and_true : (b : Bool) → (b && true) ≡ false → b ≡ false
and_true true h = cc
and_true false h = refl

module _ (throws : Call → Bool) where
  logger_started :
      (o : Option ℕ) (l repository settings : ℕ) (formats : List (String × ℕ)) (after : List Call)
      → o ≡ some l
      → any is_start (perform throws (logger_calls o formats repository settings ++ after)).0 ≡ true
      → throws (Call.start_logger l settings) ≡ false
  unfolding logger_calls
  logger_started none l repository settings formats after e h = cc
  logger_started (some x) l repository settings formats after e h =
      subst (λ y. throws (Call.start_logger y settings) ≡ false) (cc)
        (and_true _ (perform_past throws [] _ (Call.start_logger x settings) refl refl h))

  started_with :
      (fresh : ℕ) (given : Option ℕ) (e : Exchange) (o : Option ℕ)
      → any is_start (start_with throws fresh given e o).calls ≡ true
      → (r : ℕ) × (o ≡ some r)
        × ((start_with throws fresh given e o).exchange.settings ≡ some (settings_of fresh given))
        × (throws (Call.start_repository r (settings_of fresh given)) ≡ false)
        × ((l : ℕ)
            → e.logger ≡ some l
            → throws (Call.start_logger l (settings_of fresh given)) ≡ false)
        × (members_after (start_with throws fresh given e o).calls unset
            ≡ record { logger = e.logger; service = true; repository = o })
  unfolding start_with
  started_with fresh given e none h = absurd (cc)
  started_with fresh given e (some r) h =
      let settings = settings_of fresh given in
      let after =
        Call.start_repository r settings
        ∷ start_calls (record e { settings = some settings }) r settings in
      (
        r,
        refl,
        refl,
        and_true _ (
            perform_past throws (logger_calls e.logger e.formats r settings) _
              (Call.start_repository r settings) (logger_before e.logger e.formats r settings) refl
              h),
        λ l el. logger_started e.logger l r settings e.formats after el h,
        members_after-start_with throws fresh given e r unset h,
      )

  -- The service is run only where the exchange has a repository, after the repository and the
  -- logger, if there is one, have been started with the settings that are kept, without an exception,
  -- and the dispatcher has been given the service and the exchange's repository and logger.
  pub start-IsOrdered :
      (fresh : ℕ) (given : Option ℕ) (e : Exchange)
      → any is_start (start throws fresh given e).calls ≡ true
      → (r : ℕ) × (e.repository ≡ some r)
        × ((start throws fresh given e).exchange.settings ≡ some (settings_of fresh given))
        × (throws (Call.start_repository r (settings_of fresh given)) ≡ false)
        × ((l : ℕ)
            → e.logger ≡ some l
            → throws (Call.start_logger l (settings_of fresh given)) ≡ false)
        × (members_after (start throws fresh given e).calls unset
            ≡ record { logger = e.logger; service = true; repository = e.repository })
  unfolding start
  start-IsOrdered fresh given e h = started_with fresh given e e.repository h

  -- While the service is up, each of the five modifications throws, calls nothing and changes
  -- nothing.
  pub modifications_refused :
      (media_type : String) (signal : ℕ) (value : Option ℕ) (e : Exchange) (o : Outcome)
      → In o (
          add_format true media_type value e
          ∷ add_signal_handler throws true signal value e
          ∷ set_logger true value e
          ∷ set_repository true value e
          ∷ set_ready_handler true value e
          ∷ [])
      → (o.exchange ≡ e) × (o.calls ≡ []) × ((x : Exception) × (o.thrown ≡ some x))
  unfolding add_format add_signal_handler set_logger set_repository set_ready_handler
  modifications_refused media_type signal value e o i =
      In_of_All (λ o. (o.exchange ≡ e) × (o.calls ≡ []) × ((x : Exception) × (o.thrown ≡ some x))) o
        _
        (
          (refl, refl, (_, refl)),
          (
            (refl, refl, (_, refl)),
            ((refl, refl, (_, refl)), ((refl, refl, (_, refl)), ((refl, refl, (_, refl)), tt))),
          ),
        )
        i

abbrev pub first_of : Option ℕ → ℕ → ℕ
first_of none v = v
first_of (some w) v = w

-- Of the formats that are added for one media type the first stays, and those of the other types
-- stay as they are.
pub entry-insert_format :
    (k j : String) (v : ℕ) (formats : List (String × ℕ))
    → Ordered formats
    → entry k (insert_format j v formats)
      ≡ (if k == j then some (first_of (entry j formats) v) else entry k formats)
unfolding insert_format entry
entry-insert_format k j v [] o = refl
entry-insert_format k j v ((i, w) ∷ formats) (a, o) = elim (Bool-cases (less j i)) [
  | inl l ↦
      let before =
        entry-before j formats
          (All-mono _ _ formats (λ x q. less-NotAfter-trans j i x.0 l (less_asymm i x.0 q)) a) in
      rw l (ground (arith, before, less_irrefl j, eq_iff k j, eq_iff k i, eq_iff j i))
  | inr l ↦
      rw l (ground (arith, entry-insert_format k j v formats o, eq_iff k j, eq_iff k i, eq_iff j i))
]
