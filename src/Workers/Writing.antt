-- ===== src/Workers/Writing.antt =====
-- The tasks that write lawful resources only, and that a step keeps them so.
use restq.Base.{
  ℕ, String, false, List, [], ◌∷◌, ◌++◌, Option, none, some, ◌≡◌, ◌≢◌, ◌⊎◌, inl, inr, refl, sym,
  ◌∙◌, subst, All, All-append, In, here, there, In_of_All,
}
use mathlib.Core.Option.{some-injective}
use restq.Dispatch.{route}
use restq.Effects.{Effect}
use restq.Exchange.Keeping.{answer-All}
use restq.Multimap.{Multimap, equal_range, value_at}
use restq.Multimap.Laws.{value_at_first}
use restq.Platform.{Platform, Moment}
use restq.Query.{Query, has_failed, set_fields}
use restq.Resource.{Resource, Resources, state_type}
use restq.Stl
use restq.Workers.{Task, State, written, advance, Step, Reach}
use restq.Workers.Lawful.{
  IsLawful, IsOther, IsTame, IsForeign, tame_changes-IsLawful, foreign_changes-IsLawful,
}
use restq.Workers.Stored.{
  IsSame, answer-IsSame, create-IsSame, create-All, updated-All, erased-All, Accepts,
}

-- A query that finds no states: it filters by another type, and relates none.
abbrev pub IsNarrow : Query → Type 0
IsNarrow q =
    ((t : String) × In ("type", t) q.exclusive_filters × (t ≢ state_type))
    × (q.related ≢ state_type)

-- The changes may be made to what the query finds.
abbrev pub Permits : Multimap → Query → Type 0
Permits changes q = All IsTame changes ⊎ (All IsForeign changes × IsNarrow q)

-- Whatever it is told, the code creates lawful resources only, and permits its changes.
abbrev pub WritesLawful : Effect → Type 0
WritesLawful Effect.done = Unit
WritesLawful Effect.raise = Unit
WritesLawful Effect.fault = Unit
WritesLawful (Effect.close r e) = WritesLawful e
WritesLawful (Effect.log l e) = WritesLawful e
WritesLawful (Effect.schedule status e) = WritesLawful e
WritesLawful (Effect.create rs q k) =
    All IsLawful rs × ((m : Moment) (q' : Query) → IsSame q q' → WritesLawful (k m q'))
WritesLawful (Effect.read q k) = (m : Moment) (q' : Query) → IsSame q q' → WritesLawful (k m q')
WritesLawful (Effect.update changes q k) =
    Permits changes q × ((m : Moment) (q' : Query) → IsSame q q' → WritesLawful (k m q'))
WritesLawful (Effect.destroy q k) = (m : Moment) (q' : Query) → IsSame q q' → WritesLawful (k m q')
WritesLawful (Effect.deliver d k) = (m : Moment) (code : ℕ) → WritesLawful (k m code)

-- What follows a read is fair in whatever lawful store its related resources are looked for.
abbrev pub IsFair : (String → String) → Task → Type 0
IsFair lowercase (Task.running e) = WritesLawful e
IsFair lowercase (Task.reading copied q k) =
    (m : Moment) (store : Resources)
    → All IsLawful store
    → IsFair lowercase (k m (Stl.answer lowercase store q copied))
IsFair lowercase (Task.updating changes q k) =
    (has_failed q ≡ false → All (Accepts IsLawful changes) q.resultset)
    × ((m : Moment) (q' : Query) → IsSame q q' → WritesLawful (k m q'))
IsFair lowercase (Task.erasing q k) =
    (m : Moment) (q' : Query) → IsSame q q' → WritesLawful (k m q')
IsFair lowercase Task.crashed = Unit

-- The whole exchange: what is stored is lawful, and so is what the tasks will write.
pub record IsSound (lowercase : String → String) (t : State) : Type 0 where
  pub stored : All IsLawful t.store
  pub fair : All (IsFair lowercase) t.tasks

IsOther-of_matched :
    (r : Resource) (t : String)
    → IsLawful r
    → In t (equal_range "type" r)
    → t ≢ state_type
    → IsOther r
IsOther-of_matched r t (s, inl h) m n = h
IsOther-of_matched r t (s, inr (e, _, _)) m n = elim (subst (In t) e m) [
  | here d ↦ absurd (n d)
  | there m' ↦ elim m' [ ]
]

IsOther-of_related :
    (r : Resource) (t : String)
    → IsLawful r
    → value_at "type" r ≡ some t
    → t ≢ state_type
    → IsOther r
IsOther-of_related r t (s, inl h) e n = h
IsOther-of_related r t (s, inr (d, _, _)) e n =
    absurd (n (some-injective _ _ (sym e ∙ value_at_first "type" state_type [] r s d)))

module _ (p : Platform) where
  -- The query as an update goes on with it.
  abbrev found : Resources → Resources → Query → Query
  found first store q =
      set_fields q.fields
        (Stl.answer p.lowercase store (set_fields [] q) (Stl.candidates p.lowercase q.keys first))

  found-IsSame : (first store : Resources) (q : Query) → IsSame q (found first store q)
  unfolding set_fields
  found-IsSame first store q = answer-IsSame p.lowercase store (set_fields [] q) _

  found-Accepts :
      (first store : Resources) (changes : Multimap) (q : Query)
      → All IsLawful first
      → All IsLawful store
      → Permits changes q
      → has_failed (found first store q) ≡ false
      → All (Accepts IsLawful changes) (found first store q).resultset
  unfolding set_fields has_failed
  found-Accepts first store changes q hf hs (inl tame) ok =
      let good : (rs : Resources)
          → All IsLawful rs
          → (r : Resource) → In r rs
          → Accepts IsLawful changes r =
        λ rs h r m b. tame_changes-IsLawful changes (r, b) tame (In_of_All IsLawful r rs h m) in
      answer-All p.lowercase (Accepts IsLawful changes) first store (set_fields [] q) refl ok
        (λ r m _. good store hs r m) (λ r m _. good first hf r m)
  found-Accepts first store changes q hf hs (inr (foreign, ((t, n, nt), nr))) ok =
      answer-All p.lowercase (Accepts IsLawful changes) first store (set_fields [] q) refl ok
        (λ r m e b.
          let lawful = In_of_All IsLawful r store hs m in
          foreign_changes-IsLawful changes (r, b) foreign lawful.0
            (IsOther-of_related r q.related lawful e nr))
        (λ r m k b.
          let lawful = In_of_All IsLawful r first hf m in
          foreign_changes-IsLawful changes (r, b) foreign lawful.0
            (IsOther-of_matched r t lawful (In_of_All _ ("type", t) q.exclusive_filters k n) nt))

  written-IsSound :
      (store : Resources) (q : Query) (k : Query → Effect) (o : Option (Resources × Query))
      → All IsLawful store
      → ((q' : Query) → IsSame q q' → WritesLawful (k q'))
      → ((after : Resources) (q' : Query) → o ≡ some (after, q') → All IsLawful after × IsSame q q')
      → All IsLawful (written store k o).0 × All (IsFair p.lowercase) (written store k o).1
  unfolding written
  written-IsSound store q k none h f g = (h, (tt, tt))
  written-IsSound store q k (some (after, q')) h f g =
      let (lawful, same) = g after q' refl in (lawful, (f q' same, tt))

  advance-IsSound :
      ((status : String) → WritesLawful (route p status))
      → (m : Moment) (code : ℕ) (store : Resources) (a : Task) → All IsLawful store
      → IsFair p.lowercase a
      → All IsLawful (advance p m code store a).0
        × All (IsFair p.lowercase) (advance p m code store a).1
  unfolding advance
  advance-IsSound rounds m code store (Task.running Effect.done) h f = (h, tt)
  advance-IsSound rounds m code store (Task.running Effect.raise) h f = (h, tt)
  advance-IsSound rounds m code store (Task.running Effect.fault) h f = (h, (tt, tt))
  advance-IsSound rounds m code store (Task.running (Effect.close r e)) h f = (h, (f, tt))
  advance-IsSound rounds m code store (Task.running (Effect.log l e)) h f = (h, (f, tt))
  advance-IsSound rounds m code store (Task.running (Effect.schedule status e)) h f =
      (h, (f, (rounds status, tt)))
  advance-IsSound rounds m code store (Task.running (Effect.create rs q k)) h (a, f) = (
    create-All p.lowercase IsLawful store rs q h a,
    (f m _ (create-IsSame p.lowercase store rs q), tt),
  )
  advance-IsSound rounds m code store (Task.running (Effect.read q k)) h f =
      (h, ((λ m' store' h'. f m' _ (answer-IsSame p.lowercase store' q _)), tt))
  advance-IsSound rounds m code store (Task.running (Effect.update changes q k)) h (a, f) = (
    h,
    (
      (λ m' store' h'.
          let same = found-IsSame store store' q in
          (
            found-Accepts store store' changes q h h' a,
            λ m'' q' s. f m'' q' (s.0 ∙ same.0, s.1 ∙ same.1),
          )),
      tt,
    ),
  )
  advance-IsSound rounds m code store (Task.running (Effect.destroy q k)) h f = (
    h,
    (
      (λ m' store' h' m'' q' s.
          let same = answer-IsSame p.lowercase store' q (Stl.candidates p.lowercase q.keys store) in
          f m'' q' (s.0 ∙ same.0, s.1 ∙ same.1)),
      tt,
    ),
  )
  advance-IsSound rounds m code store (Task.reading copied q k) h f = (h, (f m store h, tt))
  advance-IsSound rounds m code store (Task.running (Effect.deliver d k)) h f = (h, (f m code, tt))
  advance-IsSound rounds m code store (Task.updating changes q k) h (a, f) =
      written-IsSound store q (k m) (Stl.updated p.lowercase store changes q) h (f m)
        (λ after q' e. updated-All p.lowercase IsLawful store changes q q' after a h e)
  advance-IsSound rounds m code store (Task.erasing q k) h f =
      written-IsSound store q (k m) (Stl.erased p.lowercase store q) h (f m)
        (λ after q' e. erased-All p.lowercase IsLawful store q q' after h e)
  advance-IsSound rounds m code store Task.crashed h f = (h, (tt, tt))

  -- Where what arrives and the rounds of the dispatcher write lawful resources only, every step does.
  Step-IsSound :
      (Arrives : Effect → Type 0) (t u : State)
      → ((status : String) → WritesLawful (route p status))
      → ((e : Effect) → Arrives e → WritesLawful e)
      → IsSound p.lowercase t
      → Step p Arrives t u
      → IsSound p.lowercase u
  Step-IsSound Arrives t u rounds arrivals h (Step.arrive e a q) =
      subst (IsSound p.lowercase) (sym q)
        (record { stored = h.stored; fair = (arrivals e a, h.fair) })
  Step-IsSound Arrives t u rounds arrivals h (Step.work m code before after a e q) =
      let fair = subst (All (IsFair p.lowercase)) e h.fair in
      let (first, task, last) = All-split before after a fair in
      let (stored, more) = advance-IsSound rounds m code t.store a h.stored task in
      subst (IsSound p.lowercase) (sym q) (record {
        stored = stored;
        fair =
            All-append (IsFair p.lowercase) before _ first
              (All-append (IsFair p.lowercase) _ after more last);
      })
    where
      All-split :
          (before after : List Task) (a : Task)
          → All (IsFair p.lowercase) (before ++ a ∷ after)
          → All (IsFair p.lowercase) before × IsFair p.lowercase a × All (IsFair p.lowercase) after
      All-split [] after a (h, hs) = (tt, h, hs)
      All-split (b ∷ before) after a (h, hs) =
          let (first, task, last) = All-split before after a hs in ((h, first), task, last)

  pub Reach-IsSound :
      (Arrives : Effect → Type 0) (t u : State)
      → ((status : String) → WritesLawful (route p status))
      → ((e : Effect) → Arrives e → WritesLawful e)
      → IsSound p.lowercase t
      → Reach p Arrives t u
      → IsSound p.lowercase u
  Reach-IsSound Arrives t u rounds arrivals h Reach.here = h
  Reach-IsSound Arrives t u rounds arrivals h (Reach.next {u = v} r s) =
      Step-IsSound Arrives v u rounds arrivals (Reach-IsSound Arrives t v rounds arrivals h r) s
