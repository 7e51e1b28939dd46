-- ===== src/Exchange/Contract.antt =====
-- What the handlers (exchange_impl.cpp) owe a request, and what they rely on from a repository
-- (repository.hpp): every request is answered once.
use restq.Base.{
  ℕ, String, Bool, true, false, List, [], ◌∷◌, Option, some, less, ◌≡◌, ◌≢◌, ◌⊎◌, inl, inr, refl,
  sym, subst, arith, All, In, here, there, Bool-cases, if◌then◌else◌, get_last?, eq_iff,
  less_irrefl,
}
use restq.Effects.{Effect, Response, at, get}
use restq.ErrorHandler.{compose, close_with}
use restq.ErrorHandler.Laws.{Answers, IsPrepared}
use restq.Exchange.Limits.{HasNumber}
use restq.Exchange.States.{IsServed}
use restq.Multimap.{Multimap, insert, has, value_at, lower_bound}
use restq.Platform.{Moment}
use restq.Query.{Query, has_failed}
use restq.Resource.{Resource, Resources, queue_type, message_type, subscription_type}
use restq.Session.{Session}

-- A queue as the exchange makes it.
abbrev pub IsQueue : Resource → Type 0
IsQueue r =
    IsServed r
    × ((n : ℕ) × HasNumber "message-limit" r n)
    × ((n : ℕ) × HasNumber "message-size-limit" r n)
    × ((n : ℕ) × HasNumber "subscription-limit" r n)

-- A resource as a repository gives it back.
pub record IsFit (r : Resource) : Type 0 where
  pub keyed : (k : String) × (value_at "key" r ≡ some k)
  pub typed : (t : String) × (value_at "type" r ≡ some t)
  pub queue : value_at "type" r ≡ some queue_type → IsQueue r
  pub subscription :
      value_at "type" r ≡ some subscription_type → (e : String) × (value_at "endpoint" r ≡ some e)

-- The time of its last change is a number of seconds, where it has one.
abbrev pub IsDated : Resource → Type 0
IsDated r = (has "modified" r ≡ false) ⊎ ((n : ℕ) × HasNumber "modified" r n)

-- A repository answers for the session that asks, with fit resources where it has not failed.
pub record Replies (q q' : Query) : Type 0 where
  pub same_session : q'.session ≡ q.session
  pub fit : has_failed q' ≡ false → All IsFit q'.resultset

-- An answer about resources of a type that is not the messages' has dated ones only.
abbrev pub IsDatedFor : Query → Query → Type 0
IsDatedFor q q' =
    (t : String)
    → In ("type", t) q.exclusive_filters
    → t ≢ message_type
    → has_failed q' ≡ false
    → All IsDated q'.resultset

-- A read without related resources finds resources of the type that it asks for.
abbrev pub Finds : Query → Query → Type 0
Finds q q' =
    Replies q q'
    × IsDatedFor q q'
    × ((t : String)
        → In ("type", t) q.exclusive_filters
        → q.related ≡ ""
        → has_failed q' ≡ false
        → All (λ r. value_at "type" r ≡ some t) q'.resultset)

-- A creation of something gives something back.
abbrev pub Creates : Resources → Query → Query → Type 0
Creates rs q q' = Replies q q' × (has_failed q' ≡ false → q'.resultset ≡ [] → rs ≡ [])

abbrev pub Updates : Query → Query → Type 0
Updates q q' = Replies q q' × IsDatedFor q q'

-- The session is not answered any more.
abbrev pub IsSilent : Effect → Type 0
IsSilent Effect.done = Unit
IsSilent (Effect.log l e) = IsSilent e
IsSilent (Effect.schedule status e) = IsSilent e
IsSilent _ = ⊥

-- The session is closed once, whatever the repository replies, and whenever.
abbrev pub IsClosing : Effect → Type 0
IsClosing Effect.done = ⊥
IsClosing Effect.raise = ⊥
IsClosing Effect.fault = ⊥
IsClosing (Effect.close r e) = IsSilent e
IsClosing (Effect.log l e) = IsClosing e
IsClosing (Effect.schedule status e) = IsClosing e
IsClosing (Effect.create rs q k) = (m : Moment) (q' : Query) → Creates rs q q' → IsClosing (k m q')
IsClosing (Effect.read q k) = (m : Moment) (q' : Query) → Finds q q' → IsClosing (k m q')
IsClosing (Effect.update r q k) = (m : Moment) (q' : Query) → Updates q q' → IsClosing (k m q')
IsClosing (Effect.destroy q k) = (m : Moment) (q' : Query) → Replies q q' → IsClosing (k m q')
IsClosing (Effect.deliver d k) = ⊥

-- A handler closes its session exactly once; it throws no exception, and reads nothing through the
-- end of a container.
pub record ClosesOnce (e : Effect) : Type 0 where
  pub closing : IsClosing e

pub closes_now : (r : Response) → ClosesOnce (Effect.close r Effect.done)
closes_now r = record { closing = tt }

pub ClosesOnce-of_Answers : (status : ℕ) (e : Effect) → Answers status e → ClosesOnce e
ClosesOnce-of_Answers status e (r, q, h) = subst ClosesOnce (sym q) (closes_now r)

pub ClosesOnce-if :
    (b : Bool) (x y : Effect) → ClosesOnce x → ClosesOnce y → ClosesOnce (if b then x else y)
ClosesOnce-if true x y h k = h
ClosesOnce-if false x y h k = k

-- What is read is there.
pub at-ClosesOnce {ℓ} :
    {A : Type ℓ} (o : Option A) (k : A → Effect)
    → (a : A) × (o ≡ some a)
    → ((a : A) → ClosesOnce (k a))
    → ClosesOnce (at o k)
at-ClosesOnce o k (a, e) h = subst (λ x. ClosesOnce (at x k)) (sym e) (h a)

pub get-ClosesOnce {ℓ} :
    {A : Type ℓ} (o : Option A) (k : A → Effect)
    → (a : A) × (o ≡ some a)
    → ((a : A) → ClosesOnce (k a))
    → ClosesOnce (get o k)
get-ClosesOnce o k (a, e) h = subst (λ x. ClosesOnce (get x k)) (sym e) (h a)

-- A request to the repository, and every reply to it.
pub read-ClosesOnce :
    (q : Query) (k : Moment → Query → Effect)
    → ((m : Moment) (q' : Query) → Finds q q' → ClosesOnce (k m q'))
    → ClosesOnce (Effect.read q k)
read-ClosesOnce q k h = record { closing = λ m q' r. (h m q' r).closing }

pub create-ClosesOnce :
    (rs : Resources) (q : Query) (k : Moment → Query → Effect)
    → ((m : Moment) (q' : Query) → Creates rs q q' → ClosesOnce (k m q'))
    → ClosesOnce (Effect.create rs q k)
create-ClosesOnce rs q k h = record { closing = λ m q' r. (h m q' r).closing }

pub update-ClosesOnce :
    (r : Resource) (q : Query) (k : Moment → Query → Effect)
    → ((m : Moment) (q' : Query) → Updates q q' → ClosesOnce (k m q'))
    → ClosesOnce (Effect.update r q k)
update-ClosesOnce r q k h = record { closing = λ m q' r. (h m q' r).closing }

pub destroy-ClosesOnce :
    (q : Query) (k : Moment → Query → Effect)
    → ((m : Moment) (q' : Query) → Replies q q' → ClosesOnce (k m q'))
    → ClosesOnce (Effect.destroy q k)
destroy-ClosesOnce q k h = record { closing = λ m q' r. (h m q' r).closing }

pub close_with-ClosesOnce :
    (status : ℕ) (s : Session) (body : String) (headers : Multimap)
    → IsPrepared s
    → ClosesOnce (close_with status s body headers)
close_with-ClosesOnce status s body headers (_, _, echo) =
    get-ClosesOnce s.echo _ echo (λ b. closes_now _)

pub compose-ClosesOnce :
    (s : Session) (values : Resources) (k : String → Effect)
    → IsPrepared s
    → ((body : String) → ClosesOnce (k body))
    → ClosesOnce (compose s values k)
compose-ClosesOnce s values k (format, style, _) h =
    get-ClosesOnce s.accept_format _ format
      λ f. get-ClosesOnce s.style _ style λ b. h (f.compose values b)

-- What a multimap counts it also finds.
pub value_at_of_has :
    (k : String) (m : Multimap) → has k m ≡ true → (v : String) × (value_at k m ≡ some v)
unfolding has value_at lower_bound
value_at_of_has k [] h = absurd (cc)
value_at_of_has k ((j, w) ∷ m) h = elim (Bool-cases (less j k)) [
  | inl e ↦ rw e (value_at_of_has k m (ground (arith, eq_iff k j, less_irrefl k)))
  | inr e ↦ rw e (w, refl)
]

pub last-All {ℓ κ} :
    {A : Type ℓ} (P : A → Type κ) (xs : List A) (a : A) → All P xs → get_last? xs ≡ some a → P a
last-All P [] a h e = absurd (cc)
last-All P (x ∷ []) a (h, hs) e = subst P (cc) h
last-All P (x ∷ y ∷ ys) a (h, hs) e = last-All P (y ∷ ys) a hs e

pub In-insert : (k v : String) (m : Multimap) → In (k, v) (insert k v m)
unfolding insert
In-insert k v [] = here refl
In-insert k v ((j, w) ∷ m) = elim (Bool-cases (less k j)) [
  | inl e ↦ rw e (here refl)
  | inr e ↦ rw e (there (In-insert k v m))
]
