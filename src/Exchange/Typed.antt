-- ===== src/Exchange/Typed.antt =====
-- What the requests for one type of resource leave to the others, where the repository is the one
-- of the example.
use restq.Base.{
  String, [], ◌∷◌, some, less, ◌≡◌, refl, In, here, there, In_of_All, Bool-cases, inl, inr,
}
use restq.Exchange.{typed_query}
use restq.Multimap.{Multimap, insert, equal_range}
use restq.Query.{Query, of_session, or_keep, set_exclusive_filter}
use restq.Resource.{Resource, Resources}
use restq.Session.{Session}
use restq.Stl.{destroy}
use restq.Stl.Deleting.{destroy_others}
use restq.Stl.Filter.{Matches}
use restq.Stl.Keys.{KeysDistinct}

In-insert : (k v : String) (m : Multimap) → In (k, v) (insert k v m)
unfolding insert
In-insert k v [] = here refl
In-insert k v ((j, w) ∷ m) = elim (Bool-cases (less k j)) [
  | inl e ↦ rw e (here refl)
  | inr e ↦ rw e (there (In-insert k v m))
]

-- One of the resource's types is `type`.
abbrev pub IsOf : String → Resource → Type 0
IsOf type r = In type (equal_range "type" r)

IsOf-Matches :
    (type : String) (s : Session) (r : Resource)
    → Matches r (typed_query type s).exclusive_filters
    → IsOf type r
unfolding typed_query set_exclusive_filter
IsOf-Matches type s r h =
    In_of_All _ ("type", type) _ h (In-insert "type" type (of_session s).exclusive_filters)

-- The request asks for whole resources and for no related ones.
abbrev pub IsPlain : Session → Type 0
IsPlain s = (or_keep s.fields [] ≡ []) × (or_keep s.related "" ≡ "")

module _ (lowercase : String → String) where
  -- A deletion that asks for whole resources of a type and no related ones leaves every resource that
  -- is not of it, where the keys in the store are distinct and the deletion is defined.
  pub destroy_typed :
      (store after : Resources) (type : String) (s : Session) (q : Query) (r : Resource)
      → KeysDistinct lowercase store
      → IsPlain s
      → destroy lowercase store (typed_query type s) ≡ some (after, q)
      → In r store
      → ¬ IsOf type r
      → In r after
  unfolding typed_query set_exclusive_filter of_session
  destroy_typed store after type s q r d (hf, hr) e m h =
      destroy_others lowercase store after (typed_query type s) q r d hf hr e m
        (λ f. h (IsOf-Matches type s r f))
