-- ===== src/Workers/Lawful.antt =====
-- What is kept of every stored resource, and the changes (apply_changes of stl_repository.cpp) that
-- keep it.
use restq.Base.{
  String, Bool, false, ◌||◌, List, [], ◌∷◌, ◌==◌, ◌≡◌, ◌≢◌, ◌⊎◌, inl, inr, refl, sym, ◌∙◌, arith,
  All, In, Bool-cases, subst,
}
use restq.Dispatch.{pending, rejected, inflight, suspended, dispatched, unreachable}
use restq.Multimap.{Multimap, equal_range, assign}
use restq.Multimap.Laws.{IsSorted, find_first}
use restq.Resource.{Resource, state_type}
use restq.Stl.{apply_change, apply_changes}
use restq.Stl.Changing.{apply_change-IsSorted, equal_range-apply_change, apply_change_sets}
use restq.Stl.Updating.{HasOnly}

-- One of the six that the dispatcher knows.
abbrev pub IsStatus : String → Type 0
IsStatus s = In s (pending ∷ rejected ∷ inflight ∷ suspended ∷ dispatched ∷ unreachable ∷ [])

-- What tells the dispatcher what to send, and where.
abbrev pub wires : List String
wires = "key" ∷ "queue-key" ∷ "message-key" ∷ "subscription-key" ∷ "subscription-endpoint" ∷ []

abbrev pub HasOne : Resource → String → Type 0
HasOne r name = (v : String) × HasOnly name v r

-- A state of a message: it has one status, which the dispatcher knows, and one of each wire.
abbrev pub IsState : Resource → Type 0
IsState r =
    HasOnly "type" state_type r
    × ((s : String) × HasOnly "status" s r × IsStatus s)
    × All (HasOne r) wires

-- The first type is another one.
abbrev pub IsOther : Resource → Type 0
IsOther r = (t : String) × (ts : List String) × (equal_range "type" r ≡ t ∷ ts) × (t ≢ state_type)

abbrev pub IsLawful : Resource → Type 0
IsLawful r = IsSorted r × (IsOther r ⊎ IsState r)

-- A change that any resource may get.
abbrev pub IsTame : String × String → Type 0
IsTame (name, value) =
    (("type" == name) ≡ false)
    × All (λ k. (k == name) ≡ false) wires
    × ((("status" == name) ≡ false) ⊎ ((name ≡ "status") × IsStatus value))

-- A change that a resource of another type may get.
abbrev pub IsForeign : String × String → Type 0
IsForeign (name, value) = (("type" == name) ≡ false) ⊎ ((name ≡ "type") × (value ≢ state_type))

equal_range-assign_first :
    (k v w : String) (ts : List String) (r : Resource)
    → equal_range k r ≡ w ∷ ts
    → equal_range k (assign k v r) ≡ v ∷ ts
unfolding equal_range assign
equal_range-assign_first k v w ts [] h = cc
equal_range-assign_first k v w ts ((i, u) ∷ r) h =
    ground (arith, equal_range-assign_first k v w ts r)

module _ (name value : String) (s : Resource × Bool) (sorted : IsSorted s.0) where
  HasOnly-apply_change :
      (k v : String)
      → (k == name) ≡ false
      → HasOnly k v s.0
      → HasOnly k v (apply_change name value s).0
  HasOnly-apply_change k v d h = equal_range-apply_change k name value s d sorted ∙ h

  wires-apply_change :
      (ks : List String)
      → All (λ k. (k == name) ≡ false) ks
      → All (HasOne s.0) ks
      → All (HasOne (apply_change name value s).0) ks
  wires-apply_change [] d h = tt
  wires-apply_change (k ∷ ks) (d, ds) ((v, h), hs) =
      ((v, HasOnly-apply_change k v d h), wires-apply_change ks ds hs)

  tame-IsState : IsTame (name, value) → IsState s.0 → IsState (apply_change name value s).0
  tame-IsState (d, w, inl e) (ht, (t, hs, k), hw) = (
    HasOnly-apply_change "type" state_type d ht,
    (t, HasOnly-apply_change "status" t e hs, k),
    wires-apply_change wires w hw,
  )
  tame-IsState (d, w, inr (e, k')) (ht, (t, hs, k), hw) = (
    HasOnly-apply_change "type" state_type d ht,
    (
      value,
      subst (λ n. HasOnly n value (apply_change name value s).0) e
          (apply_change_sets name value t s
            (subst (λ n. (n == "modified" || n == "revision") ≡ false) (sym e) refl)
            (subst (λ n. HasOnly n t s.0) (sym e) hs)),
      k',
    ),
    wires-apply_change wires w hw,
  )

  keeps-IsOther : ("type" == name) ≡ false → IsOther s.0 → IsOther (apply_change name value s).0
  keeps-IsOther d (t, ts, e, n) =
      (t, ts, equal_range-apply_change "type" name value s d sorted ∙ e, n)

  tame-IsLawful :
      IsTame (name, value) → IsOther s.0 ⊎ IsState s.0 → IsLawful (apply_change name value s).0
  tame-IsLawful tame (inl h) =
      (apply_change-IsSorted name value s sorted, inl (keeps-IsOther tame.0 h))
  tame-IsLawful tame (inr h) =
      (apply_change-IsSorted name value s sorted, inr (tame-IsState tame h))

retyped-IsOther :
    (value : String) (s : Resource × Bool)
    → value ≢ state_type
    → IsOther s.0
    → IsOther (apply_change "type" value s).0
unfolding apply_change
retyped-IsOther value (r, b) n (t, ts, e, nt) = elim (Bool-cases (t == value)) [
  | inl same ↦ rw (find_first "type" t ts r e, same) (t, ts, e, nt)
  | inr d ↦
      rw (find_first "type" t ts r e, d)
        (value, ts, equal_range-assign_first "type" value t ts r e, n)
]

foreign-IsOther :
    (name value : String) (s : Resource × Bool)
    → IsSorted s.0
    → IsForeign (name, value)
    → IsOther s.0
    → IsOther (apply_change name value s).0
foreign-IsOther name value s sorted (inl d) h = keeps-IsOther name value s sorted d h
foreign-IsOther name value s sorted (inr (e, n)) h =
    subst (λ k. IsOther (apply_change k value s).0) (sym e) (retyped-IsOther value s n h)

pub tame_changes-IsLawful :
    (changes : Multimap) (s : Resource × Bool)
    → All IsTame changes
    → IsLawful s.0
    → IsLawful (apply_changes changes s).0
unfolding apply_changes
tame_changes-IsLawful [] s a h = h
tame_changes-IsLawful ((name, value) ∷ changes) s (a, as') (sorted, h) =
    tame_changes-IsLawful changes (apply_change name value s) as'
      (tame-IsLawful name value s sorted a h)

pub foreign_changes-IsLawful :
    (changes : Multimap) (s : Resource × Bool)
    → All IsForeign changes
    → IsSorted s.0
    → IsOther s.0
    → IsLawful (apply_changes changes s).0
unfolding apply_changes
foreign_changes-IsLawful [] s a sorted h = (sorted, inl h)
foreign_changes-IsLawful ((name, value) ∷ changes) s (a, as') sorted h =
    foreign_changes-IsLawful changes (apply_change name value s) as'
      (apply_change-IsSorted name value s sorted) (foreign-IsOther name value s sorted a h)
