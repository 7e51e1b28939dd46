-- ===== src/Stl/Changing.antt =====
-- One change of an update: what it leaves of the order of a resource and of its other properties.
use restq.Base.{
  String, Bool, false, [], ◌∷◌, ◌==◌, ◌≡◌, refl, ◌∙◌, eq_iff, Bool-cases, Option-cases, inl, inr,
  ap, ◌||◌, if_not, true, arith, ◌⊎◌,
}
use restq.Multimap.{Multimap, insert, equal_range, find, assign}
use restq.Multimap.Laws.{IsSorted, insert-IsSorted, equal_range-insert, find_first}
use restq.Resource.{Resource}
use restq.Stl.{apply_change, apply_changes}
use restq.Stl.Updating.{HasOnly, equal_range-assign, equal_range-assign_self, assign-IsSorted}

-- Each of the outcomes of a change: the resource as it was, or with an insertion or an assignment.
change_cases :
    (P : Resource → Type 0) (name value : String) (s : Resource × Bool)
    → P s.0
    → P (insert name value s.0)
    → P (assign name value s.0)
    → P (apply_change name value s).0
unfolding apply_change
change_cases P name value (r, b) same added set =
    elim (Bool-cases (name == "modified" || name == "revision")) [
      | inl e ↦ rw e same
      | inr e ↦ elim (Option-cases (find name r)) [
        | inl f ↦ rw (e, f) added
        | inr (old, f) ↦ elim (Bool-cases (old == value)) [
          | inl g ↦ rw (e, f, g) same
          | inr g ↦ rw (e, f, g) set
        ]
      ]
    ]

pub apply_change-IsSorted :
    (name value : String) (s : Resource × Bool)
    → IsSorted s.0
    → IsSorted (apply_change name value s).0
apply_change-IsSorted name value s h =
    change_cases IsSorted name value s h (insert-IsSorted name value s.0 h)
      (assign-IsSorted name value s.0 h)

pub equal_range-apply_change :
    (k name value : String) (s : Resource × Bool)
    → (k == name) ≡ false
    → IsSorted s.0
    → equal_range k (apply_change name value s).0 ≡ equal_range k s.0
equal_range-apply_change k name value s d h =
    change_cases (λ r. equal_range k r ≡ equal_range k s.0) name value s refl
      (equal_range-insert k name value s.0 h ∙ if_not (k == name) _ _ d)
      (equal_range-assign k name value s.0 d)

-- A change of a property that the resource has once sets it.
pub apply_change_sets :
    (name value old : String) (s : Resource × Bool)
    → (name == "modified" || name == "revision") ≡ false
    → HasOnly name old s.0
    → HasOnly name value (apply_change name value s).0
unfolding apply_change
apply_change_sets name value old (r, b) m h = elim (Bool-cases (old == value)) [
  | inl e ↦ rw (m, find_first name old [] r h, e) (h ∙ ap (λ v. v ∷ []) ((eq_iff old value).0 e))
  | inr e ↦ rw (m, find_first name old [] r h, e) (equal_range-assign_self name value old r h)
]

apply_change_skipped :
    (name value : String) (s : Resource × Bool)
    → (name == "modified" || name == "revision") ≡ true
    → apply_change name value s ≡ s
unfolding apply_change
apply_change_skipped name value (r, b) e = rw e refl

apply_change_stale :
    (k name value : String) (s : Resource × Bool)
    → (k ≡ "modified") ⊎ (k ≡ "revision")
    → IsSorted s.0
    → equal_range k (apply_change name value s).0 ≡ equal_range k s.0
apply_change_stale k name value s stamp h = elim (Bool-cases (k == name)) [
  | inl e ↦
      let passed : (name == "modified" || name == "revision") ≡ true =
        ground (arith, eq_iff k name, eq_iff name "modified", eq_iff name "revision") in
      ap (λ (t : Resource × Bool). equal_range k t.0) (apply_change_skipped name value s passed)
  | inr d ↦ equal_range-apply_change k name value s d h
]

-- Whatever an update changes, it leaves a resource in order with the times and the revisions that it
-- has.
pub apply_changes_stale :
    (changes : Multimap) (s : Resource × Bool)
    → IsSorted s.0
    → (equal_range "modified" (apply_changes changes s).0 ≡ equal_range "modified" s.0)
      × (equal_range "revision" (apply_changes changes s).0 ≡ equal_range "revision" s.0)
unfolding apply_changes
apply_changes_stale [] s h = (refl, refl)
apply_changes_stale ((name, value) ∷ changes) s h =
    let (m, r) =
      apply_changes_stale changes (apply_change name value s)
        (apply_change-IsSorted name value s h) in
    (
      m ∙ apply_change_stale "modified" name value s (inl refl) h,
      r ∙ apply_change_stale "revision" name value s (inr refl) h,
    )
