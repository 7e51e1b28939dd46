-- ===== src/Stl/Filter.antt =====
-- Which resources STLRepository::filter keeps.
use restq.Base.{
  ℕ, suc, String, Bool, true, false, not, List, [], ◌∷◌, ◌==◌, eqb, length, any, any_of_In,
  In-of_any, or_true, subst, map, sym, ap, ◌∙◌, eq_refl, ◌≡◌, ◌≢◌, refl, ◌↔◌, eq_iff, arith, All,
  In, here, there, Bool-cases, inl, inr,
}
use mathlib.Core.Bool.{true≢false, not-not}
use restq.Multimap.{Multimap, equal_range}
use restq.Resource.{Resource}
use restq.Stl.{exclusive_fails, group_fails, inclusive_fails, keeps}

-- The resource has every property that the filters name, with the value that they name.
abbrev pub Matches : Resource → Multimap → Type 0
Matches r = All (λ f. In f.1 (equal_range f.0 r))

Matches-of_passing :
    (r : Resource) (fs : Multimap) → exclusive_fails r fs false ≡ false → Matches r fs
unfolding exclusive_fails
Matches-of_passing r [] h = tt
Matches-of_passing r ((name, value) ∷ fs) h =
    elim (Bool-cases (any (λ v. v == value) (equal_range name r))) [
      | inl e ↦ (In-of_any value (equal_range name r) e, Matches-of_passing r fs (rw e at h))
      | inr e ↦ absurd (true≢false (rw e at h))
    ]

passing_of_Matches :
    (r : Resource) (fs : Multimap) → Matches r fs → exclusive_fails r fs false ≡ false
unfolding exclusive_fails
passing_of_Matches r [] h = refl
passing_of_Matches r ((name, value) ∷ fs) (m, ms) =
    rw (any_of_In value (equal_range name r) m) (passing_of_Matches r fs ms)

-- The flag that the loop starts with is forgotten at the first filter.
exclusive_fails_start :
    (r : Resource) (f : String × String) (fs : Multimap) (b : Bool)
    → exclusive_fails r (f ∷ fs) b ≡ exclusive_fails r (f ∷ fs) false
unfolding exclusive_fails
exclusive_fails_start r f fs b = refl

no_filters : (r : Resource) → keeps [] [] r ≡ true
unfolding keeps exclusive_fails
no_filters r = refl

-- With exclusive filters only, a resource is kept exactly when it has all that they name.
pub keeps_exclusive : (r : Resource) (fs : Multimap) → (keeps [] fs r ≡ true) ↔ Matches r fs
unfolding keeps
keeps_exclusive r [] = (λ h. tt, λ h. no_filters r)
keeps_exclusive r (f ∷ fs) = (
  λ h. Matches-of_passing r (f ∷ fs) (ground (arith, exclusive_fails_start r f fs true)),
  λ h. ground (arith, exclusive_fails_start r f fs true, passing_of_Matches r (f ∷ fs) h),
)

-- Whatever the inclusive filters are, what is kept has all that the exclusive ones name.
pub keeps-Matches :
    (r : Resource) (inclusive fs : Multimap) → keeps inclusive fs r ≡ true → Matches r fs
unfolding keeps
keeps-Matches r inclusive [] h = tt
keeps-Matches r inclusive (f ∷ fs) h =
    Matches-of_passing r (f ∷ fs) (ground (arith, exclusive_fails_start r f fs true))

abbrev pub under : String → List String → Multimap
under name = map (λ v. (name, v))

equal_range-under : (name : String) (vs : List String) → equal_range name (under name vs) ≡ vs
unfolding equal_range
equal_range-under name [] = refl
equal_range-under name (v ∷ vs) = rw (eq_refl name, equal_range-under name vs)

length-under : (name : String) (vs : List String) → length (under name vs) ≡ length vs
length-under name [] = refl
length-under name (v ∷ vs) = ap suc (length-under name vs)

eqb_self : (n : ℕ) → eqb n n ≡ true
eqb_self n = ground arith

inclusive_fails-under :
    (r : Resource) (all : Multimap) (name : String) (vs : List String) (b : Bool)
    → group_fails r all name ≡ b
    → inclusive_fails r all (under name vs) 0 b ≡ b
unfolding inclusive_fails
inclusive_fails-under r all name [] b h = refl
inclusive_fails-under r all name (v ∷ vs) true h = rw h
inclusive_fails-under r all name (v ∷ vs) false h =
    rw (h, equal_range-under name vs, length-under name vs, eqb_self (length vs))
      (inclusive_fails-under r all name vs false h)

-- Some value of the list is a value of the property.
abbrev pub HasOne : Resource → String → List String → Type 0
HasOne r name vs = (v : String) × In v vs × In v (equal_range name r)

HasOne-of_any :
    (r : Resource) (name : String) (vs : List String)
    → any (λ w. any (λ v. v == w) (equal_range name r)) vs ≡ true
    → HasOne r name vs
HasOne-of_any r name [] h = cc
HasOne-of_any r name (w ∷ vs) h = elim (Bool-cases (any (λ v. v == w) (equal_range name r))) [
  | inl e ↦ (w, here refl, In-of_any w (equal_range name r) e)
  | inr e ↦ let (v, m, n) = HasOne-of_any r name vs (rw e at h) in (v, there m, n)
]

any_of_HasOne :
    (r : Resource) (name v : String) (vs : List String)
    → In v vs
    → In v (equal_range name r)
    → any (λ w. any (λ v. v == w) (equal_range name r)) vs ≡ true
any_of_HasOne r name v [] m n = elim m [ ]
any_of_HasOne r name v (w ∷ vs) (here e) n =
    rw (any_of_In w (equal_range name r) (subst (λ x. In x (equal_range name r)) e n))
any_of_HasOne r name v (w ∷ vs) (there m) n =
    rw (any_of_HasOne r name v vs m n) (or_true (any (λ v. v == w) (equal_range name r)))

inclusive_fails_start :
    (r : Resource) (all rest : Multimap) (f : String × String) (b c : Bool)
    → inclusive_fails r all (f ∷ rest) 0 b ≡ inclusive_fails r all (f ∷ rest) 0 c
unfolding inclusive_fails
inclusive_fails_start r all rest f b c = refl

keeps_under :
    (r : Resource) (name v : String) (vs : List String)
    → keeps (under name (v ∷ vs)) [] r ≡ not (group_fails r (under name (v ∷ vs)) name)
unfolding keeps exclusive_fails
keeps_under r name v vs =
    let all = under name (v ∷ vs) in
    let b = group_fails r all name in
    ap not (
      inclusive_fails_start r all (under name vs) (name, v) true b
      ∙ inclusive_fails-under r all name (v ∷ vs) b refl)

-- Inclusive filters of one name keep a resource exactly when it has one of their values.
pub keeps_inclusive :
    (r : Resource) (name v : String) (vs : List String)
    → (keeps (under name (v ∷ vs)) [] r ≡ true) ↔ HasOne r name (v ∷ vs)
unfolding group_fails
keeps_inclusive r name v vs =
    let found = any (λ w. any (λ v. v == w) (equal_range name r)) (v ∷ vs) in
    let e : keeps (under name (v ∷ vs)) [] r ≡ found =
      keeps_under r name v vs ∙ rw (equal_range-under name (v ∷ vs)) (not-not found) in
    (
      λ h. HasOne-of_any r name (v ∷ vs) (sym e ∙ h),
      λ (u, m, n). e ∙ any_of_HasOne r name u (v ∷ vs) m n,
    )

-- Where two different names are filtered inclusively, one value each, the second name is passed over,
-- whatever the exclusive filters are.
pub second_name_ignored :
    (r : Resource) (a b v w : String) (exclusive : Multimap)
    → a ≢ b
    → keeps ((a, v) ∷ (b, w) ∷ []) exclusive r ≡ keeps ((a, v) ∷ []) exclusive r
unfolding keeps inclusive_fails group_fails equal_range
second_name_ignored r a b v w exclusive h =
    let apart : (a == b) ≡ false = ground (arith, eq_iff a b) in
    rw (eq_refl a, apart) (ground arith)
