-- ===== src/Multimap/Laws.antt =====
-- The laws of multimaps that the components use.
use restq.Base.{
  String, ◌≡◌, refl, true, List, [], ◌∷◌, ◌++◌, some, ◌==◌, less, if◌then◌else◌, arith, Bool-cases,
  eq_iff, inl, inr, All, NotAfter, less_irrefl, less_asymm, eq_of_not-less, NotAfter-trans,
  less-NotAfter-trans, ◌≢◌, ◌↔◌,
}
use restq.Multimap.{Multimap, insert, equal_range, has, lower_bound, value_at, find}

-- Each key comes before, or is, the keys behind it.
abbrev pub IsSorted : Multimap → Type 0
IsSorted [] = Unit
IsSorted ((k, v) ∷ m) = All (λ e. NotAfter k e.0) m × IsSorted m

pub insert-All :
    (P : String → Type 0) (k v : String) (m : Multimap)
    → P k
    → All (λ e. P e.0) m
    → All (λ e. P e.0) (insert k v m)
unfolding insert
insert-All P k v [] p h = (p, tt)
insert-All P k v ((j, w) ∷ m) p (q, h) = ground (arith, insert-All P k v m p h)

NotAfter-All :
    (k j : String) (m : Multimap)
    → NotAfter k j
    → All (λ e. NotAfter j e.0) m
    → All (λ e. NotAfter k e.0) m
NotAfter-All k j [] h hs = tt
NotAfter-All k j ((i, w) ∷ m) h (a, hs) = (NotAfter-trans k j i h a, NotAfter-All k j m h hs)

pub insert-IsSorted : (k v : String) (m : Multimap) → IsSorted m → IsSorted (insert k v m)
unfolding insert
insert-IsSorted k v [] s = (tt, tt)
insert-IsSorted k v ((j, w) ∷ m) (h, s) = elim (Bool-cases (less k j)) [
  | inl e ↦ rw e ((less_asymm k j e, NotAfter-All k j m (less_asymm k j e) h), (h, s))
  | inr e ↦ rw e (insert-All (NotAfter j) k v m e h, insert-IsSorted k v m s)
]

-- `count` after an insertion.
pub has-insert :
    (k j v : String) (m : Multimap) → has k (insert j v m) ≡ (if k == j then true else has k m)
unfolding has insert
has-insert k j v [] = refl
has-insert k j v ((i, w) ∷ m) = ground (arith, has-insert k j v m)

-- No entry under a key that is before all keys.
equal_range_before :
    (k : String) (m : Multimap) → All (λ e. less k e.0 ≡ true) m → equal_range k m ≡ []
unfolding equal_range
equal_range_before k [] h = refl
equal_range_before k ((j, w) ∷ m) (h, hs) =
    ground (arith, equal_range_before k m hs, eq_iff k j, less_irrefl k)

All-less :
    (k j : String) (m : Multimap)
    → less k j ≡ true
    → All (λ e. NotAfter j e.0) m
    → All (λ e. less k e.0 ≡ true) m
All-less k j [] h hs = tt
All-less k j ((i, w) ∷ m) h (a, hs) = (less-NotAfter-trans k j i h a, All-less k j m h hs)

-- The values under a key, in insertion order.
pub equal_range-insert :
    (k j v : String) (m : Multimap)
    → IsSorted m
    → equal_range k (insert j v m) ≡ (if k == j then equal_range k m ++ v ∷ [] else equal_range k m)
unfolding equal_range insert
equal_range-insert k j v [] s = ground arith
equal_range-insert k j v ((i, w) ∷ m) (h, s) = elim (Bool-cases (less j i)) [
  | inl e ↦ rw e (
      ground
        (arith, eq_iff k j, eq_iff k i, less_irrefl j, equal_range_before j m (All-less j i m e h)))
  | inr e ↦ rw e (ground (arith, equal_range-insert k j v m s))
]

-- Where the key is there, `lower_bound` finds its first entry.
pub value_at_first :
    (k v : String) (vs : List String) (m : Multimap)
    → IsSorted m
    → equal_range k m ≡ v ∷ vs
    → value_at k m ≡ some v
unfolding value_at lower_bound equal_range
value_at_first k v vs [] s e = cc
value_at_first k v vs ((j, w) ∷ m) (h, s) e = elim (Bool-cases (less j k)) [
  | inl l ↦ rw l (value_at_first k v vs m s (ground (arith, eq_iff k j, less_irrefl k)))
  | inr l ↦ rw l (elim (Bool-cases (less k j)) [
    | inl r ↦ ground (arith, equal_range_before k m (All-less k j m r h), eq_iff k j, less_irrefl k)
    | inr r ↦ ground (arith, eq_iff k j, eq_of_not-less k j)
  ])
]

-- `count` is positive where the range is not empty.
pub has_iff : (k : String) (m : Multimap) → (has k m ≡ true) ↔ (equal_range k m ≢ [])
unfolding has equal_range
has_iff k [] = ground arith
has_iff k ((j, w) ∷ m) = ground (arith, has_iff k m)

-- `find` gives the first value of the range.
pub find_first :
    (k v : String) (vs : List String) (m : Multimap) → equal_range k m ≡ v ∷ vs → find k m ≡ some v
unfolding find equal_range
find_first k v vs [] e = cc
find_first k v vs ((j, w) ∷ m) e = ground (arith, find_first k v vs m)
