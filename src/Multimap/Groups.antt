-- ===== src/Multimap/Groups.antt =====
-- The groups of a multimap: its entries with one key stand together, and the groups determine it.
use restq.Base.{
  String, true, false, List, [], ◌∷◌, ◌++◌, map, length, drop, ◌==◌, less, ◌≡◌, refl, sym, ◌∙◌,
  subst, arith, eq_iff, eq_refl, All, All-mono, Bool-cases, inl, inr, if◌then◌else◌, append-nil,
  append_assoc, NotAfter, less_irrefl, eq_of_not-less, less-NotAfter-trans,
}
use mathlib.Core.Path.{ap₂}
use restq.Multimap.{Multimap, insert, equal_range}
use restq.Multimap.Laws.{IsSorted, insert-IsSorted, equal_range-insert}

-- Nothing stands under a key that is before all keys.
equal_range-before :
    (k : String) (m : Multimap) → All (λ e. less k e.0 ≡ true) m → equal_range k m ≡ []
unfolding equal_range
equal_range-before k [] h = refl
equal_range-before k ((j, w) ∷ m) (h, hs) =
    ground (arith, less_irrefl k, eq_iff k j, equal_range-before k m hs)

less-of_ne : (s t : String) → NotAfter s t → (s == t) ≡ false → less s t ≡ true
less-of_ne s t h n = elim (Bool-cases (less s t)) [
  | inl e ↦ e
  | inr e ↦ absurd (apart (eq_of_not-less s t e h))
]
  where
    apart : s ≡ t → ⊥
    apart q = ground (arith, eq_iff s t)

before_each :
    (k j w : String) (m : Multimap)
    → NotAfter k j
    → (k == j) ≡ false
    → All (λ e. NotAfter j e.0) m
    → All (λ e. less k e.0 ≡ true) ((j, w) ∷ m)
before_each k j w m h n a =
    let l = less-of_ne k j h n in (l, All-mono _ _ m (λ e q. less-NotAfter-trans k j e.0 l q) a)

-- Behind the first entry of a group stands the rest of it, and then no more of its key.
pub equal_range-drop :
    (k name : String) (m : Multimap)
    → All (λ e. NotAfter name e.0) m
    → IsSorted m
    → equal_range k (drop (length (equal_range name m)) m)
      ≡ (if k == name then [] else equal_range k m)
unfolding equal_range
equal_range-drop k name [] h s = ground arith
equal_range-drop k name ((j, w) ∷ m) (h, hs) (a, s) = elim (Bool-cases (name == j)) [
  | inl e ↦ rw e (equal_range-drop k name m hs s ∙ same_group ((eq_iff name j).0 e))
  | inr e ↦ rw (e, equal_range-before name m (before_each name j w m h e a).1) (whole e)
]
  where
    same_group :
        name ≡ j
        → (if k == name then [] else equal_range k m)
          ≡ (if k == name then [] else (if k == j then w ∷ equal_range k m else equal_range k m))
    same_group q = elim (Bool-cases (k == name)) [
      | inl f ↦ rw f refl
      | inr f ↦ rw (f, subst (λ x. (k == x) ≡ false) q f) refl
    ]

    whole :
        (name == j) ≡ false
        → (if k == j then w ∷ equal_range k m else equal_range k m)
          ≡ (if k == name then [] else (if k == j then w ∷ equal_range k m else equal_range k m))
    whole e = elim (Bool-cases (k == name)) [
      | inl f ↦ rw f (
          subst (λ x. equal_range x ((j, w) ∷ m) ≡ []) (sym ((eq_iff k name).0 f))
            (equal_range-before name ((j, w) ∷ m) (before_each name j w m h e a)))
      | inr f ↦ rw f refl
    ]

first_of :
    (k v j w : String) (m n : Multimap)
    → IsSorted ((k, v) ∷ m)
    → IsSorted ((j, w) ∷ n)
    → ((x : String) → equal_range x ((k, v) ∷ m) ≡ equal_range x ((j, w) ∷ n))
    → NotAfter j k
unfolding equal_range
first_of k v j w m n (a, s) (b, t) h = elim (Bool-cases (less k j)) [
  | inr e ↦ e
  | inl e ↦ absurd (
      filled (
        h k
        ∙ equal_range-before k ((j, w) ∷ n)
            (e, All-mono _ _ n (λ x q. less-NotAfter-trans k j x.0 e q) b)))
]
  where
    filled : equal_range k ((k, v) ∷ m) ≡ [] → ⊥
    filled q = ground (arith, eq_refl k)

same_key :
    (k v w : String) (m n : Multimap)
    → ((x : String) → equal_range x ((k, v) ∷ m) ≡ equal_range x ((k, w) ∷ n))
    → (v ≡ w) × ((x : String) → equal_range x m ≡ equal_range x n)
unfolding equal_range
same_key k v w m n h = (ground (arith, h k, eq_refl k), rest)
  where
    rest : (x : String) → equal_range x m ≡ equal_range x n
    rest x = elim (Bool-cases (x == k)) [
      | inl e ↦ ground (arith, h x)
      | inr e ↦ ground (arith, h x)
    ]

-- Two multimaps with the same values under each key are equal.
pub Multimap-ext :
    (m n : Multimap)
    → IsSorted m
    → IsSorted n
    → ((k : String) → equal_range k m ≡ equal_range k n)
    → m ≡ n
unfolding equal_range
Multimap-ext [] [] s t h = refl
Multimap-ext [] ((j, w) ∷ n) s t h = absurd (no (h j))
  where
    no : [] ≡ equal_range j ((j, w) ∷ n) → ⊥
    no q = ground (arith, eq_refl j)
Multimap-ext ((k, v) ∷ m) [] s t h = absurd (no (h k))
  where
    no : equal_range k ((k, v) ∷ m) ≡ [] → ⊥
    no q = ground (arith, eq_refl k)
Multimap-ext ((k, v) ∷ m) ((j, w) ∷ n) (a, s) (b, t) h =
    let q =
      eq_of_not-less k j (first_of k v j w m n (a, s) (b, t) h)
        (first_of j w k v n m (b, t) (a, s) (λ x. sym (h x))) in
    let (e, r) = same_key k v w m n (
      subst (λ x. (y : String) → equal_range y ((k, v) ∷ m) ≡ equal_range y ((x, w) ∷ n)) (sym q)
        h) in
    ap₂ ◌∷◌ (ap₂ (λ (x y : String). (x, y)) q e) (Multimap-ext m n s t r)

-- The values under one key, inserted one after the other.
unfoldable pub insert_each : String → List String → Multimap → Multimap
insert_each k [] m = m
insert_each k (v ∷ vs) m = insert_each k vs (insert k v m)

pub insert_each-IsSorted :
    (k : String) (vs : List String) (m : Multimap) → IsSorted m → IsSorted (insert_each k vs m)
unfolding insert_each
insert_each-IsSorted k [] m s = s
insert_each-IsSorted k (v ∷ vs) m s =
    insert_each-IsSorted k vs (insert k v m) (insert-IsSorted k v m s)

pub equal_range-insert_each :
    (k name : String) (vs : List String) (m : Multimap)
    → IsSorted m
    → equal_range k (insert_each name vs m)
      ≡ (if k == name then equal_range k m ++ vs else equal_range k m)
unfolding insert_each
equal_range-insert_each k name [] m s = elim (Bool-cases (k == name)) [
  | inl e ↦ rw (e, append-nil) refl
  | inr e ↦ rw e refl
]
equal_range-insert_each k name (v ∷ vs) m s =
    equal_range-insert_each k name vs (insert name v m) (insert-IsSorted name v m s)
    ∙ (elim (Bool-cases (k == name)) [
      | inl e ↦
          rw (e, equal_range-insert k name v m s, e) (append_assoc (equal_range k m) (v ∷ []) vs)
      | inr e ↦ rw (e, equal_range-insert k name v m s, e) refl
    ])

-- Each value changed, each key kept.
unfoldable pub map_values : (String → String) → Multimap → Multimap
map_values f [] = []
map_values f ((k, v) ∷ m) = (k, f v) ∷ map_values f m

pub equal_range-map_values :
    (f : String → String) (k : String) (m : Multimap)
    → equal_range k (map_values f m) ≡ map f (equal_range k m)
unfolding equal_range map_values
equal_range-map_values f k [] = refl
equal_range-map_values f k ((j, w) ∷ m) = ground (arith, equal_range-map_values f k m)

All-map_values :
    (P : String → Type 0) (f : String → String) (m : Multimap)
    → All (λ e. P e.0) m
    → All (λ e. P e.0) (map_values f m)
unfolding map_values
All-map_values P f [] h = tt
All-map_values P f ((k, v) ∷ m) (h, hs) = (h, All-map_values P f m hs)

pub map_values-IsSorted :
    (f : String → String) (m : Multimap) → IsSorted m → IsSorted (map_values f m)
unfolding map_values
map_values-IsSorted f [] s = tt
map_values-IsSorted f ((k, v) ∷ m) (a, s) =
    (All-map_values (NotAfter k) f m a, map_values-IsSorted f m s)
