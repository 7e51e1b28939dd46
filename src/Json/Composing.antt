-- ===== src/Json/Composing.antt =====
-- JSONFormatter::compose_object of example/exchange/source/json_formatter.cpp: the object that its
-- loop builds has, for each key of the resource, one entry that holds the key's values.
use restq.Base.{
  ℕ, zero, NotAfter, ltb, lt→ltb, ◌-◌, suc, String, true, List, [], ◌∷◌, ◌++◌, Option, some, ◌==◌,
  length, map, drop, ◌≡◌, ◌≢◌, refl, sym, ◌∙◌, ap, arith, eq_iff, eq_refl, All, Bool-cases, inl,
  inr, if◌then◌else◌, append-nil, append_assoc,
}
use restq.Json.{
  Library, View, IsJson, set_entry, entry, compose_field, push_fields, compose_from, compose_object,
}
use restq.Json.Entries.{Ordered, set_entry-Ordered, entry-set_entry}
use restq.Multimap.{Multimap, equal_range}
use restq.Multimap.Groups.{equal_range-drop}
use restq.Multimap.Laws.{IsSorted}

next_group :
    (all rest : Multimap) (name value k : String)
    → All (λ e. NotAfter name e.0) rest
    → IsSorted rest
    → (equal_range k ((name, value) ∷ rest) ≢ []
        → equal_range k all ≡ equal_range k ((name, value) ∷ rest))
    → equal_range k (drop (length (equal_range name rest)) rest) ≢ []
    → equal_range k all ≡ equal_range k (drop (length (equal_range name rest)) rest)
unfolding equal_range
next_group all rest name value k a s h n = ground (arith, equal_range-drop k name rest a s)

module _ (lib : Library) (lowercase : String → String) where
  open lib use {Value, view, empty_array, empty_object, assign}

  -- What a key with the values `f ∷ fs` is written as.
  unfoldable pub property_of : String → List String → Value
  property_of f [] = compose_field lib lowercase f
  property_of f (g ∷ gs) = push_fields lib lowercase (f ∷ g ∷ gs) empty_array

  unfoldable pub written : List String → Option Value → Option Value
  written [] before = before
  written (f ∷ fs) before = some (property_of f fs)

  -- An object that holds what stood in `es` before, with every key of `m` written.
  pub record Holds (m : Multimap) (es : List (String × Value)) (o : Value) : Type 0 where
    pub entries : List (String × Value)
    pub viewed : view o ≡ View.object entries
    pub ordered : Ordered entries
    pub found : (k : String) → entry k entries ≡ written (equal_range k m) (entry k es)

  group_step :
      (all rest : Multimap) (name value : String) (fs : List String) (o : Value)
      → equal_range name all ≡ value ∷ fs
      → compose_from lib lowercase all ((name, value) ∷ rest) zero o
        ≡ compose_from lib lowercase all rest (length fs) (assign name (property_of value fs) o)
  unfolding compose_from property_of
  group_step all rest name value [] o e = rw e refl
  group_step all rest name value (g ∷ gs) o e =
      let many : ltb 1 (length (value ∷ g ∷ gs)) ≡ true = lt→ltb 1 _ (omega arith) in
      let left : length (value ∷ g ∷ gs) - 1 ≡ length (g ∷ gs) = omega arith in
      rw (e, many, left) refl

  module _ (laws : IsJson lib) where
    -- The values of a key, in an array.
    pub view-push_fields :
        (fs : List String) (a : Value) (vs : List Value)
        → view a ≡ View.array vs
        → view (push_fields lib lowercase fs a)
          ≡ View.array (vs ++ map (compose_field lib lowercase) fs)
    unfolding push_fields
    view-push_fields [] a vs e = rw append-nil e
    view-push_fields (f ∷ fs) a vs e =
        let c = compose_field lib lowercase f in
        view-push_fields fs _ (vs ++ c ∷ []) (laws.view-push_back a c vs e)
        ∙ ap View.array (append_assoc vs (c ∷ []) (map (compose_field lib lowercase) fs))

    found_later :
        (name value k : String) (rest : Multimap) (before now after : Option Value)
        → before ≡ (if k == name then some (property_of value (equal_range name rest)) else now)
        → after ≡ written (if k == name then [] else equal_range k rest) before
        → after ≡ written (equal_range k ((name, value) ∷ rest)) now
    unfolding written equal_range
    found_later name value k rest before now after b e = elim (Bool-cases (k == name)) [
      | inl q ↦ rw q (
          (rw q at e)
          ∙ (rw q at b)
          ∙ ap (λ x. some (property_of value (equal_range x rest))) (sym ((eq_iff k name).0 q)))
      | inr q ↦ rw q ((rw q at e) ∙ ap (written (equal_range k rest)) (rw q at b))
    ]

    pub compose_from-Holds :
        (all rest : Multimap) (skip : ℕ) (o : Value) (es : List (String × Value))
        → view o ≡ View.object es
        → Ordered es
        → IsSorted rest
        → ((k : String)
            → equal_range k (drop skip rest) ≢ []
            → equal_range k all ≡ equal_range k (drop skip rest))
        → Holds (drop skip rest) es (compose_from lib lowercase all rest skip o)
    unfolding compose_from written equal_range
    compose_from-Holds all [] zero o es e r s h = record {
      entries = es;
      viewed = e;
      ordered = r;
      found = λ k. refl;
    }
    compose_from-Holds all [] (suc skip) o es e r s h = record {
      entries = es;
      viewed = e;
      ordered = r;
      found = λ k. refl;
    }
    compose_from-Holds all (x ∷ rest) (suc skip) o es e r (a, s) h =
        compose_from-Holds all rest skip o es e r s h
    compose_from-Holds all ((name, value) ∷ rest) zero o es e r (a, s) h =
        let fs = equal_range name rest in
        let v = property_of value fs in
        let same : equal_range name all ≡ value ∷ fs =
          rw (h name (ground (arith, eq_refl name)), eq_refl name) refl in
        let left =
          compose_from-Holds all rest (length fs) (assign name v o) (set_entry name v es)
            (laws.view-assign name o v es e) (set_entry-Ordered name v es r) s
            (λ k. next_group all rest name value k a s (h k)) in
        rw (group_step all rest name value fs o same) (record {
          entries = left.entries;
          viewed = left.viewed;
          ordered = left.ordered;
          found = λ k. found_later name value k rest _ _ _ (entry-set_entry k name v es) (
              left.found k
              ∙ ap (λ x. written x (entry k (set_entry name v es)))
                  (equal_range-drop k name rest a s));
        })

    -- The object of a resource: an entry for each of its keys, and no other.
    pub compose_object-Holds :
        (r : Multimap) → IsSorted r → Holds r [] (compose_object lib lowercase r)
    unfolding compose_object
    compose_object-Holds r s =
        compose_from-Holds r r 0 empty_object [] laws.view-empty_object tt s (λ k n. refl)
