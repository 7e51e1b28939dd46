-- ===== src/Json/Reading.antt =====
-- JSONFormatter::parse_object of example/exchange/source/json_formatter.cpp, on the values that
-- compose_object writes.
use restq.Base.{
  String, List, [], ◌∷◌, ◌++◌, Option, none, some, ◌==◌, map, ◌≡◌, refl, sym, ◌∙◌, subst, ap,
  eq_iff, All, Bool-cases, Option-cases, inl, inr, if◌then◌else◌, append-nil,
}
use restq.Json.{
  Library, View, IsJson, entry, compose_field, field_text, parse_items, parse_property,
  parse_properties, compose_object,
}
use restq.Json.Composing.{property_of, written, view-push_fields, compose_object-Holds}
use restq.Json.Entries.{Ordered, entry-before, entries_found}
use restq.Multimap.{Multimap, insert, equal_range}
use restq.Multimap.Groups.{
  insert_each, insert_each-IsSorted, equal_range-insert_each, map_values, equal_range-map_values,
  map_values-IsSorted, Multimap-ext,
}
use restq.Multimap.Laws.{IsSorted}
use restq.Number.{stol_text}
use restq.Text.{is_boolean, is_integer, is_fraction}

-- The values of a key, where the object has an entry for it.
abbrev pub at {ℓ} : {V : Type ℓ} → Option V → List String → List String
at none vs = []
at (some v) vs = vs

module _ (lib : Library) (lowercase : String → String) where
  open lib use {Value, view, stod, double_text}

  -- A field as it is read back: a Boolean in lower case, a number as the library prints it.
  unfoldable pub normal : String → String
  normal field =
      if is_boolean lowercase field
      then (if lowercase field == "true" then "true" else "false")
      else if is_integer field
      then elim (stol_text field) [ none ↦ field | some n ↦ n ]
      else if is_fraction field
      then elim (stod field) [ none ↦ field | some d ↦ double_text d ]
      else field

  -- A value that is neither an object nor an array is inserted.
  parse_property_scalar :
      (name t : String) (v : View Value lib.Double) (r : Multimap)
      → field_text lib lowercase v ≡ some t
      → parse_property lib lowercase name v r ≡ some (insert name t r)
  unfolding parse_property field_text
  parse_property_scalar name t (View.text s) r e = cc
  parse_property_scalar name t (View.boolean b) r e = cc
  parse_property_scalar name t (View.integer n) r e = cc
  parse_property_scalar name t (View.real d) r e = cc
  parse_property_scalar name t View.absent r e = cc
  parse_property_scalar name t (View.array vs) r e = cc
  parse_property_scalar name t (View.object es) r e = cc

  module _ (laws : IsJson lib) where
    pub field_text-compose_field :
        (field : String)
        → field_text lib lowercase (view (compose_field lib lowercase field)) ≡ some (normal field)
    unfolding field_text compose_field normal
    field_text-compose_field field = elim (Bool-cases (is_boolean lowercase field)) [
      | inl b ↦ rw (b, laws.view-of_boolean (lowercase field == "true")) refl
      | inr b ↦ elim (Bool-cases (is_integer field)) [
        | inl i ↦ elim (Option-cases (stol_text field)) [
          | inl n ↦ rw (b, i, n, laws.view-of_text field) refl
          | inr (n, e) ↦ rw (b, i, e, laws.view-of_integer n) refl
        ]
        | inr i ↦ elim (Bool-cases (is_fraction field)) [
          | inl f ↦ elim (Option-cases (stod field)) [
            | inl n ↦ rw (b, i, f, n, laws.view-of_text field) refl
            | inr (d, e) ↦ rw (b, i, f, e, laws.view-of_real d) refl
          ]
          | inr f ↦ rw (b, i, f, laws.view-of_text field) refl
        ]
      ]
    ]

    parse_items_lem :
        (name : String) (fs : List String) (r : Multimap)
        → parse_items lib lowercase name (map (compose_field lib lowercase) fs) r
          ≡ some (insert_each name (map normal fs) r)
    unfolding parse_items insert_each
    parse_items_lem name [] r = refl
    parse_items_lem name (f ∷ fs) r =
        rw (field_text-compose_field f) (parse_items_lem name fs (insert name (normal f) r))

    parse_property_lem :
        (name f : String) (fs : List String) (r : Multimap)
        → parse_property lib lowercase name (view (property_of lib lowercase f fs)) r
          ≡ some (insert_each name (map normal (f ∷ fs)) r)
    unfolding property_of
    parse_property_lem name f [] r =
        unfold insert_each in
        (parse_property_scalar name (normal f) _ r (field_text-compose_field f))
    parse_property_lem name f (g ∷ gs) r =
        unfold parse_property in
        rw (view-push_fields lib lowercase laws (f ∷ g ∷ gs) _ [] laws.view-empty_array)
          (parse_items_lem name (f ∷ g ∷ gs) r)

    -- Entries that say what `group` has under their names.
    abbrev Written : (String → List String) → String → Value → Type 0
    Written group k v =
        (f : String) × (fs : List String) × (v ≡ property_of lib lowercase f fs)
        × (group k ≡ f ∷ fs)

    -- The resource that entries are read into: the values of each name, behind those that it has.
    record ReadsTo (group : String → List String) (es : List (String × Value)) (r : Multimap)
        : Type 0 where
      result : Multimap
      reads : parse_properties lib lowercase es r ≡ some result
      sorted : IsSorted result
      values :
          (k : String)
          → equal_range k result ≡ equal_range k r ++ at (entry k es) (map normal (group k))

    values_next :
        (k name f : String) (fs : List String) (v : Value) (es : List (String × Value))
        (r : Multimap) (group : String → List String)
        → IsSorted r
        → entry name es ≡ none
        → group name ≡ f ∷ fs
        → equal_range k (insert_each name (map normal (f ∷ fs)) r)
            ++ at (entry k es) (map normal (group k))
          ≡ equal_range k r ++ at (entry k ((name, v) ∷ es)) (map normal (group k))
    unfolding entry
    values_next k name f fs v es r group s n g =
        rw (equal_range-insert_each k name (map normal (f ∷ fs)) r s)
          (elim (Bool-cases (k == name)) [
            | inl e ↦
                let q = (eq_iff k name).0 e in
                let n' = subst (λ x. entry x es ≡ none) (sym q) n in
                let g' = subst (λ x. group x ≡ f ∷ fs) (sym q) g in rw (e, n', g', append-nil) refl
            | inr e ↦ rw (e) refl
          ])

    parse_properties-ReadsTo :
        (group : String → List String) (es : List (String × Value)) (r : Multimap)
        → Ordered es
        → All (λ e. Written group e.0 e.1) es
        → IsSorted r
        → ReadsTo group es r
    unfolding parse_properties entry
    parse_properties-ReadsTo group [] r o h s = record {
      result = r;
      reads = refl;
      sorted = s;
      values = λ k. sym (append-nil (equal_range k r));
    }
    parse_properties-ReadsTo group ((name, v) ∷ es) r (a, o) ((f, fs, e, g), h) s =
        let r' = insert_each name (map normal (f ∷ fs)) r in
        let rest =
          parse_properties-ReadsTo group es r' o h
            (insert_each-IsSorted name (map normal (f ∷ fs)) r s) in
        record {
          result = rest.result;
          reads = rw (e, parse_property_lem name f fs r) rest.reads;
          sorted = rest.sorted;
          values = λ k.
              rest.values k ∙ values_next k name f fs v es r group s (entry-before name es a) g;
        }

    at-written :
        (vs : List String) (o : Option Value)
        → o ≡ written lib lowercase vs none
        → at o (map normal vs) ≡ map normal vs
    unfolding written
    at-written [] o e = rw e refl
    at-written (f ∷ fs) o e = rw e refl

    Written-of :
        (group : String → List String) (vs : List String) (k : String) (v : Value)
        → group k ≡ vs
        → some v ≡ written lib lowercase vs none
        → Written group k v
    unfolding written
    Written-of group [] k v g e = cc
    Written-of group (f ∷ fs) k v g e = (f, fs, cc, g)

    -- What compose_object has written is read back, with each field as the library prints it.
    pub parse_properties-compose_object :
        (r : Multimap)
        → IsSorted r
        → (es : List (String × Value)) × (view (compose_object lib lowercase r) ≡ View.object es)
          × (parse_properties lib lowercase es [] ≡ some (map_values normal r))
    unfolding written equal_range entry
    parse_properties-compose_object r s =
        let o = compose_object-Holds lib lowercase laws r s in
        let group = λ (k : String). equal_range k r in
        let read =
          parse_properties-ReadsTo group o.entries [] o.ordered
            (entries_found (Written group) o.entries o.ordered
              (λ k v e. Written-of group (group k) k v refl (sym e ∙ o.found k)))
            tt in
        let same : read.result ≡ map_values normal r =
          Multimap-ext read.result (map_values normal r) read.sorted
            (map_values-IsSorted normal r s)
            (λ k.
              read.values k
              ∙ at-written (group k) (entry k o.entries) (o.found k)
              ∙ sym (equal_range-map_values normal k r)) in
        (o.entries, o.viewed, read.reads ∙ ap some same)
