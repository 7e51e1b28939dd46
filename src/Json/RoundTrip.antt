-- ===== src/Json/RoundTrip.antt =====
-- JSONFormatter::compose and try_parse of example/exchange/source/json_formatter.cpp, one after the
-- other.
use restq.Base.{
  String, Bool, List, [], ◌∷◌, ◌++◌, some, map, ◌≡◌, refl, ◌∙◌, ap, All, append-nil, append_assoc,
}
use restq.Json.{
  Library, View, IsJson, set_entry, entry, compose_object, push_objects, compose_data, compose,
  parse_objects, parse_data, try_parse,
}
use restq.Json.Reading.{normal, parse_properties-compose_object}
use restq.Multimap.Groups.{map_values}
use restq.Multimap.Laws.{IsSorted}
use restq.Resource.{Resource, Resources}

module _ (lib : Library) (lowercase : String → String) (laws : IsJson lib) where
  open lib use {Value, view, empty_object}

  view-push_objects :
      (rs : Resources) (a : Value) (vs : List Value)
      → view a ≡ View.array vs
      → view (push_objects lib lowercase rs a)
        ≡ View.array (vs ++ map (compose_object lib lowercase) rs)
  unfolding push_objects
  view-push_objects [] a vs e = rw append-nil e
  view-push_objects (r ∷ rs) a vs e =
      let c = compose_object lib lowercase r in
      view-push_objects rs _ (vs ++ c ∷ []) (laws.view-push_back a c vs e)
      ∙ ap View.array (append_assoc vs (c ∷ []) (map (compose_object lib lowercase) rs))

  parse_objects_lem :
      (rs : Resources)
      → All IsSorted rs
      → parse_objects lib lowercase (map (compose_object lib lowercase) rs)
        ≡ some (map (map_values (normal lib lowercase)) rs)
  unfolding parse_objects
  parse_objects_lem [] s = refl
  parse_objects_lem (r ∷ rs) (s, ss) =
      let (es, v, p) = parse_properties-compose_object lib lowercase laws r s in
      rw (v, p, parse_objects_lem rs ss) refl

  -- The value under "data": one object, or an array of them.
  parse_data-compose_data :
      (rs : Resources)
      → All IsSorted rs
      → parse_data lib lowercase (view (compose_data lib lowercase rs))
        ≡ some (map (map_values (normal lib lowercase)) rs)
  unfolding compose_data parse_data
  parse_data-compose_data [] s =
      rw (view-push_objects [] _ [] laws.view-empty_array) (parse_objects_lem [] s)
  parse_data-compose_data (r ∷ []) (s, ss) =
      let (es, v, p) = parse_properties-compose_object lib lowercase laws r s in rw (v, p) refl
  parse_data-compose_data (q ∷ r ∷ rs) s =
      rw (view-push_objects (q ∷ r ∷ rs) _ [] laws.view-empty_array)
        (parse_objects_lem (q ∷ r ∷ rs) s)

  -- A document that the formatter composes is one that it parses, to the resources that were
  -- composed in their order, each key with its values in their order, and each value in the form
  -- that it is read back in.
  pub try_parse-compose :
      (rs : Resources) (styled : Bool)
      → All IsSorted rs
      → try_parse lib lowercase (compose lib lowercase rs styled)
        ≡ some (map (map_values (normal lib lowercase)) rs)
  unfolding try_parse compose set_entry entry
  try_parse-compose rs styled s =
      let d = compose_data lib lowercase rs in
      rw
        (
          laws.parse-dump styled (lib.assign "data" d empty_object),
          laws.view-assign "data" empty_object d [] laws.view-empty_object,
        )
        (parse_data-compose_data rs s)

  map_values_same :
      (f : String → String) (r : Resource) → All (λ e. f e.1 ≡ e.1) r → map_values f r ≡ r
  unfolding map_values
  map_values_same f [] h = refl
  map_values_same f ((k, v) ∷ r) (h, hs) = rw (h, map_values_same f r hs) refl
