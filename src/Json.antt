-- ===== src/Json.antt =====
-- example/exchange/source/json_formatter.cpp: resources as JSON documents. The JSON values and the
-- text of a document are those of nlohmann::json, and doubles those of the C++ library, both given
-- as records; a `long` is the text that `to_string` prints of it.
pub mod Entries
pub mod Composing
pub mod Reading
pub mod RoundTrip
pub mod Shape
use restq.Base.{
  ℕ, zero, suc, ◌-◌, String, Bool, true, false, List, [], ◌∷◌, ◌++◌, Option, none, some, ◌==◌, less,
  ltb, length, map, if◌then◌else◌, ◌>>=◌, ◌≡◌,
}
use restq.Multimap.{Multimap, insert, equal_range}
use restq.Number.{stol_text}
use restq.Resource.{Resource, Resources}
use restq.Session.{Formatter}
use restq.Text.{is_boolean, is_integer, is_fraction}

-- What the tests and the getters of a JSON value tell of it; an object as it is iterated.
pub data View (V D : Type 0) : Type 0 where
  absent : View V D
  text : String → View V D
  boolean : Bool → View V D
  integer : String → View V D
  real : D → View V D
  array : List V → View V D
  object : List (String × V) → View V D

pub record Library : Type 1 where
  pub Value : Type 0
  pub Double : Type 0
  -- `stod` of a fraction, `none` when it throws out_of_range, and `to_string` of a double
  pub stod : String → Option Double
  pub double_text : Double → String
  pub view : Value → View Value Double
  pub of_text : String → Value
  pub of_boolean : Bool → Value
  pub of_integer : String → Value
  pub of_real : Double → Value
  -- `json::array( )`, `push_back`, `json::object( )` and the assignment to `object[ name ]`
  pub empty_array : Value
  pub push_back : Value → Value → Value
  pub empty_object : Value
  pub assign : String → Value → Value → Value
  -- `json::parse`, `none` when it throws, and `dump`
  pub parse : String → Option Value
  pub dump : Bool → Value → String

-- The object of the library is a std::map: one entry for each name, in order.
unfoldable pub set_entry : {V : Type 0} → String → V → List (String × V) → List (String × V)
set_entry k v [] = (k, v) ∷ []
set_entry k v ((j, w) ∷ es) =
    let rest = set_entry k v es in
    if k == j then (j, v) ∷ es else if less k j then (k, v) ∷ (j, w) ∷ es else (j, w) ∷ rest

-- `json[ name ]`, and `count` as the test for it.
unfoldable pub entry : {V : Type 0} → String → List (String × V) → Option V
entry k [] = none
entry k ((j, w) ∷ es) = let rest = entry k es in if k == j then some w else rest

-- What the library documents of these operations.
pub record IsJson (lib : Library) : Type 0 where
  pub view-of_text : (s : String) → lib.view (lib.of_text s) ≡ View.text s
  pub view-of_boolean : (b : Bool) → lib.view (lib.of_boolean b) ≡ View.boolean b
  pub view-of_integer : (s : String) → lib.view (lib.of_integer s) ≡ View.integer s
  pub view-of_real : (d : lib.Double) → lib.view (lib.of_real d) ≡ View.real d
  pub view-empty_array : lib.view lib.empty_array ≡ View.array []
  pub view-push_back :
      (a v : lib.Value) (vs : List lib.Value)
      → lib.view a ≡ View.array vs
      → lib.view (lib.push_back a v) ≡ View.array (vs ++ v ∷ [])
  pub view-empty_object : lib.view lib.empty_object ≡ View.object []
  pub view-assign :
      (k : String) (o v : lib.Value) (es : List (String × lib.Value))
      → lib.view o ≡ View.object es
      → lib.view (lib.assign k v o) ≡ View.object (set_entry k v es)
  pub parse-dump : (b : Bool) (v : lib.Value) → lib.parse (lib.dump b v) ≡ some v

-- `data` as the other operations on a value that is no object find it: not there.
abbrev pub entries_of : {V D : Type 0} → View V D → List (String × V)
entries_of (View.object es) = es
entries_of _ = []

module _ (lib : Library) (lowercase : String → String) where
  open lib use {
    Value, view, stod, double_text, of_text, of_boolean, of_integer, of_real, empty_array,
    push_back, empty_object,
  }

  -- The JSON value of one field.
  unfoldable pub compose_field : String → Value
  compose_field field =
      if is_boolean lowercase field
      then of_boolean (lowercase field == "true")
      else if is_integer field
      then elim (stol_text field) [ none ↦ of_text field | some n ↦ of_integer n ]
      else if is_fraction field
      then elim (stod field) [ none ↦ of_text field | some d ↦ of_real d ]
      else of_text field

  unfoldable pub push_fields : List String → Value → Value
  unfolding compose_field
  push_fields [] items = items
  push_fields (field ∷ fields) items = push_fields fields (push_back items (compose_field field))

  -- The loop of compose_object from the iterator's position on; `skip` is what `advance` has still to
  -- pass of the group that was written last.
  unfoldable pub compose_from : Multimap → Multimap → ℕ → Value → Value
  unfolding push_fields
  compose_from all [] skip o = o
  compose_from all (e ∷ rest) (suc skip) o = compose_from all rest skip o
  compose_from all ((name, value) ∷ rest) zero o =
      let group = equal_range name all in
      let many = ltb 1 (length group) in
      compose_from all rest (if many then length group - 1 else 0)
        (lib.assign name (if many then push_fields group empty_array else compose_field value) o)

  unfoldable pub compose_object : Resource → Value
  compose_object r = compose_from r r 0 empty_object

  unfoldable pub push_objects : Resources → Value → Value
  push_objects [] objects = objects
  push_objects (r ∷ rs) objects = push_objects rs (push_back objects (compose_object r))

  unfoldable pub compose_data : Resources → Value
  compose_data (r ∷ []) = compose_object r
  compose_data rs = push_objects rs empty_array

  unfoldable pub compose : Resources → Bool → String
  compose rs styled = lib.dump styled (lib.assign "data" (compose_data rs) empty_object)

  -- JSONFormatter::to_string; `none` is the exception.
  unfoldable pub field_text : View Value lib.Double → Option String
  field_text (View.text s) = some s
  field_text (View.boolean b) = some (if b then "true" else "false")
  field_text (View.integer n) = some n
  field_text (View.real d) = some (double_text d)
  field_text View.absent = none
  field_text (View.array vs) = none
  field_text (View.object es) = none

  unfoldable pub parse_items : String → List Value → Resource → Option Resource
  parse_items name [] r = some r
  parse_items name (item ∷ items) r = do
    field ← field_text (view item)
    parse_items name items (insert name field r)

  -- One property of an object.
  unfoldable pub parse_property : String → View Value lib.Double → Resource → Option Resource
  parse_property name (View.object es) r = none
  parse_property name (View.array items) r = parse_items name items r
  parse_property name v r = do field ← field_text v; some (insert name field r)

  unfoldable pub parse_properties : List (String × Value) → Resource → Option Resource
  parse_properties [] r = some r
  parse_properties ((name, value) ∷ es) r = do
    r' ← parse_property name (view value) r
    parse_properties es r'

  -- The elements of the root array.
  unfoldable pub parse_objects : List Value → Option Resources
  parse_objects [] = some []
  parse_objects (v ∷ vs) = elim (view v) [
    | View.object es ↦ (do r ← parse_properties es []; rs ← parse_objects vs; some (r ∷ rs))
    | other ↦ none
  ]

  unfoldable pub parse_data : View Value lib.Double → Option Resources
  parse_data (View.array vs) = parse_objects vs
  parse_data (View.object es) = do r ← parse_properties es []; some (r ∷ [])
  parse_data _ = none

  -- JSONFormatter::parse; `none` is any of its exceptions, which try_parse turns into false.
  unfoldable pub try_parse : String → Option Resources
  try_parse document = do
    json ← lib.parse document
    value ← entry "data" (entries_of (view json))
    parse_data (view value)

  unfoldable pub json_formatter : Formatter
  json_formatter = record {
    try_parse = try_parse;
    compose = compose;
    media_type = "application/json";
  }
