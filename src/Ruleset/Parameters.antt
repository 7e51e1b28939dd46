-- ===== src/Ruleset/Parameters.antt =====
-- The rules that read the parameters of a request (source/corvusoft/restq/detail/rule: echo.hpp,
-- style.hpp, filters.hpp, fields.hpp, paging.hpp, keys.hpp, key.hpp).
use text.Mathlib.Text.{find?}
use restq.Base.{
  String, Bool, true, false, not, ◌||◌, List, [], ◌∷◌, ◌++◌, none, some, ◌==◌, if◌then◌else◌,
}
use restq.Effects.{Effect}
use restq.Exchange.{insert_all}
use restq.Multimap.{Multimap, insert}
use restq.Number.{size_max}
use restq.Platform.{Platform}
use restq.Query.{or_keep}
use restq.Session.{Session}
use restq.Validator.{member}

abbrev is_no : String → Bool
is_no v = v == "false" || v == "no" || v == "off" || v == "0"

abbrev is_yes : String → Bool
is_yes v = v == "true" || v == "yes" || v == "on" || v == "1"

abbrev filter_reserved : List String
filter_reserved = "echo" ∷ "keys" ∷ "style" ∷ "index" ∷ "limit" ∷ "fields" ∷ "type" ∷ "include" ∷ []

-- The three multimaps that the loop over the parameters fills.
pub record Filtering : Type 0 where
  pub all : Multimap
  pub inclusive : Multimap
  pub exclusive : Multimap

abbrev insert_items : String → List String → Multimap → Multimap
insert_items name [] m = m
insert_items name (item ∷ items) m = insert_items name items (insert name item m)

module _ (p : Platform) where
  -- The last parameter decides.
  unfoldable pub echo_of : Bool → Multimap → Bool
  echo_of b [] = b
  echo_of b ((name, value) ∷ parameters) = echo_of (not (is_no (p.lowercase value))) parameters

  unfoldable pub echo : Session → (Session → Effect) → Effect
  echo s k = k (record s { echo = some (echo_of true (p.query_parameters s.request "echo")) })

  unfoldable pub style_of : Bool → Multimap → Bool
  style_of b [] = b
  style_of b ((name, value) ∷ parameters) = style_of (is_yes (p.lowercase value)) parameters

  unfoldable pub style : Session → (Session → Effect) → Effect
  style s k = k (record s { style = some (style_of false (p.query_parameters s.request "style")) })

  -- A value with a comma is a list of inclusive filters, any other one an exclusive filter.
  unfoldable pub add_filter : String → String → Filtering → Filtering
  add_filter name value f = if member name filter_reserved then f else elim (find? value ",") [
    | none ↦ record f { all = insert name value f.all; exclusive = insert name value f.exclusive }
    | some i ↦ record f {
      all = insert name value f.all;
      inclusive = insert_items name (p.split value ",") f.inclusive;
    }
  ]

  unfoldable pub add_filters : Multimap → Filtering → Filtering
  unfolding add_filter
  add_filters [] f = f
  add_filters ((name, value) ∷ parameters) f =
      add_filters parameters (add_filter (p.lowercase name) value f)

  unfoldable pub filters : Session → (Session → Effect) → Effect
  filters s k =
      let f =
        add_filters s.request.query_parameters
          (record { all = []; inclusive = []; exclusive = [] }) in
      k (record s {
        filters = some f.all;
        inclusive_filters = some f.inclusive;
        exclusive_filters = some f.exclusive;
      })

  unfoldable pub fields_of : Multimap → List String → List String
  fields_of [] names = names
  fields_of ((name, value) ∷ parameters) names =
      fields_of parameters (insert_all (p.split (p.lowercase value) ",") names)

  unfoldable pub fields : Session → (Session → Effect) → Effect
  fields s k = k (record s { fields = some (fields_of (p.query_parameters s.request "fields") []) })

  unfoldable pub paging : Session → (Session → Effect) → Effect
  paging s k = k (record s {
    paging = some (p.query_number s.request "index" 0, p.query_number s.request "limit" size_max);
  })

  unfoldable pub keys_of : Multimap → List String → List String
  keys_of [] keys = keys
  keys_of ((name, value) ∷ parameters) keys =
      keys_of parameters (keys ++ p.split (p.lowercase value) ",")

  -- A rule of the resources for many.
  unfoldable pub keys : Session → (Session → Effect) → Effect
  keys s k =
      k (record s {
        keys = some (keys_of (p.query_parameters s.request "keys") (or_keep s.keys []));
      })

  -- A rule of the resources for one, where the path has a key.
  unfoldable pub key : Session → (Session → Effect) → Effect
  key s k =
      if p.has_path_parameter s.request "key"
      then k (record s {
        keys = some (or_keep s.keys [] ++ p.lowercase (p.get_path_parameter s.request "key") ∷ []);
      })
      else k s
