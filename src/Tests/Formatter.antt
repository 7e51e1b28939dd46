-- ===== src/Tests/Formatter.antt =====
-- The formatter's theorems with two resources.
use restq.Base.{true, false, [], ◌∷◌, some, map, ◌≡◌, refl}
use restq.Json.{compose, try_parse}
use restq.Json.Reading.{normal}
use restq.Json.RoundTrip.{try_parse-compose}
use restq.Json.Shape.{is_some, is_document, try_parse_shape}
use restq.Multimap.Groups.{map_values}
use restq.Number.{
  stol_text, stol, integer, bounded, integer_text, skip_space, scan, to_string, digits,
}
use restq.Resource.{Resource, Resources}
use restq.Tests.Data.{lower}
use restq.Tests.Documents.{library, library-IsJson}
use restq.Text.{is_boolean, is_integer, is_fraction}

abbrev order : Resource
order = ("age", "007") ∷ ("tag", "TRUE") ∷ ("tag", "red") ∷ ("zone", "1.5") ∷ []

abbrev orders : Resources
orders = order ∷ (("key", "b") ∷ []) ∷ []

try_parse-compose_example :
    try_parse library lower (compose library lower orders true)
    ≡ some (map (map_values (normal library lower)) orders)
try_parse-compose_example =
    try_parse-compose library lower library-IsJson orders true
      (((refl, (refl, (refl, tt))), ((refl, (refl, tt)), ((refl, tt), (tt, tt)))), ((tt, tt), tt))

try_parse_shape_example :
    is_some (try_parse library lower (compose library lower orders false))
    ≡ is_document library (library.parse (compose library lower orders false))
try_parse_shape_example = try_parse_shape library lower (compose library lower orders false)

-- Two values that do not come back as they were.
changed : map (normal library lower) ("007" ∷ "TRUE" ∷ "red" ∷ []) ≡ "7" ∷ "true" ∷ "red" ∷ []
unfolding normal lower is_boolean is_integer stol_text stol integer bounded integer_text is_fraction
    skip_space scan to_string digits
changed = refl
