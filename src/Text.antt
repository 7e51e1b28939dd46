-- ===== src/Text.antt =====
-- source/corvusoft/restq/string.cpp: the functions of String that restbed's does not have.
use Prim.Native.String.{[], ◌∷◌}
use restq.Base.{String, Char, code, Bool, false, eqb, true, ◌==◌, if◌then◌else◌, ◌||◌, ◌&&◌}
use restq.Number.{is_digit, starts_with_digit}

-- Whether a character is in the range.
unfoldable pub in_range : String → Char → Bool
in_range [] c = false
in_range (r ∷ range) c = eqb (code r) (code c) || in_range range c

-- String::trim_leading
unfoldable pub trim_leading : String → String → String
unfolding in_range
trim_leading range [] = []
trim_leading range (c ∷ s) =
    let rest = trim_leading range s in if in_range range c then rest else c ∷ s

-- String::trim_lagging: up to the last character that is not in the range.
unfoldable pub trim_lagging : String → String → String
unfolding in_range
trim_lagging range [] = []
trim_lagging range (c ∷ s) =
    let rest = trim_lagging range s in
    if rest == "" then (if in_range range c then [] else c ∷ []) else c ∷ rest

-- String::trim
unfoldable pub trim : String → String → String
unfolding trim_leading trim_lagging
trim range s = trim_lagging range (trim_leading range s)

-- `all_of( value.begin( ), value.end( ), ::isdigit )`
unfoldable pub all_digits : String → Bool
all_digits [] = true
all_digits (c ∷ s) = is_digit c && all_digits s

-- What follows a sign, of which there may be none.
unfoldable pub skip_sign : String → String
skip_sign [] = []
skip_sign (c ∷ s) = if eqb (code c) b'-' || eqb (code c) b'+' then s else c ∷ s

-- What follows the longest run of digits.
unfoldable pub skip_digits : String → String
skip_digits [] = []
skip_digits (c ∷ s) = let rest = skip_digits s in if is_digit c then rest else c ∷ s

-- String::is_integer: the whole of `[-+]?[0-9]+`
unfoldable pub is_integer : String → Bool
unfolding skip_sign all_digits
is_integer s = let t = skip_sign s in starts_with_digit t && all_digits t

-- A point, then digits to the end.
abbrev is_tail : String → Bool
is_tail [] = false
is_tail (c ∷ s) = eqb (code c) b'.' && (starts_with_digit s && all_digits s)

-- String::is_fraction: the whole of `[-+]?([0-9]+\\.[0-9]+)`
unfoldable pub is_fraction : String → Bool
unfolding skip_sign skip_digits all_digits
is_fraction s = let t = skip_sign s in starts_with_digit t && is_tail (skip_digits t)

-- String::is_boolean, given restbed's lowercase
unfoldable pub is_boolean : (String → String) → String → Bool
is_boolean lowercase s = let t = lowercase s in t == "true" || t == "false"
