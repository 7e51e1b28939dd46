-- ===== src/Number.antt =====
-- std::to_string and std::stoul of a 64-bit size_t, which the settings, the validator, the exchange
-- and the dispatcher use. A text is read as the C library reads it: white space, a sign, then the
-- longest run of digits; `none` is the exception invalid_argument or out_of_range.
pub mod Decimal
use Prim.Native.String.{[], ◌∷◌}
use restq.Base.{
  ℕ, zero, suc, ◌+◌, ◌-◌, ◌*◌, ◌/◌, ◌%◌, ◌^◌, String, Char, code, Bool, ◌&&◌, ◌||◌, Option, none,
  some, ltb, leb, eqb, if◌then◌else◌, ◌>>=◌,
}

abbrev pub size_modulus : ℕ
size_modulus = 2 ^ 64

-- numeric_limits< size_t >::max( )
abbrev pub size_max : ℕ
size_max = 2 ^ 64 - 1

unfoldable pub digit : ℕ → Char
digit zero = "0"
digit (suc zero) = "1"
digit (suc (suc zero)) = "2"
digit (suc (suc (suc zero))) = "3"
digit (suc (suc (suc (suc zero)))) = "4"
digit (suc (suc (suc (suc (suc zero))))) = "5"
digit (suc (suc (suc (suc (suc (suc zero)))))) = "6"
digit (suc (suc (suc (suc (suc (suc (suc zero))))))) = "7"
digit (suc (suc (suc (suc (suc (suc (suc (suc zero)))))))) = "8"
digit (suc (suc (suc (suc (suc (suc (suc (suc (suc n))))))))) = "9"

-- The digits of `n` in front of `out`; one unit of fuel is spent on each digit.
unfoldable pub digits : ℕ → ℕ → String → String
unfolding digit
digits zero n out = out
digits (suc f) n out =
    let rest = digits f (n / 10) (digit (n % 10) ∷ out) in
    if ltb n 10 then digit (n % 10) ∷ out else rest

-- A number has at most as many digits as its value, and one if it is zero.
unfoldable pub to_string : ℕ → String
to_string n = digits (suc n) n ""

abbrev pub is_digit : Char → Bool
is_digit c = leb 48 (code c) && leb (code c) 57

abbrev pub is_space : Char → Bool
is_space c = eqb (code c) 32 || (leb 9 (code c) && leb (code c) 13)

unfoldable pub scan : ℕ → String → ℕ
scan acc [] = acc
scan acc (c ∷ s) = let rest = scan (acc * 10 + (code c - 48)) s in if is_digit c then rest else acc

unfoldable pub skip_space : String → String
skip_space [] = []
skip_space (c ∷ s) = let rest = skip_space s in if is_space c then rest else c ∷ s

abbrev pub starts_with_digit : String → Bool
starts_with_digit [] = Bool.false
starts_with_digit (c ∷ s) = is_digit c

unfoldable pub unsigned : String → Option ℕ
unsigned s =
    if starts_with_digit s
    then (if leb (scan 0 s) size_max then some (scan 0 s) else none)
    else none

-- A minus sign negates the value in the unsigned type.
unfoldable pub signed : String → Option ℕ
signed [] = none
signed (c ∷ s) =
    if eqb (code c) b'-'
    then (do v ← unsigned s; some ((size_modulus - v) % size_modulus))
    else if eqb (code c) b'+'
    then unsigned s
    else unsigned (c ∷ s)

unfoldable pub stoul : String → Option ℕ
stoul s = signed (skip_space s)

-- A number of 64 bits with a sign.
pub data ℤ : Type 0 where
  pos : ℕ → ℤ
  negsuc : ℕ → ℤ

abbrev pub negate : ℕ → ℤ
negate zero = ℤ.pos zero
negate (suc n) = ℤ.negsuc n

-- std::to_string of it
unfoldable pub integer_text : ℤ → String
integer_text (ℤ.pos n) = to_string n
integer_text (ℤ.negsuc n) = "-" ∷ to_string (suc n)

unfoldable pub bounded : ℕ → String → Option ℕ
bounded top s =
    if starts_with_digit s then (if leb (scan 0 s) top then some (scan 0 s) else none) else none

unfoldable pub integer : String → Option ℤ
integer [] = none
integer (c ∷ s) =
    if eqb (code c) b'-'
    then (do n ← bounded (2 ^ 63) s; some (negate n))
    else if eqb (code c) b'+'
    then (do n ← bounded (2 ^ 63 - 1) s; some (ℤ.pos n))
    else (do n ← bounded (2 ^ 63 - 1) (c ∷ s); some (ℤ.pos n))

unfoldable pub stol : String → Option ℤ
stol s = integer (skip_space s)

-- `to_string( stol( s ) )`
unfoldable pub stol_text : String → Option String
stol_text s = do n ← stol s; some (integer_text n)
