-- ===== src/Number/Decimal.antt =====
-- Reading a printed number gives it back.
use Prim.Native.String.{[], ◌∷◌}
use mathlib.Core.Bool.{true≢false}
use restq.Base.{
  ◌≢◌, ℕ, zero, suc, ◌+◌, ◌-◌, ◌*◌, ◌/◌, ◌%◌, ◌^◌, ◌≤◌, ◌<◌, String, Char, code, true, none, some,
  ◌≡◌, refl, sym, ◌∙◌, ap, arith, Bool-cases, inl, inr, ltb, eqb, if_not, le→leb,
}
use restq.Number.{
  size_max, digit, digits, to_string, is_digit, scan, skip_space, starts_with_digit, unsigned,
  signed, stoul, ℤ, integer_text, bounded, integer, stol,
}

code-digit : (n : ℕ) → n < 10 → code (digit n) ≡ 48 + n
unfolding digit
code-digit zero h = refl
code-digit (suc zero) h = refl
code-digit (suc (suc zero)) h = refl
code-digit (suc (suc (suc zero))) h = refl
code-digit (suc (suc (suc (suc zero)))) h = refl
code-digit (suc (suc (suc (suc (suc zero))))) h = refl
code-digit (suc (suc (suc (suc (suc (suc zero)))))) h = refl
code-digit (suc (suc (suc (suc (suc (suc (suc zero))))))) h = refl
code-digit (suc (suc (suc (suc (suc (suc (suc (suc zero)))))))) h = refl
code-digit (suc (suc (suc (suc (suc (suc (suc (suc (suc zero))))))))) h = refl
code-digit (suc (suc (suc (suc (suc (suc (suc (suc (suc (suc n)))))))))) h = absurd (omega arith)

scan-digit : (acc n : ℕ) (s : String) → n < 10 → scan acc (digit n ∷ s) ≡ scan (acc * 10 + n) s
unfolding scan
scan-digit acc n s h = ground (arith, code-digit n h)

scan-digits : (f n : ℕ) (out : String) → n < f → scan 0 (digits f n out) ≡ scan n out
unfolding digits
scan-digits zero n out h = absurd (omega arith)
scan-digits (suc f) n out h = elim (Bool-cases (ltb n 10)) [
  | inl e ↦ rw e (scan-digit 0 (n % 10) out (omega arith) ∙ ap (λ k. scan k out) (ground arith))
  | inr e ↦ rw e (
      scan-digits f (n / 10) (digit (n % 10) ∷ out) (ground arith)
      ∙ scan-digit (n / 10) (n % 10) out (omega arith)
      ∙ ap (λ k. scan k out) (omega arith))
]

starts-digit : (n : ℕ) (s : String) → n < 10 → starts_with_digit (digit n ∷ s) ≡ true
starts-digit n s h = ground (arith, code-digit n h)

starts-digits : (f n : ℕ) (out : String) → n < f → starts_with_digit (digits f n out) ≡ true
unfolding digits
starts-digits zero n out h = absurd (omega arith)
starts-digits (suc f) n out h = elim (Bool-cases (ltb n 10)) [
  | inl e ↦ rw e (starts-digit (n % 10) out (omega arith))
  | inr e ↦ rw e (starts-digits f (n / 10) (digit (n % 10) ∷ out) (ground arith))
]

skip_space_of_digit : (c : Char) (s : String) → is_digit c ≡ true → skip_space (c ∷ s) ≡ c ∷ s
unfolding skip_space
skip_space_of_digit c s h = ground arith

signed_of_digit : (c : Char) (s : String) → is_digit c ≡ true → signed (c ∷ s) ≡ unsigned (c ∷ s)
unfolding signed
signed_of_digit c s h =
    if_not (eqb (code c) b'-') _ _ (ground arith) ∙ if_not (eqb (code c) b'+') _ _ (ground arith)

-- A text that begins with a digit has no white space and no sign to skip.
stoul_of_digit : (s : String) → starts_with_digit s ≡ true → stoul s ≡ unsigned s
unfolding stoul
stoul_of_digit [] h = cc
stoul_of_digit (c ∷ s) h = rw (skip_space_of_digit c s h) (signed_of_digit c s h)

unsigned_of_scan :
    (s : String) (n : ℕ)
    → starts_with_digit s ≡ true
    → scan 0 s ≡ n
    → n ≤ size_max
    → unsigned s ≡ some n
unfolding unsigned
unsigned_of_scan s n h e le = rw (h, e) (rw (le→leb n size_max le))

-- What `to_string` prints, `stoul` reads.
pub stoul-to_string : (n : ℕ) → n ≤ size_max → stoul (to_string n) ≡ some n
unfolding to_string scan
stoul-to_string n h =
    let first = starts-digits (suc n) n "" (omega arith) in
    stoul_of_digit (digits (suc n) n "") first
    ∙ unsigned_of_scan (digits (suc n) n "") n first (scan-digits (suc n) n "" (omega arith)) h

starts-to_string : (n : ℕ) → starts_with_digit (to_string n) ≡ true
unfolding to_string
starts-to_string n = starts-digits (suc n) n "" (omega arith)

bounded_of_scan :
    (top n : ℕ) (s : String)
    → starts_with_digit s ≡ true
    → scan 0 s ≡ n
    → n ≤ top
    → bounded top s ≡ some n
unfolding bounded
bounded_of_scan top n s h e le = rw (h, e) (rw (le→leb n top le))

bounded-to_string : (top n : ℕ) → n ≤ top → bounded top (to_string n) ≡ some n
unfolding to_string scan
bounded-to_string top n h =
    bounded_of_scan top n (digits (suc n) n "") (starts-digits (suc n) n "" (omega arith))
      (scan-digits (suc n) n "" (omega arith)) h

-- A text that begins with a digit has no white space and no sign to skip.
stol_of_digit :
    (s : String) (n : ℕ)
    → starts_with_digit s ≡ true
    → bounded (2 ^ 63 - 1) s ≡ some n
    → stol s ≡ some (ℤ.pos n)
unfolding stol integer
stol_of_digit [] n h b = cc
stol_of_digit (c ∷ s) n h b = rw (skip_space_of_digit c s h) (
    if_not (eqb (code c) b'-') _ _ (ground arith)
    ∙ if_not (eqb (code c) b'+') _ _ (ground arith)
    ∙ rw b refl)

-- The numbers of 64 bits with a sign.
abbrev pub IsLong : ℤ → Type 0
IsLong (ℤ.pos n) = n < 2 ^ 63
IsLong (ℤ.negsuc n) = n < 2 ^ 63

-- What `to_string` prints of a number with a sign, `stol` reads.
pub stol-integer_text : (i : ℤ) → IsLong i → stol (integer_text i) ≡ some i
unfolding integer_text stol integer skip_space
stol-integer_text (ℤ.pos n) h =
    stol_of_digit (to_string n) n (starts-to_string n)
      (bounded-to_string (2 ^ 63 - 1) n (omega arith))
stol-integer_text (ℤ.negsuc n) h = rw (bounded-to_string (2 ^ 63) (suc n) (omega arith)) refl

stoul_samples : (stoul " +12x" ≡ some 12) × (stoul "-1" ≡ some size_max) × (stoul "x" ≡ none)
unfolding stoul signed unsigned scan skip_space
stoul_samples = (refl, refl, refl)

stol_samples :
    (stol " -12x" ≡ some (ℤ.negsuc 11)) × (stol "-0" ≡ some (ℤ.pos 0)) × (stol "-" ≡ none)
unfolding stol integer bounded scan skip_space
stol_samples = (refl, refl, refl)

pub to_string-ne-nil : (n : ℕ) → to_string n ≢ ""
to_string-ne-nil n e = true≢false (sym (starts-to_string n) ∙ ap starts_with_digit e)

pub integer_text-ne-nil : (i : ℤ) → integer_text i ≢ ""
unfolding integer_text
integer_text-ne-nil (ℤ.pos n) e = to_string-ne-nil n e
integer_text-ne-nil (ℤ.negsuc n) e = cc
