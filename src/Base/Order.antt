-- ===== src/Base/Order.antt =====
-- The order of texts: `operator<` of std::string is a strict total order.
use Prim.Native.Nat.{ℕ, compare as compare_ℕ, Ordering}
use Prim.Native.Char.{code}
use Prim.Native.String.{String, [], ◌∷◌, then, compare}
use Prim.Native.String.compare
use mathlib.Core.Path.{◌≡◌, refl, sym}
use mathlib.Core.Bool.{true, false}
use native.Mathlib.Omega.{arith}
use text.Mathlib.TextEquality.{path_by_compare}
use text.Mathlib.TextPositions.{compare_refl}
use restq.Base.Tests.{less}

flip : Ordering → Ordering
flip Ordering.lt = Ordering.gt
flip Ordering.eq = Ordering.eq
flip Ordering.gt = Ordering.lt

compare_ℕ-flip : (m n : ℕ) → compare_ℕ n m ≡ flip (compare_ℕ m n)
unfolding flip
compare_ℕ-flip m n = ground arith

then-flip : (o r : Ordering) → flip (then o r) ≡ then (flip o) (flip r)
unfolding flip
then-flip Ordering.lt r = refl
then-flip Ordering.eq r = refl
then-flip Ordering.gt r = refl

compare-flip : (s t : String) → compare t s ≡ flip (compare s t)
unfolding flip
compare-flip [] [] = refl
compare-flip [] (d ∷ t) = rw (compare.nil-cons d t, compare.cons-nil d t)
compare-flip (c ∷ s) [] = rw (compare.nil-cons c s, compare.cons-nil c s)
compare-flip (c ∷ s) (d ∷ t) =
    rw
      (
        compare.cons-cons d c t s,
        compare.cons-cons c d s t,
        compare_ℕ-flip (code c) (code d),
        compare-flip s t,
      )
      (sym (then-flip (compare_ℕ (code c) (code d)) (compare s t)))

then_trans :
    (a b c : ℕ) (o p q : Ordering)
    → (o ≡ Ordering.lt → p ≡ Ordering.lt → q ≡ Ordering.lt)
    → then (compare_ℕ a b) o ≡ Ordering.lt
    → then (compare_ℕ b c) p ≡ Ordering.lt
    → then (compare_ℕ a c) q ≡ Ordering.lt
then_trans a b c o p q f h k = ground arith

lt_trans :
    (s t u : String)
    → compare s t ≡ Ordering.lt
    → compare t u ≡ Ordering.lt
    → compare s u ≡ Ordering.lt
lt_trans [] [] u h k = k
lt_trans [] (d ∷ t) [] h k = cc (compare.cons-nil d t)
lt_trans [] (d ∷ t) (e ∷ u) h k = compare.nil-cons e u
lt_trans (c ∷ s) [] u h k = cc (compare.cons-nil c s)
lt_trans (c ∷ s) (d ∷ t) [] h k = cc (compare.cons-nil d t)
lt_trans (c ∷ s) (d ∷ t) (e ∷ u) h k = rw (compare.cons-cons c e s u) (
    then_trans (code c) (code d) (code e) (compare s t) (compare t u) (compare s u) (lt_trans s t u)
      (rw (compare.cons-cons c d s t) at h) (rw (compare.cons-cons d e t u) at k))

-- `a` does not come after `b`.
abbrev pub NotAfter : String → String → Type 0
NotAfter a b = less b a ≡ false

pub less_irrefl : (s : String) → less s s ≡ false
less_irrefl s = rw (compare_refl s)

pub less_asymm : (s t : String) → less s t ≡ true → less t s ≡ false
unfolding flip
less_asymm s t h = ground (arith, compare-flip s t)

-- Of two texts neither of which is before the other, each is the other.
pub eq_of_not-less : (s t : String) → less s t ≡ false → less t s ≡ false → s ≡ t
unfolding flip
eq_of_not-less s t h k = path_by_compare s t (ground (arith, compare-flip s t))

pub NotAfter-trans : (s t u : String) → NotAfter s t → NotAfter t u → NotAfter s u
unfolding flip
NotAfter-trans s t u h k = ground (
  arith,
  compare-flip s t,
  compare-flip t u,
  compare-flip s u,
  lt_trans u t s,
  lt_trans u s t,
  lt_trans t u s,
  path_by_compare s t,
  path_by_compare t u,
  compare_refl s,
  compare_refl t,
)

pub NotAfter-less_trans : (s t u : String) → NotAfter s t → less t u ≡ true → less s u ≡ true
unfolding flip
NotAfter-less_trans s t u h k =
    ground (arith, compare-flip s t, lt_trans s t u, path_by_compare s t)

pub less-NotAfter-trans : (s t u : String) → less s t ≡ true → NotAfter t u → less s u ≡ true
unfolding flip
less-NotAfter-trans s t u h k =
    ground (arith, compare-flip t u, lt_trans s t u, path_by_compare t u)
