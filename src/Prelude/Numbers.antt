-- ===== src/Prelude/Numbers.antt =====
-- JavaScript's numbers as far as the program uses them: it compares them and tests them for being
-- finite. Every finite double is a whole multiple of 2^-1074, so `finite z` stands for z * 2^-1074,
-- and the comparisons of doubles are exactly those of the integers z.
use Prim.Native.Nat.{ℕ, suc, ◌+◌, ◌<◌, ◌*◌, ◌^◌}
use mathlib.Core.Logic.{◌↔◌}
use mathlib.Core.Path.{◌≡◌, refl}
use mathlib.Core.Bool.{Bool, true, false, not, ◌||◌}
use native.Mathlib.Omega.{arith}
use nexusflow_backend.Prelude.Tests.{ltb, ◌==◌}

-- `negsuc n` is -(n + 1).
pub data ℤ : Type 0 where
  pos : ℕ → ℤ
  negsuc : ℕ → ℤ

abbrev pub ltb_ℤ : ℤ → ℤ → Bool
ltb_ℤ (pos a) (pos b) = ltb a b
ltb_ℤ (pos a) (negsuc b) = false
ltb_ℤ (negsuc a) (pos b) = true
ltb_ℤ (negsuc a) (negsuc b) = ltb b a

abbrev pub eqb_ℤ : ℤ → ℤ → Bool
eqb_ℤ (pos a) (pos b) = a == b
eqb_ℤ (negsuc a) (negsuc b) = a == b
eqb_ℤ _ _ = false

pub data Number : Type 0 where
  nan infinity minus_infinity : Number
  finite : ℤ → Number

-- `Number.isFinite`
unfoldable pub is_finite : Number → Bool
is_finite (finite z) = true
is_finite _ = false

-- `a < b`: false where a side is NaN.
unfoldable pub less : Number → Number → Bool
less (finite a) (finite b) = ltb_ℤ a b
less (finite a) infinity = true
less minus_infinity (finite b) = true
less minus_infinity infinity = true
less _ _ = false

-- `a === b`: NaN is not equal to itself.
unfoldable pub same : Number → Number → Bool
same (finite a) (finite b) = eqb_ℤ a b
same infinity infinity = true
same minus_infinity minus_infinity = true
same _ _ = false

-- `a <= b`
unfoldable pub less_eq : Number → Number → Bool
unfolding less same
less_eq a b = less a b || same a b

-- A natural number as a JavaScript number.
unfoldable pub whole : ℕ → Number
whole n = finite (pos (n * 2 ^ 1074))

-- On finite numbers `<=` is the negation of the opposite `<`.
pub less_eq-not-less : (a b : ℤ) → less_eq (finite a) (finite b) ≡ not (less (finite b) (finite a))
unfolding less_eq
less_eq-not-less (pos a) (pos b) = ground arith
less_eq-not-less (negsuc a) (negsuc b) = ground arith
less_eq-not-less a b = ground arith

ordered : less (whole 2) (whole 400) ≡ true
unfolding less whole
ordered = refl

-- The order of the integers, by their positive and negative parts.
abbrev pub pos_part : ℤ → ℕ
pos_part (pos n) = n
pos_part (negsuc n) = 0

abbrev pub neg_part : ℤ → ℕ
neg_part (pos n) = 0
neg_part (negsuc n) = suc n

infix 50 ◌<ℤ◌
abbrev pub ◌<ℤ◌ : ℤ → ℤ → Type 0
a <ℤ b = pos_part a + neg_part b < pos_part b + neg_part a

pub ltb_ℤ_iff : (a b : ℤ) → (ltb_ℤ a b ≡ true) ↔ (a <ℤ b)
ltb_ℤ_iff (pos a) (pos b) = ground arith
ltb_ℤ_iff (pos a) (negsuc b) = ground arith
ltb_ℤ_iff (negsuc a) (pos b) = ground arith
ltb_ℤ_iff (negsuc a) (negsuc b) = ground arith

pub eqb_ℤ_iff : (a b : ℤ) → (eqb_ℤ a b ≡ true) ↔ (a ≡ b)
eqb_ℤ_iff (pos a) (pos b) = ground arith
eqb_ℤ_iff (negsuc a) (negsuc b) = ground arith
eqb_ℤ_iff (pos a) (negsuc b) = ground arith
eqb_ℤ_iff (negsuc a) (pos b) = ground arith
