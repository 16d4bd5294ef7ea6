-- ===== src/Prelude/Whole.antt =====
-- The whole doubles: `Math.trunc`, `Number.isInteger`, `Math.min` and `Math.max`. The sign of zero
-- is not kept.
use Prim.Native.Nat.{ℕ, zero, suc, ◌*◌, ◌/◌, ◌%◌, ◌^◌}
use mathlib.Core.Path.{◌≡◌, refl}
use mathlib.Core.Bool.{Bool, true, false, ◌||◌}
use native.Mathlib.Omega.{arith}
use nexusflow_backend.Prelude.Tests.{◌==◌, if◌then◌else◌, Bool-cases}
use mathlib.Core.Logic.{inl, inr}
use nexusflow_backend.Prelude.Numbers.{
  ℤ, pos, negsuc, Number, nan, infinity, minus_infinity, finite, less, less_eq, same, whole,
}

-- How often the smallest double goes into 1.
one_unit : ℕ
one_unit = 2 ^ 1074

-- The whole part of a count of smallest doubles.
whole_part : ℕ → ℕ
unfolding one_unit
whole_part n = n / one_unit * one_unit

minus : ℕ → ℤ
minus zero = pos zero
minus (suc n) = negsuc n

-- `Math.trunc`
unfoldable pub trunc : Number → Number
unfolding whole_part minus
trunc (finite (pos n)) = finite (pos (whole_part n))
trunc (finite (negsuc n)) = finite (minus (whole_part (suc n)))
trunc x = x

-- `Number.isInteger`
unfoldable pub is_integer : Number → Bool
unfolding one_unit
is_integer (finite (pos n)) = n % one_unit == 0
is_integer (finite (negsuc n)) = suc n % one_unit == 0
is_integer _ = false

is_nan : Number → Bool
is_nan nan = true
is_nan _ = false

-- `Math.min` and `Math.max` of two numbers.
unfoldable pub least : Number → Number → Number
unfolding is_nan less
least a b = if is_nan a || is_nan b then nan else if less a b then a else b

unfoldable pub greatest : Number → Number → Number
unfolding is_nan less
greatest a b = if is_nan a || is_nan b then nan else if less a b then b else a

-- `Math.min(hi, Math.max(lo, x))`
unfoldable pub clamp : Number → Number → Number → Number
unfolding least greatest
clamp lo hi x = least hi (greatest lo x)

-- A finite number between finite bounds.
abbrev pub IsBetween : Number → Number → Number → Type 0
IsBetween lo hi x = (less_eq lo x ≡ true) × (less_eq x hi ≡ true)

pub clamp-IsBetween :
    (a b z : ℤ)
    → less_eq (finite a) (finite b) ≡ true
    → IsBetween (finite a) (finite b) (clamp (finite a) (finite b) (finite z))
unfolding clamp less_eq
clamp-IsBetween (pos a) (pos b) (pos z) h = ground arith
clamp-IsBetween (pos a) (pos b) (negsuc z) h = ground arith
clamp-IsBetween (negsuc a) (pos b) (pos z) h = ground arith
clamp-IsBetween (negsuc a) (pos b) (negsuc z) h = ground arith
clamp-IsBetween (negsuc a) (negsuc b) (pos z) h = ground arith
clamp-IsBetween (negsuc a) (negsuc b) (negsuc z) h = ground arith
clamp-IsBetween (pos a) (negsuc b) z h = absurd (ground arith)

nan_above : (lo : Number) → less_eq lo nan ≡ false
unfolding less_eq less same
nan_above nan = refl
nan_above infinity = refl
nan_above minus_infinity = refl
nan_above (finite z) = refl

is_nan-compared : (lo x : Number) → less_eq lo x ≡ true → is_nan x ≡ false
unfolding less_eq less same is_nan
is_nan-compared lo nan h = cc (h, nan_above lo)
is_nan-compared lo infinity h = refl
is_nan-compared lo minus_infinity h = refl
is_nan-compared lo (finite z) h = refl

pub least-IsBetween :
    (lo hi x y : Number) → IsBetween lo hi x → IsBetween lo hi y → IsBetween lo hi (least x y)
unfolding least
least-IsBetween lo hi x y h k =
    rw (is_nan-compared lo x h.0, is_nan-compared lo y k.0)
      (elim (Bool-cases (less x y)) [ inl e ↦ rw e h | inr e ↦ rw e k ])

test_trunc : trunc (whole 7) ≡ whole 7
unfolding trunc whole
test_trunc = refl
