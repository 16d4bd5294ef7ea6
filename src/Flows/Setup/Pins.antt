-- ===== src/Flows/Setup/Pins.antt =====
-- Which pins an accepted setup uses: each node its own, and only pins of the board that are free.
use nexusflow_backend.Prelude.{
  ℕ, true, false, List, [], ◌∷◌, ◌++◌, ◌≡◌, refl, ap, subst, arith, All, any, any-append, Number,
  nan, infinity, minus_infinity, finite, whole, same, eqb_ℤ_iff, pos, negsuc, Bool-cases, inl, inr,
}
use nexusflow_backend.Flows.Registry.{
  valid_pins, reserved_pins, analog_pins, dac_pins, gpio_input_pins, gpio_io_pins, has_pin,
}

-- No two numbers of the list are the same.
abbrev pub NoneSame : List Number → Type 0
NoneSame [] = Unit
NoneSame (x ∷ xs) = (any (same x) xs ≡ false) × NoneSame xs

-- A pin of the board that is not reserved.
abbrev pub IsUsable : Number → Type 0
IsUsable pin = (has_pin valid_pins pin ≡ true) × (has_pin reserved_pins pin ≡ false)

same→eq : (x y : Number) → same x y ≡ true → x ≡ y
unfolding same
same→eq (finite a) (finite b) h = ap finite ((eqb_ℤ_iff a b).0 h)
same→eq infinity infinity h = refl
same→eq minus_infinity minus_infinity h = refl
same→eq nan y h = absurd (cc)
same→eq x y h = absurd (ground arith)

pub same_sym : (x y : Number) → same x y ≡ same y x
unfolding same
same_sym (finite (pos a)) (finite (pos b)) = ground arith
same_sym (finite (negsuc a)) (finite (negsuc b)) = ground arith
same_sym x y = ground arith

-- What holds of every pin of a list holds of a number that is one of them.
of_has_pin :
    (Q : Number → Type 0) (pins : List ℕ) (pin : Number)
    → All (λ k. Q (whole k)) pins
    → has_pin pins pin ≡ true
    → Q pin
unfolding has_pin
of_has_pin Q [] pin h k = absurd (cc)
of_has_pin Q (k ∷ ks) pin h e = elim (Bool-cases (same (whole k) pin)) [
  | inl it ↦ subst Q (same→eq (whole k) pin it) h.0
  | inr other ↦ of_has_pin Q ks pin h.1 (ground arith)
]

pub analog-IsUsable : (pin : Number) → has_pin analog_pins pin ≡ true → IsUsable pin
unfolding has_pin same whole
analog-IsUsable pin h = of_has_pin IsUsable analog_pins pin (assumption refl) h

pub gpio_input-IsUsable : (pin : Number) → has_pin gpio_input_pins pin ≡ true → IsUsable pin
unfolding has_pin same whole
gpio_input-IsUsable pin h = of_has_pin IsUsable gpio_input_pins pin (assumption refl) h

pub dac-IsUsable : (pin : Number) → has_pin dac_pins pin ≡ true → IsUsable pin
unfolding has_pin same whole
dac-IsUsable pin h = of_has_pin IsUsable dac_pins pin (assumption refl) h

pub gpio_io-IsUsable : (pin : Number) → has_pin gpio_io_pins pin ≡ true → IsUsable pin
unfolding has_pin same whole
gpio_io-IsUsable pin h = of_has_pin IsUsable gpio_io_pins pin (assumption refl) h

pub NoneSame-concat :
    (xs : List Number) (y : Number)
    → NoneSame xs
    → any (same y) xs ≡ false
    → NoneSame (xs ++ y ∷ [])
NoneSame-concat [] y h k = (refl, tt)
NoneSame-concat (x ∷ xs) y h k = (
  ground (arith, any-append (same x) xs (y ∷ []), same_sym x y),
  NoneSame-concat xs y h.1 (ground arith),
)
