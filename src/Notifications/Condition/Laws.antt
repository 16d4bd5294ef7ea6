-- ===== src/Notifications/Condition/Laws.antt =====
-- Which conditions are accepted, and what an accepted condition means.
use nexusflow_backend.Prelude.{
  true, false, ◌||◌, String, none, some, Number, ℤ, finite, nan, infinity, minus_infinity,
  is_finite, less, same, less_eq, ltb_ℤ, eqb_ℤ, ◌<ℤ◌, ltb_ℤ_iff, eqb_ℤ_iff, ◌≡◌, refl, ◌↔◌, ◌⊎◌,
  inl, inr, arith, Option-cases, subst,
}
use nexusflow_backend.Action.{ok}
use nexusflow_backend.Notifications.Schemas.{Operator, gt, lt, ge, le, eq, between, outside}
use nexusflow_backend.Notifications.Condition.{
  Bounds, validate_known, matches_operator, validate_ends, validate_range, validate_simple,
  validate_rule_condition, operator_of,
}

-- A simple operator has one finite threshold; a range has two finite ends, in strict order.
pub record IsThreshold (b : Bounds) : Type 0 where
  pub at : ℤ
  pub threshold : b.threshold ≡ some (finite at)
  pub min : b.min ≡ none
  pub max : b.max ≡ none

pub record IsRange (b : Bounds) : Type 0 where
  pub low : ℤ
  pub high : ℤ
  pub threshold : b.threshold ≡ none
  pub min : b.min ≡ some (finite low)
  pub max : b.max ≡ some (finite high)
  pub ordered : low <ℤ high

abbrev pub IsCondition : Operator → Bounds → Type 0
IsCondition between b = IsRange b
IsCondition outside b = IsRange b
IsCondition _ b = IsThreshold b

less_eq-finite : (a b : ℤ) → less_eq (finite a) (finite b) ≡ (ltb_ℤ a b || eqb_ℤ a b)
unfolding less_eq
less_eq-finite a b = refl

pub finite_of_is_finite : (n : Number) → is_finite n ≡ true → (z : ℤ) × (n ≡ finite z)
unfolding is_finite
finite_of_is_finite (finite z) h = (z, refl)
finite_of_is_finite nan h = cc
finite_of_is_finite infinity h = cc
finite_of_is_finite minus_infinity h = cc

simple_sound : (op : Operator) (b : Bounds) → validate_simple op b ≡ ok tt → IsThreshold b
unfolding validate_simple
simple_sound op b h = elim (Option-cases b.threshold) [
  | inl missing ↦ absurd (ground arith)
  | inr (n, given) ↦
      let (z, is_z) = finite_of_is_finite n (ground arith) in
      record { at = z; threshold = ground arith; min = ground arith; max = ground arith }
]

simple_complete : (op : Operator) (b : Bounds) → IsThreshold b → validate_simple op b ≡ ok tt
unfolding validate_simple is_finite
simple_complete op b c = ground arith

less_of_not_less_eq : (a b : ℤ) → less_eq (finite b) (finite a) ≡ false → a <ℤ b
less_of_not_less_eq a b h = ground (arith, less_eq-finite b a, ltb_ℤ_iff b a, eqb_ℤ_iff b a)

not-less_eq_of_less : (a b : ℤ) → a <ℤ b → less_eq (finite b) (finite a) ≡ false
not-less_eq_of_less a b h = ground (arith, less_eq-finite b a, ltb_ℤ_iff b a, eqb_ℤ_iff b a)

ends_sound :
    (op : Operator) (b : Bounds)
    → b.threshold ≡ none
    → validate_ends op b.min b.max ≡ ok tt
    → IsRange b
unfolding validate_ends
ends_sound op b free h = elim (Option-cases b.min) [
  | inl missing ↦ absurd (ground arith)
  | inr (lo, low) ↦ elim (Option-cases b.max) [
    | inl missing ↦ absurd (ground arith)
    | inr (hi, high) ↦
        let (y, is_y) = finite_of_is_finite lo (ground arith) in
        let (z, is_z) = finite_of_is_finite hi (ground arith) in
        record {
          low = y;
          high = z;
          threshold = free;
          min = ground arith;
          max = ground arith;
          ordered = less_of_not_less_eq y z (ground arith);
        }
  ]
]

IsRange-sound : (op : Operator) (b : Bounds) → validate_range op b ≡ ok tt → IsRange b
unfolding validate_range
IsRange-sound op b h = ends_sound op b (ground arith) (ground arith)

range_complete : (op : Operator) (b : Bounds) → IsRange b → validate_range op b ≡ ok tt
unfolding validate_range validate_ends is_finite
range_complete op b c = ground (arith, not-less_eq_of_less c.low c.high)

pub known_iff : (op : Operator) (b : Bounds) → (validate_known op b ≡ ok tt) ↔ IsCondition op b
unfolding validate_known
known_iff between b = (IsRange-sound between b, range_complete between b)
known_iff outside b = (IsRange-sound outside b, range_complete outside b)
known_iff gt b = (simple_sound gt b, simple_complete gt b)
known_iff lt b = (simple_sound lt b, simple_complete lt b)
known_iff ge b = (simple_sound ge b, simple_complete ge b)
known_iff le b = (simple_sound le b, simple_complete le b)
known_iff eq b = (simple_sound eq b, simple_complete eq b)

-- A condition is accepted exactly when its operator is one of the seven and its numbers are those
-- of the operator: one finite threshold alone, or two finite ends in strict order alone.
pub validate_rule_condition_iff :
    (operator : String) (b : Bounds)
    → (validate_rule_condition operator b ≡ ok tt)
      ↔ ((op : Operator) × (operator_of operator ≡ some op) × IsCondition op b)
unfolding validate_rule_condition
validate_rule_condition_iff operator b = elim (Option-cases (operator_of operator)) [
  | inl none_such ↦ (λ h. absurd (ground arith), λ h. absurd (ground arith))
  | inr (op, named) ↦ (
    λ h. (op, named, (known_iff op b).0 (ground arith)),
    λ h. accepted op named (subst (λ o. IsCondition o b) (ground arith) h.2),
  )
]
  where
    accepted :
        (op : Operator)
        → operator_of operator ≡ some op
        → IsCondition op b
        → validate_rule_condition operator b ≡ ok tt
    accepted op named c = rw (named, validate_rule_condition) ((known_iff op b).1 c)

-- What a condition says of a finite value, in terms of the order of the numbers.
abbrev pub Meets : (op : Operator) (z : ℤ) (b : Bounds) → IsCondition op b → Type 0
Meets gt z b c = c.at <ℤ z
Meets lt z b c = z <ℤ c.at
Meets ge z b c = ¬ (z <ℤ c.at)
Meets le z b c = ¬ (c.at <ℤ z)
Meets eq z b c = z ≡ c.at
Meets between z b c = ¬ (z <ℤ c.low) × ¬ (c.high <ℤ z)
Meets outside z b c = (z <ℤ c.low) ⊎ (c.high <ℤ z)

-- A finite value matches an accepted condition exactly when it is above, below, not below, not
-- above or equal to the threshold, within both ends, or beyond one of them, as the operator says.
pub matches_operator_iff :
    (op : Operator) (z : ℤ) (b : Bounds) (c : IsCondition op b)
    → (matches_operator op (finite z) b ≡ true) ↔ Meets op z b c
unfolding matches_operator less same
matches_operator_iff gt z b c = ground (arith, ltb_ℤ_iff c.at z)
matches_operator_iff lt z b c = ground (arith, ltb_ℤ_iff z c.at)
matches_operator_iff ge z b c =
    ground (arith, less_eq-finite c.at z, ltb_ℤ_iff c.at z, eqb_ℤ_iff c.at z)
matches_operator_iff le z b c =
    ground (arith, less_eq-finite z c.at, ltb_ℤ_iff z c.at, eqb_ℤ_iff z c.at)
matches_operator_iff eq z b c = ground (arith, eqb_ℤ_iff z c.at)
matches_operator_iff between z b c = ground (
  arith,
  less_eq-finite c.low z,
  less_eq-finite z c.high,
  ltb_ℤ_iff c.low z,
  ltb_ℤ_iff z c.low,
  ltb_ℤ_iff c.high z,
  ltb_ℤ_iff z c.high,
  eqb_ℤ_iff c.low z,
  eqb_ℤ_iff z c.high,
)
matches_operator_iff outside z b c = ground (arith, ltb_ℤ_iff z c.low, ltb_ℤ_iff c.high z)
