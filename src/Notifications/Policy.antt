-- ===== src/Notifications/Policy.antt =====
-- Alert policies, from notifications.service.ts: what the loosely typed fields of a policy stand
-- for, and the defaults that a rule takes from it.
pub mod Baseline
pub mod Defaults
pub mod Catalog
use nexusflow_backend.Prelude.{
  Bool, true, false, not, ◌&&◌, String, List, [], ◌∷◌, map, Option, none, some, Number, is_finite,
  less, is_empty, trim, to_lower_case, collect, distinct, find, any, get_or, is_some, if◌then◌else◌,
}
use nexusflow_backend.Value.{
  Value, undefined, null, number, text, array, Values, nil, cons, elements,
}
use nexusflow_backend.Platform.{Platform}
use nexusflow_backend.Notifications.Schemas.{
  Operator, gt, lt, ge, le, eq, between, outside, AlertPolicy,
}
use nexusflow_backend.Notifications.Condition.{
  Bounds, operator_of, symbol, same_operator, is_simple, is_range, normalize_condition_by_operator,
  against,
}

-- `normalizeReadingKey`
unfoldable pub normalize_reading_key : String → String
normalize_reading_key reading_key = to_lower_case (trim reading_key)

abbrev finite_or_null : Number → Option Number
finite_or_null n = if is_finite n then some n else none

-- `normalizeNullableNumber`
module _ ⦃p : Platform⦄ where
  unfoldable pub normalize_nullable_number : Value → Option Number
  normalize_nullable_number (number n) = finite_or_null n
  normalize_nullable_number (text s) =
      if is_empty (trim s) then none else finite_or_null (p.parse_number s)
  normalize_nullable_number v = none

abbrev pub default_supported : List Operator
default_supported = gt ∷ lt ∷ ge ∷ le ∷ eq ∷ []

-- An element of `supportedOperators`, if it names an operator.
operator_in : Value → Option Operator
operator_in (text s) = operator_of (trim s)
operator_in v = none

abbrev or_default : List Operator → List Operator
or_default [] = default_supported
or_default (op ∷ ops) = op ∷ ops

-- `normalizeSupportedOperators`
unfoldable pub normalize_supported_operators : Value → List Operator
unfolding operator_in
normalize_supported_operators (array vs) =
    or_default (distinct same_operator (collect operator_in (elements vs)))
normalize_supported_operators v = default_supported

-- A list of operators and a number or null as the values that a document holds.
abbrev pub symbols : List Operator → Values
symbols [] = nil
symbols (op ∷ ops) = cons (text (symbol op)) (symbols ops)

abbrev pub nullable : Option Number → Value
nullable none = null
nullable (some n) = number n

abbrev first_or_gt : List Operator → Operator
first_or_gt [] = gt
first_or_gt (op ∷ ops) = op

-- `pickDefaultOperator`
unfoldable pub pick_default_operator : Value → Operator
pick_default_operator supported =
    let ops = normalize_supported_operators supported in
    get_or (find is_simple ops) (first_or_gt ops)

abbrev supported_or : Option Operator → List Operator → Operator → Operator
supported_or none supported fallback = fallback
supported_or (some op) supported fallback =
    if any (same_operator op) supported then op else fallback

-- `normalizeDefaultOperator`
unfoldable pub normalize_default_operator : Value → List Operator → Operator → Operator
normalize_default_operator (text s) supported fallback =
    supported_or (operator_of (trim s)) supported fallback
normalize_default_operator v supported fallback = fallback

pub record PolicyDefaults : Type 0 where
  pub operator : Operator
  pub bounds : Bounds
  pub is_valid_condition : Bool

-- `isValidCondition` of `resolvePolicyDefaults`
unfoldable pub is_valid_condition : Operator → Bounds → Bool
is_valid_condition op b =
    if is_simple op && is_some b.threshold
    then true
    else is_range op && against b.min (λ lo. against b.max (λ hi. less lo hi))

module _ ⦃p : Platform⦄ where
  abbrev pub raw_bounds : AlertPolicy → Bounds
  raw_bounds policy = record {
    threshold = normalize_nullable_number policy.default_threshold;
    min = normalize_nullable_number policy.default_min;
    max = normalize_nullable_number policy.default_max;
  }

  -- The default operator that both `resolvePolicyDefaults` and `mapPolicy` find.
  unfoldable pub effective_operator : AlertPolicy → Operator
  effective_operator policy =
      let supported = normalize_supported_operators policy.supported_operators in
      normalize_default_operator policy.default_operator supported
        (pick_default_operator (array (symbols supported)))

  -- `resolvePolicyDefaults`
  unfoldable pub resolve_policy_defaults : AlertPolicy → PolicyDefaults
  resolve_policy_defaults policy =
      let op = effective_operator policy in
      let b = normalize_condition_by_operator op (raw_bounds policy) in
      record { operator = op; bounds = b; is_valid_condition = is_valid_condition op b }
