-- ===== src/Notifications/Condition.antt =====
-- Operators and conditions of alert rules, from notifications.service.ts: `validateRuleCondition`,
-- `matchesOperator`, `normalizeConditionByOperator` and the tables of operators.
pub mod Laws
use nexusflow_backend.Prelude.{
  Bool, true, false, not, ◌&&◌, ◌||◌, String, Option, none, some, Number, is_finite, less, same,
  less_eq, ◌===◌, ◌⧺◌, if◌then◌else◌, List, [], ◌∷◌, is_some,
}
use nexusflow_backend.Action.{HttpError, bad_request, Result, ok, err}
use nexusflow_backend.Notifications.Schemas.{Operator, gt, lt, ge, le, eq, between, outside}

-- SIMPLE_OPERATORS.includes(operator)
abbrev pub is_simple : Operator → Bool
is_simple between = false
is_simple outside = false
is_simple _ = true

-- RANGE_OPERATORS.includes(operator)
abbrev pub is_range : Operator → Bool
is_range between = true
is_range outside = true
is_range _ = false

abbrev pub all_operators : List Operator
all_operators = gt ∷ lt ∷ ge ∷ le ∷ eq ∷ between ∷ outside ∷ []

abbrev pub symbol : Operator → String
symbol gt = ">"
symbol lt = "<"
symbol ge = ">="
symbol le = "<="
symbol eq = "="
symbol between = "between"
symbol outside = "outside"

-- The operator that a text names, if ALL_OPERATORS has it.
unfoldable pub operator_of : String → Option Operator
operator_of s =
    if s === ">"
    then some gt
    else if s === "<"
    then some lt
    else if s === ">="
    then some ge
    else if s === "<="
    then some le
    else if s === "="
    then some eq
    else if s === "between"
    then some between
    else if s === "outside"
    then some outside
    else none

-- Two operators are one.
abbrev pub same_operator : Operator → Operator → Bool
same_operator gt gt = true
same_operator lt lt = true
same_operator ge ge = true
same_operator le le = true
same_operator eq eq = true
same_operator between between = true
same_operator outside outside = true
same_operator _ _ = false

-- The three numbers of a condition; `none` is `null` or `undefined`.
pub record Bounds : Type 0 where
  pub threshold : Option Number
  pub min : Option Number
  pub max : Option Number

-- A simple operator: a finite threshold and no range.
validate_simple : Operator → Bounds → Result (Unit {0})
validate_simple op b = elim b.threshold [
  | none ↦ err (bad_request ("Operator \"" ⧺ symbol op ⧺ "\" requires \"threshold\"."))
  | some threshold ↦
      if not (is_finite threshold)
      then err (bad_request "\"threshold\" must be a finite number.")
      else if is_some b.min
      then err (bad_request ("\"min\" must be null for operator \"" ⧺ symbol op ⧺ "\"."))
      else if is_some b.max
      then err (bad_request ("\"max\" must be null for operator \"" ⧺ symbol op ⧺ "\"."))
      else ok tt
]

-- A range operator: no threshold, and finite bounds in strict order.
validate_ends : Operator → Option Number → Option Number → Result (Unit {0})
validate_ends op none max = err (bad_request ("Operator \"" ⧺ symbol op ⧺ "\" requires \"min\"."))
validate_ends op (some min) none =
    err (bad_request ("Operator \"" ⧺ symbol op ⧺ "\" requires \"max\"."))
validate_ends op (some min) (some max) =
    if not (is_finite min) || not (is_finite max)
    then err (bad_request "\"min\" and \"max\" must be finite numbers.")
    else if less_eq max min
    then err (bad_request "\"min\" must be strictly less than \"max\".")
    else ok tt

validate_range : Operator → Bounds → Result (Unit {0})
validate_range op b =
    if is_some b.threshold
    then err (bad_request ("Operator \"" ⧺ symbol op ⧺ "\" requires \"threshold\" to be null."))
    else validate_ends op b.min b.max

unfoldable pub validate_known : Operator → Bounds → Result (Unit {0})
unfolding validate_simple validate_ends validate_range
validate_known op b = if is_simple op then validate_simple op b else validate_range op b

-- `validateRuleCondition`
unfoldable pub validate_rule_condition : String → Bounds → Result (Unit {0})
validate_rule_condition operator b = elim (operator_of operator) [
  | none ↦ err (bad_request ("Unsupported operator \"" ⧺ operator ⧺ "\"."))
  | some op ↦ validate_known op b
]

-- A test of a bound that is `false` where the bound is null.
abbrev pub against : Option Number → (Number → Bool) → Bool
against none test = false
against (some n) test = test n

-- `matchesOperator`
unfoldable pub matches_operator : Operator → Number → Bounds → Bool
matches_operator gt value b = against b.threshold (λ t. less t value)
matches_operator lt value b = against b.threshold (λ t. less value t)
matches_operator ge value b = against b.threshold (λ t. less_eq t value)
matches_operator le value b = against b.threshold (λ t. less_eq value t)
matches_operator eq value b = against b.threshold (λ t. same value t)
matches_operator between value b =
    against b.min (λ lo. against b.max (λ hi. less_eq lo value && less_eq value hi))
matches_operator outside value b =
    against b.min (λ lo. against b.max (λ hi. less value lo || less hi value))

-- `normalizeConditionByOperator`
unfoldable pub normalize_condition_by_operator : Operator → Bounds → Bounds
normalize_condition_by_operator op b =
    if is_simple op then record b { min = none; max = none } else record b { threshold = none }
