-- ===== src/Tests/Condition.antt =====
-- Conditions of rules at concrete numbers.
use nexusflow_backend.Prelude.{◌≡◌, ◌↔◌, refl, true, none, some, finite, pos}
use nexusflow_backend.Action.{ok}
use nexusflow_backend.Notifications.Schemas.{Operator, gt}
use nexusflow_backend.Notifications.Condition.{
  Bounds, operator_of, validate_rule_condition, matches_operator,
}
use nexusflow_backend.Notifications.Condition.Laws.{
  IsCondition, Meets, validate_rule_condition_iff, matches_operator_iff,
}

abbrev above_three : Bounds
above_three = record { threshold = some (finite (pos 3)); min = none; max = none }

abbrev above_three-IsCondition : IsCondition gt above_three
above_three-IsCondition = record { at = pos 3; threshold = refl; min = refl; max = refl }

validate_rule_condition_iff_example :
    (validate_rule_condition ">" above_three ≡ ok tt)
    ↔ ((op : Operator) × (operator_of ">" ≡ some op) × IsCondition op above_three)
validate_rule_condition_iff_example = validate_rule_condition_iff ">" above_three

matches_operator_iff_example :
    (matches_operator gt (finite (pos 5)) above_three ≡ true)
    ↔ Meets gt (pos 5) above_three above_three-IsCondition
matches_operator_iff_example = matches_operator_iff gt (pos 5) above_three above_three-IsCondition
