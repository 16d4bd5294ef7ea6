-- ===== src/Tests/Policy.antt =====
-- Policies at a concrete request.
use nexusflow_backend.Prelude.{
  ◌≡◌, ◌↔◌, refl, true, List, [], ◌∷◌, ◌++◌, some, All, trim, is_empty, to_lower_case, is_finite,
  whole, map, arith,
}
use nexusflow_backend.Value.{show_value}
use nexusflow_backend.Action.{ok}
use nexusflow_backend.Platform.{Doc}
use nexusflow_backend.Platform.Memory.{memory}
use nexusflow_backend.Notifications.Schemas.{AlertPolicy}
use nexusflow_backend.Notifications.Condition.{operator_of, validate_known, validate_rule_condition}
use nexusflow_backend.Notifications.Policy.{
  raw_bounds, resolve_policy_defaults, normalize_supported_operators, normalize_reading_key,
  normalize_nullable_number,
}
use nexusflow_backend.Notifications.Policy.Defaults.{is_valid_condition_iff}
use nexusflow_backend.Notifications.Policy.Catalog.{
  validate_policy_default_condition, deduplicate_policies, normalize_policy, upsert_alert_policies,
  ensure_baseline_policies,
}
use nexusflow_backend.Notifications.Policy.Catalog.Laws.{accepted_policy_keeps_defaults}
use nexusflow_backend.Notifications.Policy.Catalog.Ensure.{
  HasSubject, untimed, baseline, baseline_only_adds, baseline_idempotent,
}
use nexusflow_backend.Notifications.Policy.Catalog.Deduplicate.{
  HaveDistinctSubjects, IsNewTo, deduplicate_policies_sound,
}
use nexusflow_backend.Notifications.Policy.Catalog.Upsert.{
  IsHeld, of_subject, upsert_alert_policies_holds,
}
use nexusflow_backend.Tests.Samples.{gas_policy, store}

is_valid_condition_iff_example :
    ((resolve_policy_defaults gas_policy).is_valid_condition ≡ true) ↔ (
      validate_known
        (resolve_policy_defaults gas_policy).operator
        (resolve_policy_defaults gas_policy).bounds
      ≡ ok tt)
is_valid_condition_iff_example = is_valid_condition_iff gas_policy

accepted : validate_policy_default_condition gas_policy ≡ ok tt
unfolding validate_policy_default_condition validate_rule_condition validate_known
    normalize_supported_operators normalize_nullable_number operator_of trim show_value is_finite
    whole
accepted = refl

accepted_policy_keeps_defaults_example :
    (operator_of (trim ">") ≡ some (resolve_policy_defaults gas_policy).operator)
    × ((resolve_policy_defaults gas_policy).bounds ≡ raw_bounds gas_policy)
    × ((resolve_policy_defaults gas_policy).is_valid_condition ≡ true)
accepted_policy_keeps_defaults_example = accepted_policy_keeps_defaults gas_policy ">" refl accepted

abbrev kept : List AlertPolicy
kept = normalize_policy gas_policy ∷ []

deduplicated : deduplicate_policies (gas_policy ∷ gas_policy ∷ []) ≡ ok kept
unfolding deduplicate_policies normalize_policy validate_policy_default_condition
    validate_rule_condition validate_known normalize_supported_operators normalize_nullable_number
    normalize_reading_key is_empty trim to_lower_case operator_of show_value is_finite whole
deduplicated = refl

deduplicate_policies_sound_example :
    HaveDistinctSubjects kept × All (λ q. validate_policy_default_condition q ≡ ok tt) kept
deduplicate_policies_sound_example =
    deduplicate_policies_sound (gas_policy ∷ gas_policy ∷ []) kept deduplicated

abbrev upserted : List (Doc AlertPolicy)
upserted = memory.docs (upsert_alert_policies 5 (gas_policy ∷ gas_policy ∷ []) store).1.policies

upsert_alert_policies_holds_example :
    All (λ q. IsHeld 5 q upserted) kept
    × ((q : AlertPolicy)
        → IsNewTo q kept
        → of_subject q upserted ≡ of_subject q (memory.docs store.policies))
upsert_alert_policies_holds_example =
    upsert_alert_policies_holds 5 (gas_policy ∷ gas_policy ∷ []) kept store deduplicated
      (omega arith, tt)

baseline_only_adds_example :
    (new : List (Doc AlertPolicy)) × (map untimed
        (memory.docs (ensure_baseline_policies 5 store).1.policies)
      ≡ map untimed (memory.docs store.policies) ++ new)
    × All
        (λ policy. HasSubject policy (memory.docs (ensure_baseline_policies 5 store).1.policies))
        baseline
baseline_only_adds_example = baseline_only_adds 5 store

baseline_idempotent_example :
    let started = (ensure_baseline_policies 5 store).1 in
    let again = (ensure_baseline_policies 9 started).1 in
    (map untimed (memory.docs again.policies) ≡ map untimed (memory.docs started.policies))
    × (again ≡ record started { policies = again.policies })
baseline_idempotent_example = baseline_idempotent 5 9 store
