-- ===== src/Notifications/Policy/Catalog.antt =====
-- The collection of alert policies, from notifications.service.ts: listing, upserting and deleting
-- policies, the validation of their defaults, and the policies made sure of at the start.
pub mod Laws
pub mod Ensure
pub mod Deduplicate
pub mod Upsert
use nexusflow_backend.Prelude.{
  ℕ, Bool, true, false, not, ◌&&◌, ◌||◌, String, List, [], ◌∷◌, map, Option, none, some, any,
  is_empty, trim, ◌===◌, ◌⧺◌, if◌then◌else◌, is_some,
}
use nexusflow_backend.Value.{Value, undefined, null, text, array, show_value}
use nexusflow_backend.Action.{
  HttpError, bad_request, not_found, internal_server_error, Result, ok, err, Action, pure, lift,
  writes, reads, throw_if, ◌>>=◌, ◌>>◌,
}
use nexusflow_backend.Platform.{Doc, Platform}
use nexusflow_backend.Platform.Query.{find_all, find_one, has_some, sort, id_less}
use nexusflow_backend.Notifications.Schemas.{Severity, Operator, AlertPolicy, Store}
use nexusflow_backend.Notifications.Condition.{
  Bounds, operator_of, symbol, same_operator, validate_rule_condition,
  normalize_condition_by_operator,
}
use nexusflow_backend.Notifications.Policy.{
  normalize_reading_key, normalize_supported_operators, normalize_nullable_number, symbols,
  nullable, raw_bounds, resolve_policy_defaults, effective_operator,
}
use nexusflow_backend.Notifications.Policy.Baseline.{baseline_alert_policies}

pub record PolicyOutput : Type 0 where
  pub id : String
  pub module_id : String
  pub reading_key : String
  pub label : String
  pub required : Bool
  pub threshold_required : Bool
  pub default_enabled : Bool
  pub default_severity : Severity
  pub default_operator : Operator
  pub defaults : Bounds
  pub supported_operators : List Operator
  pub is_active : Bool

-- `value ?? '>'`
abbrev or_gt : Value → Value
or_gt undefined = text ">"
or_gt null = text ">"
or_gt v = v

-- `String(value ?? '')`
abbrev or_blank : Value → Value
or_blank undefined = text ""
or_blank null = text ""
or_blank v = v

-- Two policies are of one module and reading key.
abbrev pub same_subject : AlertPolicy → AlertPolicy → Bool
same_subject a b = a.module_id === b.module_id && a.reading_key === b.reading_key

-- The key of the map of `deduplicatePolicies`.
abbrev pub policy_key : AlertPolicy → String
policy_key policy = policy.module_id ⧺ "::" ⧺ policy.reading_key

-- `map.set(key, value)`
put_policy : AlertPolicy → List AlertPolicy → List AlertPolicy
put_policy policy [] = policy ∷ []
put_policy policy (x ∷ xs) =
    if policy_key x === policy_key policy then policy ∷ xs else x ∷ put_policy policy xs

-- What Mongoose adds to a write, since the schema has timestamps.
abbrev pub touched : ℕ → AlertPolicy → AlertPolicy
touched now policy = record policy { updated_at = some now }

-- A policy of the table as `ensureBaselinePolicies` writes it.
unfoldable pub baseline_write : AlertPolicy → AlertPolicy
baseline_write policy = record policy {
  module_id = trim policy.module_id;
  reading_key = normalize_reading_key policy.reading_key;
  label = trim policy.label;
}

module _ ⦃p : Platform⦄ where
  -- `mapPolicy`
  unfoldable pub map_policy : Doc AlertPolicy → PolicyOutput
  map_policy d = record {
    id = d.id;
    module_id = d.body.module_id;
    reading_key = d.body.reading_key;
    label = d.body.label;
    required = d.body.required;
    threshold_required = d.body.threshold_required;
    default_enabled = d.body.default_enabled;
    default_severity = d.body.default_severity;
    default_operator = effective_operator d.body;
    defaults = normalize_condition_by_operator (effective_operator d.body) (raw_bounds d.body);
    supported_operators = normalize_supported_operators d.body.supported_operators;
    is_active = d.body.is_active;
  }

  -- A policy of the request with its fields normalised.
  unfoldable pub normalize_policy : AlertPolicy → AlertPolicy
  normalize_policy policy = record policy {
    module_id = trim policy.module_id;
    reading_key = normalize_reading_key policy.reading_key;
    label = trim policy.label;
    default_operator = or_gt policy.default_operator;
    default_threshold = nullable (normalize_nullable_number policy.default_threshold);
    default_min = nullable (normalize_nullable_number policy.default_min);
    default_max = nullable (normalize_nullable_number policy.default_max);
    supported_operators =
        array (symbols (normalize_supported_operators policy.supported_operators));
  }

  abbrev unsupported : AlertPolicy → HttpError
  unsupported policy = bad_request (
      "defaultOperator \""
      ⧺ show_value p.show_number policy.default_operator
      ⧺ "\" must be one of supportedOperators for "
      ⧺ policy.module_id
      ⧺ ":"
      ⧺ policy.reading_key
      ⧺ ".")

  abbrev validate_supported : AlertPolicy → Option Operator → Result (Unit {0})
  validate_supported policy none = err (unsupported policy)
  validate_supported policy (some op) =
      if any (same_operator op) (normalize_supported_operators policy.supported_operators)
      then validate_rule_condition (symbol op) (raw_bounds policy)
      else err (unsupported policy)

  -- `validatePolicyDefaultCondition`
  unfoldable pub validate_policy_default_condition : AlertPolicy → Result (Unit {0})
  validate_policy_default_condition policy =
      validate_supported policy
        (operator_of (trim (show_value p.show_number (or_blank policy.default_operator))))

  -- The map of `deduplicatePolicies`, policies without a module or a reading key left out.
  collect_policies : List AlertPolicy → List AlertPolicy → List AlertPolicy
  collect_policies found [] = found
  collect_policies found (policy ∷ rest) =
      collect_policies
        (if is_empty policy.module_id || is_empty policy.reading_key
          then found
          else put_policy (normalize_policy policy) found)
        rest

  validate_all : List AlertPolicy → Result (Unit {0})
  validate_all [] = ok tt
  validate_all (policy ∷ rest) = elim (validate_policy_default_condition policy) [
    | err e ↦ err e
    | ok _ ↦ validate_all rest
  ]

  abbrev checked : List AlertPolicy → Result (Unit {0}) → Result (List AlertPolicy)
  checked policies (err e) = err e
  checked policies (ok _) = ok policies

  -- `deduplicatePolicies`
  unfoldable pub deduplicate_policies : List AlertPolicy → Result (List AlertPolicy)
  unfolding put_policy collect_policies validate_all
  deduplicate_policies policies =
      let found = collect_policies [] policies in checked found (validate_all found)

  -- `updateOne(filter, { $set }, { upsert: true })` for the subject of the policy.
  unfoldable pub upsert_policy :
      ℕ → AlertPolicy → p.Collection AlertPolicy → p.Collection AlertPolicy
  upsert_policy now policy c =
      if has_some (λ d. same_subject d.body policy) c
      then p.update_one (λ d. same_subject d.body policy) (λ _. touched now policy) c
      else (p.insert (touched now policy) c).1

  -- `updateOne(filter, { $setOnInsert }, { upsert: true })`
  unfoldable pub ensure_policy :
      ℕ → AlertPolicy → p.Collection AlertPolicy → p.Collection AlertPolicy
  ensure_policy now policy c =
      if has_some (λ d. same_subject d.body policy) c
      then p.update_one (λ d. same_subject d.body policy) (touched now) c
      else (p.insert (touched now policy) c).1

  -- `bulkWrite`
  pub for_each :
      (AlertPolicy → p.Collection AlertPolicy → p.Collection AlertPolicy)
      → List AlertPolicy
      → p.Collection AlertPolicy
      → p.Collection AlertPolicy
  for_each f [] c = c
  for_each f (policy ∷ rest) c = for_each f rest (f policy c)

  -- `upsertAlertPolicies`: the items of the answer. The counts of MongoDB are not modelled.
  unfoldable pub upsert_alert_policies : ℕ → List AlertPolicy → Action (Store p) (List PolicyOutput)
  unfolding for_each
  upsert_alert_policies now policies = do
    normalized ← lift (deduplicate_policies policies)
    writes (λ s. record s { policies = for_each (upsert_policy now) normalized s.policies })
    reads (λ s.
        map map_policy
          (find_all (λ d. any (λ policy. same_subject d.body policy) normalized) s.policies))

  -- `ensureBaselinePolicies`
  unfoldable pub ensure_baseline_policies : ℕ → Action (Store p) (Unit {0})
  unfolding for_each
  ensure_baseline_policies now = writes (λ s. record s {
    policies = for_each (ensure_policy now) (map baseline_write baseline_alert_policies) s.policies;
  })

  -- `deleteAlertPolicy`
  unfoldable pub delete_alert_policy : String → Action (Store p) (Unit {0})
  delete_alert_policy policy_id = do
    throw_if (not (p.is_object_id policy_id)) (internal_server_error "Internal server error")
    found ← reads (λ s. has_some (λ d. d.id === policy_id) s.policies)
    writes (λ s. record s { policies = p.delete_many (λ d. d.id === policy_id) s.policies })
    throw_if (not found) (not_found "Alert policy not found")

  -- `{ moduleId: 1, readingKey: 1 }`
  policy_before : Doc AlertPolicy → Doc AlertPolicy → Bool
  policy_before a b =
      id_less a.body.module_id b.body.module_id
      || a.body.module_id === b.body.module_id && id_less a.body.reading_key b.body.reading_key

  -- `getAlertPolicies`
  unfoldable pub get_alert_policies : Option String → Action (Store p) (List PolicyOutput)
  unfolding policy_before
  get_alert_policies module_id = reads (λ s. map map_policy (
      sort policy_before (
        find_all
          (λ d. elim module_id [
            | none ↦ true
            | some m ↦ is_empty (trim m) || d.body.module_id === trim m
          ])
          s.policies)))
