-- ===== src/Notifications/Policy/Defaults.antt =====
-- What the defaults of a policy guarantee: the operator is a supported one, and the flag
-- `isValidCondition` agrees with the validation of conditions.
use nexusflow_backend.Prelude.{
  true, ◌≡◌, refl, sym, ap, ◌≢◌, ◌↔◌, inl, inr, List, [], ◌∷◌, Option, none, some, Number, finite,
  is_finite, less, is_some, any-find, any-distinct_from, any, find, distinct, distinct_from,
  collect, arith, get_or, trim, Option-cases, Bool-cases, ltb_ℤ_iff, is_empty, ℤ, ◌<ℤ◌, subst,
}
use nexusflow_backend.Value.{Value, text, array, elements, number, undefined}
use nexusflow_backend.Action.{ok}
use nexusflow_backend.Platform.{Platform}
use nexusflow_backend.Notifications.Schemas.{
  Operator, gt, lt, ge, le, eq, between, outside, AlertPolicy,
}
use nexusflow_backend.Notifications.Condition.{
  Bounds, operator_of, against, same_operator, is_simple, validate_known,
  normalize_condition_by_operator,
}
use nexusflow_backend.Notifications.Condition.Laws.{
  IsCondition, IsThreshold, IsRange, known_iff, finite_of_is_finite,
}
use nexusflow_backend.Notifications.Policy.{
  normalize_nullable_number, operator_in, or_default, normalize_supported_operators, symbols,
  pick_default_operator, first_or_gt, normalize_default_operator, is_valid_condition, raw_bounds,
  effective_operator, resolve_policy_defaults, supported_or, finite_or_null,
}

same_operator_refl : (op : Operator) → same_operator op op ≡ true
same_operator_refl gt = refl
same_operator_refl lt = refl
same_operator_refl ge = refl
same_operator_refl le = refl
same_operator_refl eq = refl
same_operator_refl between = refl
same_operator_refl outside = refl

-- The operator is among the operators.
abbrev pub IsAmong : Operator → List Operator → Type 0
IsAmong op ops = any (same_operator op) ops ≡ true

collect-symbols : (ops : List Operator) → collect operator_in (elements (symbols ops)) ≡ ops
unfolding operator_in operator_of trim
collect-symbols [] = refl
collect-symbols (gt ∷ ops) = ap (λ xs. gt ∷ xs) (collect-symbols ops)
collect-symbols (lt ∷ ops) = ap (λ xs. lt ∷ xs) (collect-symbols ops)
collect-symbols (ge ∷ ops) = ap (λ xs. ge ∷ xs) (collect-symbols ops)
collect-symbols (le ∷ ops) = ap (λ xs. le ∷ xs) (collect-symbols ops)
collect-symbols (eq ∷ ops) = ap (λ xs. eq ∷ xs) (collect-symbols ops)
collect-symbols (between ∷ ops) = ap (λ xs. between ∷ xs) (collect-symbols ops)
collect-symbols (outside ∷ ops) = ap (λ xs. outside ∷ xs) (collect-symbols ops)

chosen : List Operator → Operator
chosen ops = get_or (find is_simple ops) (first_or_gt ops)

chosen-IsAmong : (op : Operator) (ops : List Operator) → IsAmong (chosen (op ∷ ops)) (op ∷ ops)
unfolding chosen
chosen-IsAmong op ops = go (find is_simple (op ∷ ops)) refl
  where
    go : (o : Option Operator) → find is_simple (op ∷ ops) ≡ o → IsAmong (get_or o op) (op ∷ ops)
    go none e = rw (same_operator_refl op)
    go (some found) e =
        any-find is_simple (same_operator found) (op ∷ ops) e (same_operator_refl found)

pick-symbols :
    (op : Operator) (ops : List Operator)
    → IsAmong (pick_default_operator (array (symbols (op ∷ ops)))) (op ∷ ops)
pick-symbols op ops =
    any-distinct_from same_operator
      (same_operator (pick_default_operator (array (symbols (op ∷ ops))))) [] (op ∷ ops)
      (subst (λ o. any (same_operator o) (distinct same_operator (op ∷ ops)) ≡ true) (sym picked)
        (chosen-IsAmong op (distinct_from same_operator (op ∷ []) ops)))
  where
    picked :
        pick_default_operator (array (symbols (op ∷ ops)))
        ≡ chosen (op ∷ distinct_from same_operator (op ∷ []) ops)
    picked =
        unfold pick_default_operator normalize_supported_operators chosen in
        ap (λ xs. chosen (or_default (distinct same_operator xs))) (collect-symbols (op ∷ ops))

default-IsAmong :
    (v : Value) (supported : List Operator) (fallback : Operator)
    → IsAmong fallback supported
    → IsAmong (normalize_default_operator v supported fallback) supported
unfolding normalize_default_operator
default-IsAmong (text s) supported fallback h = go (operator_of (trim s))
  where
    go : (o : Option Operator) → IsAmong (supported_or o supported fallback) supported
    go none = h
    go (some op) = elim (Bool-cases (any (same_operator op) supported)) [
      | inl among ↦ rw among among
      | inr missing ↦ rw missing h
    ]
default-IsAmong undefined supported fallback h = h
default-IsAmong _ supported fallback h = h

-- The fallback of a list of supported operators that is not empty is one of them.
fallback-IsAmong :
    (ops : List Operator) → ops ≢ [] → IsAmong (pick_default_operator (array (symbols ops))) ops
fallback-IsAmong [] h = absurd (h refl)
fallback-IsAmong (op ∷ ops) h = pick-symbols op ops

or_default-ne : (ops : List Operator) → or_default ops ≢ []
or_default-ne [] = cc
or_default-ne (op ∷ ops) = cc

supported-ne : (v : Value) → normalize_supported_operators v ≢ []
unfolding normalize_supported_operators
supported-ne (array vs) = or_default-ne _
supported-ne undefined = cc
supported-ne _ = cc

-- A number that is not null is finite.
abbrev IsFiniteOrNull : Option Number → Type 0
IsFiniteOrNull o = (n : Number) → o ≡ some n → is_finite n ≡ true

finite_or_null-finite : (m : Number) → IsFiniteOrNull (finite_or_null m)
finite_or_null-finite m n h = ground arith

module _ ⦃p : Platform⦄ where
  nullable-finite : (v : Value) → IsFiniteOrNull (normalize_nullable_number v)
  unfolding normalize_nullable_number
  nullable-finite (number m) n h = finite_or_null-finite m n h
  nullable-finite (text s) n h = elim (Bool-cases (is_empty (trim s))) [
    | inl blank ↦ absurd (ground arith)
    | inr given ↦ finite_or_null-finite (p.parse_number s) n (ground arith)
  ]
  nullable-finite _ n h = cc

threshold_iff :
    (b : Bounds)
    → IsFiniteOrNull b.threshold
    → (is_some b.threshold ≡ true) ↔ IsThreshold (record b { min = none; max = none })
threshold_iff b bounded = (
  λ h. elim (Option-cases b.threshold) [
    | inl missing ↦ absurd (ground arith)
    | inr (n, given) ↦
        let (z, is_z) = finite_of_is_finite n (bounded n given) in
        record { at = z; threshold = ground arith; min = refl; max = refl }
  ],
  λ c. ground arith,
)

less_iff : (a b : ℤ) → (less (finite a) (finite b) ≡ true) ↔ (a <ℤ b)
unfolding less
less_iff a b = ltb_ℤ_iff a b

IsRange-iff :
    (b : Bounds)
    → IsFiniteOrNull b.min
    → IsFiniteOrNull b.max
    → (against b.min (λ lo. against b.max (λ hi. less lo hi)) ≡ true)
      ↔ IsRange (record b { threshold = none })
IsRange-iff b low high = (
  λ h. elim (Option-cases b.min) [
    | inl missing ↦ absurd (ground arith)
    | inr (lo, given) ↦ elim (Option-cases b.max) [
      | inl missing ↦ absurd (ground arith)
      | inr (hi, given') ↦
          let (y, is_y) = finite_of_is_finite lo (low lo given) in
          let (z, is_z) = finite_of_is_finite hi (high hi given') in
          record {
            low = y;
            high = z;
            threshold = refl;
            min = ground arith;
            max = ground arith;
            ordered = (less_iff y z).0 (ground arith);
          }
    ]
  ],
  λ c. ground (arith, less_iff c.low c.high),
)

valid_iff :
    (op : Operator) (b : Bounds)
    → IsFiniteOrNull b.threshold
    → IsFiniteOrNull b.min
    → IsFiniteOrNull b.max
    → (is_valid_condition op (normalize_condition_by_operator op b) ≡ true)
      ↔ IsCondition op (normalize_condition_by_operator op b)
unfolding is_valid_condition normalize_condition_by_operator
valid_iff between b t lo hi = IsRange-iff b lo hi
valid_iff outside b t lo hi = IsRange-iff b lo hi
valid_iff gt b t lo hi =
    let (to, from) = threshold_iff b t in (λ h. to (ground arith), λ c. ground (arith, from c))
valid_iff _ b t lo hi =
    let (to, from) = threshold_iff b t in (λ h. to (ground arith), λ c. ground (arith, from c))

iff_trans : {A B C : Type 0} → (A ↔ B) → (C ↔ B) → A ↔ C
iff_trans f g = (λ a. g.1 (f.0 a), λ c. f.1 (g.0 c))

module _ ⦃p : Platform⦄ where
  -- Whatever a policy document holds, the operator of the defaults is one that the policy
  -- supports.
  resolved_operator_supported :
      (policy : AlertPolicy)
      → IsAmong
          (resolve_policy_defaults policy).operator
          (normalize_supported_operators policy.supported_operators)
  unfolding resolve_policy_defaults effective_operator
  resolved_operator_supported policy =
      default-IsAmong policy.default_operator _ _
        (fallback-IsAmong _ (supported-ne policy.supported_operators))

  -- The flag of the defaults that a rule takes from a policy says exactly that the condition
  -- would be accepted.
  pub is_valid_condition_iff :
      (policy : AlertPolicy)
      → ((resolve_policy_defaults policy).is_valid_condition ≡ true) ↔ (
          validate_known
            (resolve_policy_defaults policy).operator
            (resolve_policy_defaults policy).bounds
          ≡ ok tt)
  unfolding resolve_policy_defaults
  is_valid_condition_iff policy =
      iff_trans
        (valid_iff (effective_operator policy) (raw_bounds policy)
          (nullable-finite policy.default_threshold) (nullable-finite policy.default_min)
          (nullable-finite policy.default_max))
        (known_iff _ _)
