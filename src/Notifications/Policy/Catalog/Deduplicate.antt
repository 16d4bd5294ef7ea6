-- ===== src/Notifications/Policy/Catalog/Deduplicate.antt =====
-- What is left of a request for policies.
use nexusflow_backend.Prelude.{
  true, false, ◌||◌, ◌≡◌, ◌∙◌, inl, inr, List, [], ◌∷◌, arith, All, Bool-cases, eq_of_===, is_empty,
  subst, ap, Bool, refl, ◌===◌, ◌⧺◌, ===_refl, ===_sym, All-map,
}
use nexusflow_backend.Action.{ok}
use nexusflow_backend.Platform.{Platform}
use nexusflow_backend.Notifications.Schemas.{AlertPolicy}
use nexusflow_backend.Notifications.Policy.Catalog.{
  same_subject, policy_key, put_policy, normalize_policy, collect_policies, validate_all,
  validate_policy_default_condition, deduplicate_policies,
}
use nexusflow_backend.Notifications.Policy.Catalog.Ensure.{same_subject_refl}

-- Equality of subjects is an equivalence.
pub same_subject_left :
    (a b c : AlertPolicy) → same_subject a b ≡ true → same_subject a c ≡ same_subject b c
same_subject_left a b c h =
    ground (arith, eq_of_=== a.module_id b.module_id, eq_of_=== a.reading_key b.reading_key)

pub same_subject_sym : (a b : AlertPolicy) → same_subject a b ≡ false → same_subject b a ≡ false
same_subject_sym a b h = elim (Bool-cases (same_subject b a)) [
  | inl same ↦ cc (same_subject_left b a b same, same_subject_refl b)
  | inr other ↦ other
]

-- No policy of the list has the subject, and no two of a list have one subject.
abbrev pub IsNewTo : AlertPolicy → List AlertPolicy → Type 0
IsNewTo q policies = All (λ r. same_subject r q ≡ false) policies

abbrev pub HaveDistinctSubjects : List AlertPolicy → Type 0
HaveDistinctSubjects [] = Unit
HaveDistinctSubjects (q ∷ rest) = IsNewTo q rest × HaveDistinctSubjects rest

-- The same of the keys of the map, which are equal where the subjects are.
abbrev HasNewKey : AlertPolicy → List AlertPolicy → Type 0
HasNewKey q policies = All (λ r. (policy_key r === policy_key q) ≡ false) policies

abbrev HaveDistinctKeys : List AlertPolicy → Type 0
HaveDistinctKeys [] = Unit
HaveDistinctKeys (q ∷ rest) = HasNewKey q rest × HaveDistinctKeys rest

HasNewKey-put :
    (q policy : AlertPolicy) (found : List AlertPolicy)
    → (policy_key policy === policy_key q) ≡ false
    → HasNewKey q found
    → HasNewKey q (put_policy policy found)
unfolding put_policy
HasNewKey-put q policy [] h k = (h, tt)
HasNewKey-put q policy (x ∷ xs) h k = elim (Bool-cases (policy_key x === policy_key policy)) [
  | inl same ↦ rw same (h, k.1)
  | inr other ↦ rw other (k.0, HasNewKey-put q policy xs h k.1)
]

distinct-put :
    (policy : AlertPolicy) (found : List AlertPolicy)
    → HaveDistinctKeys found
    → HaveDistinctKeys (put_policy policy found)
unfolding put_policy
distinct-put policy [] h = (tt, tt)
distinct-put policy (x ∷ xs) h = elim (Bool-cases (policy_key x === policy_key policy)) [
  | inl same ↦ rw same (
    subst (λ key. All (λ r. (policy_key r === key) ≡ false) xs)
        (eq_of_=== (policy_key x) (policy_key policy) same) h.0,
    h.1,
  )
  | inr other ↦ rw other (
    HasNewKey-put x policy xs (===_sym (policy_key policy) (policy_key x) ∙ other) h.0,
    distinct-put policy xs h.1,
  )
]

distinct-collect :
    ⦃p : Platform⦄ (found policies : List AlertPolicy)
    → HaveDistinctKeys found
    → HaveDistinctKeys (collect_policies found policies)
unfolding collect_policies
distinct-collect found [] h = h
distinct-collect found (policy ∷ rest) h =
    elim (Bool-cases (is_empty policy.module_id || is_empty policy.reading_key)) [
      | inl skipped ↦ rw skipped (distinct-collect found rest h)
      | inr given ↦ rw given (
          distinct-collect (put_policy (normalize_policy policy) found) rest
            (distinct-put (normalize_policy policy) found h))
    ]

same_subject-policy_key :
    (a b : AlertPolicy) → same_subject a b ≡ true → policy_key a ≡ policy_key b
same_subject-policy_key a b h =
    let first = eq_of_=== a.module_id b.module_id (ground arith) in
    let second = eq_of_=== a.reading_key b.reading_key (ground arith) in
    ap (λ m. m ⧺ "::" ⧺ a.reading_key) first ∙ ap (λ k. b.module_id ⧺ "::" ⧺ k) second

distinct_subjects :
    (policies : List AlertPolicy) → HaveDistinctKeys policies → HaveDistinctSubjects policies
distinct_subjects [] h = tt
distinct_subjects (q ∷ rest) h = (
  All-map (λ r. (policy_key r === policy_key q) ≡ false) (λ r. same_subject r q ≡ false) rest
      (λ r new. by_key r (same_subject r q) refl new) h.0,
  distinct_subjects rest h.1,
)
  where
    by_key :
        (r : AlertPolicy) (same : Bool)
        → same_subject r q ≡ same
        → (policy_key r === policy_key q) ≡ false
        → same ≡ false
    by_key r false e new = refl
    by_key r true e new =
        let keys = same_subject-policy_key r q e in
        cc (ap (λ k. k === policy_key q) keys, ===_refl (policy_key q), new)

module _ ⦃p : Platform⦄ where
  all_rest :
      (q : AlertPolicy) (rest : List AlertPolicy)
      → validate_all (q ∷ rest) ≡ ok tt
      → (validate_policy_default_condition q ≡ ok tt) × (validate_all rest ≡ ok tt)
  unfolding validate_all
  all_rest q rest h = ground arith

  validate_all-All :
      (policies : List AlertPolicy)
      → validate_all policies ≡ ok tt
      → All (λ q. validate_policy_default_condition q ≡ ok tt) policies
  unfolding validate_all
  validate_all-All [] h = tt
  validate_all-All (q ∷ rest) h =
      let (first, later) = all_rest q rest h in (first, validate_all-All rest later)

  -- An accepted request leaves at most one policy for a module and reading key, each with a
  -- default condition that is accepted.
  pub deduplicate_policies_sound :
      (policies found : List AlertPolicy)
      → deduplicate_policies policies ≡ ok found
      → HaveDistinctSubjects found × All (λ q. validate_policy_default_condition q ≡ ok tt) found
  unfolding deduplicate_policies
  deduplicate_policies_sound policies found h =
      let kept : collect_policies [] policies ≡ found = ground arith in
      let all : validate_all (collect_policies [] policies) ≡ ok tt = ground arith in
      (
        subst HaveDistinctSubjects kept (distinct_subjects _ (distinct-collect [] policies tt)),
        subst (All (λ q. validate_policy_default_condition q ≡ ok tt)) kept
            (validate_all-All _ all),
      )
