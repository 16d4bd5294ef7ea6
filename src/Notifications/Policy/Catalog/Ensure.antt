-- ===== src/Notifications/Policy/Catalog/Ensure.antt =====
-- The policies that the service makes sure of when it starts.
use mathlib.Core.List.{append_assoc, append-nil, map-append}
use nexusflow_backend.Prelude.{
  true, ◌≡◌, refl, sym, ap, ◌∙◌, inl, inr, List, [], ◌∷◌, ◌++◌, map, any, arith, All, Bool-cases,
  any-append, ===_refl, ℕ, none,
}
use nexusflow_backend.Platform.{Doc, Platform, update_first}
use nexusflow_backend.Notifications.Schemas.{AlertPolicy, Store}
use nexusflow_backend.Notifications.Policy.Baseline.{baseline_alert_policies}
use nexusflow_backend.Notifications.Policy.Catalog.{
  same_subject, touched, ensure_policy, for_each, baseline_write, ensure_baseline_policies,
}

pub same_subject_refl : (policy : AlertPolicy) → same_subject policy policy ≡ true
same_subject_refl policy = rw (===_refl, ===_refl)

module _ ⦃p : Platform⦄ where
  -- Some document is of the module and reading key of the policy.
  abbrev pub HasSubject : AlertPolicy → List (Doc AlertPolicy) → Type 0
  HasSubject policy ds = any (λ d. same_subject d.body policy) ds ≡ true

  HasSubject-append :
      (policy : AlertPolicy) (xs ys : List (Doc AlertPolicy))
      → HasSubject policy xs
      → HasSubject policy (xs ++ ys)
  HasSubject-append policy xs ys h = rw any-append (rw h)

  HasSubject-insert :
      (now : ℕ) (policy : AlertPolicy) (c : p.Collection AlertPolicy)
      → HasSubject policy (p.docs (p.insert (touched now policy) c).1)
  HasSubject-insert now policy c =
      rw
        (
          p.docs-insert (touched now policy) c,
          any-append,
          p.body-insert (touched now policy) c,
          same_subject_refl policy,
        )
        (ground arith)

  -- A document without the date that Mongoose keeps.
  abbrev pub untimed : Doc AlertPolicy → Doc AlertPolicy
  untimed d = record d { body = record d.body { updated_at = none } }

  untimed-touched :
      (policy : AlertPolicy) (now : ℕ) (ds : List (Doc AlertPolicy))
      → map untimed (update_first (λ d. same_subject d.body policy) (touched now) ds)
        ≡ map untimed ds
  untimed-touched policy now [] = refl
  untimed-touched policy now (d ∷ ds) = elim (Bool-cases (same_subject d.body policy)) [
    | inl it ↦ rw it refl
    | inr other ↦ rw (other, untimed-touched policy now ds) refl
  ]

  HasSubject-untimed :
      (policy : AlertPolicy) (ds : List (Doc AlertPolicy))
      → any (λ d. same_subject d.body policy) (map untimed ds)
        ≡ any (λ d. same_subject d.body policy) ds
  HasSubject-untimed policy [] = refl
  HasSubject-untimed policy (d ∷ ds) = rw (HasSubject-untimed policy ds) refl

  -- Documents that are the same but for their dates have the same subjects.
  HasSubject-same :
      (policy : AlertPolicy) (ds es : List (Doc AlertPolicy))
      → map untimed ds ≡ map untimed es
      → HasSubject policy es
      → HasSubject policy ds
  HasSubject-same policy ds es e h =
      sym (HasSubject-untimed policy ds)
      ∙ ap (any (λ d. same_subject d.body policy)) e
      ∙ HasSubject-untimed policy es
      ∙ h

  ensure_idle :
      (now : ℕ) (policy : AlertPolicy) (c : p.Collection AlertPolicy)
      → HasSubject policy (p.docs c)
      → map untimed (p.docs (ensure_policy now policy c)) ≡ map untimed (p.docs c)
  unfolding ensure_policy
  ensure_idle now policy c there = rw there (
      ap (map untimed) (p.docs-update_one (λ d. same_subject d.body policy) (touched now) c)
      ∙ untimed-touched policy now (p.docs c))

  ensure_appends :
      (now : ℕ) (policy : AlertPolicy) (c : p.Collection AlertPolicy)
      → (new : List (Doc AlertPolicy)) × (map untimed (p.docs (ensure_policy now policy c))
          ≡ map untimed (p.docs c) ++ new)
  unfolding ensure_policy
  ensure_appends now policy c =
      elim (Bool-cases (any (λ d. same_subject d.body policy) (p.docs c))) [
        | inl there ↦ ([], ensure_idle now policy c there ∙ sym (append-nil _))
        | inr missing ↦ (
          untimed (p.insert (touched now policy) c).0 ∷ [],
          rw missing (
              ap (map untimed) (p.docs-insert (touched now policy) c)
              ∙ map-append untimed (p.docs c) _),
        )
      ]

  ensure_has :
      (now : ℕ) (policy : AlertPolicy) (c : p.Collection AlertPolicy)
      → HasSubject policy (p.docs (ensure_policy now policy c))
  unfolding ensure_policy
  ensure_has now policy c = elim (Bool-cases (any (λ d. same_subject d.body policy) (p.docs c))) [
    | inl there ↦ HasSubject-same policy _ (p.docs c) (ensure_idle now policy c there) there
    | inr missing ↦ rw missing (HasSubject-insert now policy c)
  ]

  for_each_appends :
      (now : ℕ) (policies : List AlertPolicy) (c : p.Collection AlertPolicy)
      → (new : List (Doc AlertPolicy)) × (map untimed
            (p.docs (for_each (ensure_policy now) policies c))
          ≡ map untimed (p.docs c) ++ new)
  unfolding for_each
  for_each_appends now [] c = ([], sym (append-nil _))
  for_each_appends now (policy ∷ rest) c =
      let (new, e) = ensure_appends now policy c in
      let (later, e') = for_each_appends now rest (ensure_policy now policy c) in
      (
        new ++ later,
        e' ∙ ap (λ ds. ds ++ later) e ∙ append_assoc (map untimed (p.docs c)) new later,
      )

  -- What has been added behind the documents leaves their subjects.
  HasSubject-later :
      (policy : AlertPolicy) (ds es new : List (Doc AlertPolicy))
      → map untimed ds ≡ map untimed es ++ new
      → HasSubject policy es
      → HasSubject policy ds
  HasSubject-later policy ds es new e h =
      sym (HasSubject-untimed policy ds)
      ∙ ap (any (λ d. same_subject d.body policy)) e
      ∙ HasSubject-append policy (map untimed es) new (HasSubject-untimed policy es ∙ h)

  for_each_has :
      (now : ℕ) (policies : List AlertPolicy) (c : p.Collection AlertPolicy)
      → All
          (λ policy. HasSubject policy (p.docs (for_each (ensure_policy now) policies c)))
          policies
  unfolding for_each
  for_each_has now [] c = tt
  for_each_has now (policy ∷ rest) c =
      let (later, e) = for_each_appends now rest (ensure_policy now policy c) in
      (
        HasSubject-later policy _ (p.docs (ensure_policy now policy c)) later e
            (ensure_has now policy c),
        for_each_has now rest (ensure_policy now policy c),
      )

  for_each_idle :
      (now : ℕ) (policies : List AlertPolicy) (c c' : p.Collection AlertPolicy)
      → map untimed (p.docs c') ≡ map untimed (p.docs c)
      → All (λ policy. HasSubject policy (p.docs c)) policies
      → map untimed (p.docs (for_each (ensure_policy now) policies c')) ≡ map untimed (p.docs c)
  unfolding for_each
  for_each_idle now [] c c' same h = same
  for_each_idle now (policy ∷ rest) c c' same h =
      for_each_idle now rest c (ensure_policy now policy c')
        (ensure_idle now policy c' (HasSubject-same policy (p.docs c') (p.docs c) same h.0) ∙ same)
        h.1

  abbrev pub baseline : List AlertPolicy
  baseline = map baseline_write baseline_alert_policies

  -- But for the date of the last update, which Mongoose writes, starting the service only adds
  -- policies behind the stored ones and leaves these as they are. After it there is a policy for
  -- every module and reading key of the table.
  pub baseline_only_adds :
      (now : ℕ) (s : Store p)
      → (new : List (Doc AlertPolicy)) × (map untimed
            (p.docs (ensure_baseline_policies now s).1.policies)
          ≡ map untimed (p.docs s.policies) ++ new)
        × All
            (λ policy. HasSubject policy (p.docs (ensure_baseline_policies now s).1.policies))
            baseline
  unfolding ensure_baseline_policies
  baseline_only_adds now s =
      let (new, e) = for_each_appends now baseline s.policies in
      (new, e, for_each_has now baseline s.policies)

  -- Starting the service a second time changes nothing but the dates of the last update that
  -- Mongoose writes to policies.
  pub baseline_idempotent :
      (now now' : ℕ) (s : Store p)
      → let started = (ensure_baseline_policies now s).1 in
        let again = (ensure_baseline_policies now' started).1 in
        (map untimed (p.docs again.policies) ≡ map untimed (p.docs started.policies))
        × (again ≡ record started { policies = again.policies })
  unfolding ensure_baseline_policies
  baseline_idempotent now now' s =
      let started = for_each (ensure_policy now) baseline s.policies in
      (
        for_each_idle now' baseline started started refl (for_each_has now baseline s.policies),
        refl,
      )
