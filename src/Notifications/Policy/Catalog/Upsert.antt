-- ===== src/Notifications/Policy/Catalog/Upsert.antt =====
-- Upserting policies by module and reading key.
use mathlib.Core.List.{append-nil}
use nexusflow_backend.Prelude.{
  true, false, ◌≡◌, refl, inl, inr, List, [], ◌∷◌, any, arith, All, Bool-cases, ap, sym, ◌∙◌, subst,
  ℕ, ◌≤◌, String, select, select-append, length, if◌then◌else◌,
}
use nexusflow_backend.Action.{HttpError, ok, err}
use nexusflow_backend.Platform.{Doc, Platform, update_first}
use nexusflow_backend.Notifications.Schemas.{AlertPolicy, Store}
use nexusflow_backend.Notifications.Policy.Catalog.{
  same_subject, touched, deduplicate_policies, upsert_policy, for_each, upsert_alert_policies,
}
use nexusflow_backend.Notifications.Policy.Catalog.Ensure.{same_subject_refl}
use nexusflow_backend.Notifications.Policy.Catalog.Deduplicate.{
  same_subject_left, same_subject_sym, HaveDistinctSubjects, IsNewTo, deduplicate_policies_sound,
}

-- The documents of the subject of a policy.
abbrev pub of_subject : AlertPolicy → List (Doc AlertPolicy) → List (Doc AlertPolicy)
of_subject policy = select (λ d. same_subject d.body policy)

-- The one document of a subject holds the policy, as it was written at the time.
abbrev pub IsHeld : ℕ → AlertPolicy → List (Doc AlertPolicy) → Type 0
IsHeld now policy ds =
    (id : String) × (of_subject policy ds ≡ record { id = id; body = touched now policy } ∷ [])

-- The documents where the first of a subject is written.
abbrev written : ℕ → AlertPolicy → List (Doc AlertPolicy) → List (Doc AlertPolicy)
written now policy = update_first (λ d. same_subject d.body policy) (λ _. touched now policy)

none_of_subject :
    (policy : AlertPolicy) (ds : List (Doc AlertPolicy))
    → any (λ d. same_subject d.body policy) ds ≡ false
    → of_subject policy ds ≡ []
none_of_subject policy [] h = refl
none_of_subject policy (d ∷ ds) h = ground (arith, none_of_subject policy ds)

empty_list : {A : Type 0} (xs : List A) → length xs ≤ 0 → xs ≡ []
empty_list [] h = refl
empty_list (x ∷ xs) h = absurd (omega arith)

IsHeld-written :
    (now : ℕ) (policy : AlertPolicy) (ds : List (Doc AlertPolicy))
    → any (λ d. same_subject d.body policy) ds ≡ true
    → length (of_subject policy ds) ≤ 1
    → IsHeld now policy (written now policy ds)
IsHeld-written now policy [] there one = absurd (cc there)
IsHeld-written now policy (d ∷ ds) there one = elim (Bool-cases (same_subject d.body policy)) [
  | inl it ↦
      let alone : of_subject policy ds ≡ [] = empty_list (of_subject policy ds) (ground arith) in
      (d.id, rw it (rw (same_subject_refl policy) (rw alone refl)))
  | inr other ↦
      let (id, held) = IsHeld-written now policy ds (ground arith) (ground arith) in
      (id, rw other (rw other held))
]

-- Writing another subject leaves the documents of this one.
of_subject-written_ne :
    (now : ℕ) (q policy : AlertPolicy) (ds : List (Doc AlertPolicy))
    → same_subject policy q ≡ false
    → of_subject q (written now policy ds) ≡ of_subject q ds
of_subject-written_ne now q policy [] ne = refl
of_subject-written_ne now q policy (d ∷ ds) ne = elim (Bool-cases (same_subject d.body policy)) [
  | inl it ↦
      let before : same_subject d.body q ≡ false = same_subject_left d.body policy q it ∙ ne in
      rw it (rw (ne, before) refl)
  | inr other ↦ rw other (
      ap (λ r. if same_subject d.body q then d ∷ r else r)
        (of_subject-written_ne now q policy ds ne))
]

one_of_subject :
    (now : ℕ) (policy : AlertPolicy) (d : Doc AlertPolicy)
    → d.body ≡ touched now policy
    → of_subject policy (d ∷ []) ≡ record { id = d.id; body = touched now policy } ∷ []
one_of_subject now policy d e =
    ap (λ b. of_subject policy (record { id = d.id; body = b } ∷ [])) e
    ∙ rw (same_subject_refl policy) refl

module _ ⦃p : Platform⦄ (now : ℕ) where
  IsHeld-upsert :
      (policy : AlertPolicy) (c : p.Collection AlertPolicy)
      → length (of_subject policy (p.docs c)) ≤ 1
      → IsHeld now policy (p.docs (upsert_policy now policy c))
  unfolding upsert_policy
  IsHeld-upsert policy c one =
      elim (Bool-cases (any (λ d. same_subject d.body policy) (p.docs c))) [
        | inl there ↦
            rw
              (
                there,
                p.docs-update_one (λ d. same_subject d.body policy) (λ _. touched now policy) c,
              )
              (IsHeld-written now policy (p.docs c) there one)
        | inr missing ↦
            let inserted = p.insert (touched now policy) c in
            let body = p.body-insert (touched now policy) c in
            (
              inserted.0.id,
              rw
                  (
                    missing,
                    p.docs-insert (touched now policy) c,
                    select-append {A = Doc AlertPolicy} (λ d. same_subject d.body policy),
                    none_of_subject policy (p.docs c) missing,
                  )
                  (one_of_subject now policy inserted.0 body),
            )
      ]

  of_subject-upsert_ne :
      (q policy : AlertPolicy) (c : p.Collection AlertPolicy)
      → same_subject policy q ≡ false
      → of_subject q (p.docs (upsert_policy now policy c)) ≡ of_subject q (p.docs c)
  unfolding upsert_policy
  of_subject-upsert_ne q policy c ne =
      elim (Bool-cases (any (λ d. same_subject d.body policy) (p.docs c))) [
        | inl there ↦
            rw
              (
                there,
                p.docs-update_one (λ d. same_subject d.body policy) (λ _. touched now policy) c,
              )
              (of_subject-written_ne now q policy (p.docs c) ne)
        | inr missing ↦
            rw
              (
                missing,
                p.docs-insert (touched now policy) c,
                select-append {A = Doc AlertPolicy} (λ d. same_subject d.body q),
                p.body-insert (touched now policy) c,
                ne,
              )
              (append-nil _)
      ]

  of_subject-later :
      (q : AlertPolicy) (policies : List AlertPolicy) (c : p.Collection AlertPolicy)
      → IsNewTo q policies
      → of_subject q (p.docs (for_each (upsert_policy now) policies c)) ≡ of_subject q (p.docs c)
  unfolding for_each
  of_subject-later q [] c h = refl
  of_subject-later q (policy ∷ rest) c h =
      of_subject-later q rest (upsert_policy now policy c) h.1 ∙ of_subject-upsert_ne q policy c h.0

  -- The index on module id and reading key leaves one document for a subject.
  abbrev pub AreIndexed : List AlertPolicy → p.Collection AlertPolicy → Type 0
  AreIndexed policies c = All (λ q. length (of_subject q (p.docs c)) ≤ 1) policies

  indexed-upsert :
      (policy : AlertPolicy) (rest : List AlertPolicy) (c : p.Collection AlertPolicy)
      → IsNewTo policy rest
      → AreIndexed rest c
      → AreIndexed rest (upsert_policy now policy c)
  indexed-upsert policy [] c h k = tt
  indexed-upsert policy (q ∷ rest) c h k = (
    subst (λ ds. length ds ≤ 1)
        (sym (of_subject-upsert_ne q policy c (same_subject_sym q policy h.0))) k.0,
    indexed-upsert policy rest c h.1 k.1,
  )

  IsHeld-for_each :
      (policies : List AlertPolicy) (c : p.Collection AlertPolicy)
      → HaveDistinctSubjects policies
      → AreIndexed policies c
      → All (λ q. IsHeld now q (p.docs (for_each (upsert_policy now) policies c))) policies
  unfolding for_each
  IsHeld-for_each [] c h one = tt
  IsHeld-for_each (q ∷ rest) c h one =
      let (id, held) = IsHeld-upsert q c one.0 in
      (
        (id, of_subject-later q rest (upsert_policy now q c) h.0 ∙ held),
        IsHeld-for_each rest (upsert_policy now q c) h.1 (indexed-upsert q rest c h.0 one.1),
      )

  -- After an accepted request, where the index had left at most one document for the module and
  -- reading key of each of its policies, the only document of each holds the normalised policy,
  -- updated now, and the documents of other modules and reading keys are as before.
  pub upsert_alert_policies_holds :
      (policies found : List AlertPolicy) (s : Store p)
      → deduplicate_policies policies ≡ ok found
      → AreIndexed found s.policies
      → All (λ q. IsHeld now q (p.docs (upsert_alert_policies now policies s).1.policies)) found
        × ((q : AlertPolicy)
            → IsNewTo q found
            → of_subject q (p.docs (upsert_alert_policies now policies s).1.policies)
              ≡ of_subject q (p.docs s.policies))
  unfolding upsert_alert_policies
  upsert_alert_policies_holds policies found s h one =
      let distinct = (deduplicate_policies_sound policies found h).0 in
      rw h (
        IsHeld-for_each found s.policies distinct one,
        λ q new. of_subject-later q found s.policies new,
      )

  -- A request with a default condition that is not accepted throws, and changes nothing.
  pub upsert_alert_policies_rejects :
      (policies : List AlertPolicy) (e : HttpError) (s : Store p)
      → deduplicate_policies policies ≡ err e
      → upsert_alert_policies now policies s ≡ (err e, s)
  unfolding upsert_alert_policies
  upsert_alert_policies_rejects policies e s h = rw h
