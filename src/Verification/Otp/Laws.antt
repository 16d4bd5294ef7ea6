-- ===== src/Verification/Otp/Laws.antt =====
-- A code that was issued works once.
use nexusflow_backend.Prelude.{
  ℕ, ◌+◌, ◌*◌, ◌≤◌, ◌<◌, Bool, true, false, String, List, [], ◌∷◌, ◌++◌, map, some, ◌===◌, ===_refl,
  ◌≡◌, refl, ap, ◌∙◌, select, select-append, Bool-cases, inl, inr, arith, All,
}
use nexusflow_backend.Action.{bad_request, ok, err}
use nexusflow_backend.Platform.{Doc, Platform, edit}
use nexusflow_backend.Platform.Query.{sort}
use nexusflow_backend.Verification.Otp.{
  OtpPurpose, email_verification, password_reset, EmailVerificationOtp, normalize_email,
  passes_purpose, is_live, used, new_otp, issue_otp, consume_otp,
}

passes_itself : (purpose : OtpPurpose) → passes_purpose purpose (some purpose) ≡ true
unfolding passes_purpose
passes_itself email_verification = refl
passes_itself password_reset = refl

module _ (email : String) (purpose : OtpPurpose) where
  -- Once the live codes are used, none is live at any later time.
  none_live :
      (now later : ℕ) (ds : List (Doc EmailVerificationOtp))
      → now ≤ later
      → select (is_live email purpose later) (map (edit (is_live email purpose now) (used now)) ds)
        ≡ []
  none_live now later [] h = refl
  none_live now later (d ∷ ds) h = elim (Bool-cases (is_live email purpose now d)) [
    | inl live ↦ rw live (ground (arith, none_live now later ds h))
    | inr dead ↦
        let still : is_live email purpose later d ≡ false = ground arith in
        rw (dead, still) (none_live now later ds h)
  ]

  -- The code that was found is used, and no other was live.
  none_after :
      (now later : ℕ) (d : Doc EmailVerificationOtp) (ds : List (Doc EmailVerificationOtp))
      → now ≤ later
      → All (λ x. is_live email purpose now x ≡ true → (x.id === d.id) ≡ true) ds
      → select (is_live email purpose later) (map (edit (λ x. x.id === d.id) (used now)) ds) ≡ []
  none_after now later d [] h k = refl
  none_after now later d (x ∷ xs) h k = elim (Bool-cases (x.id === d.id)) [
    | inl it ↦ rw it (ground (arith, none_after now later d xs h k.1))
    | inr other ↦
        let dead : is_live email purpose later x ≡ false = ground (arith, k.0) in
        rw (other, dead) (none_after now later d xs h k.1)
  ]

  live_only :
      (now : ℕ) (d : Doc EmailVerificationOtp) (ds : List (Doc EmailVerificationOtp))
      → select (is_live email purpose now) ds ≡ []
      → All (λ x. is_live email purpose now x ≡ true → (x.id === d.id) ≡ true) (ds ++ d ∷ [])
  live_only now d [] h = (λ _. ===_refl d.id, tt)
  live_only now d (x ∷ xs) h = elim (Bool-cases (is_live email purpose now x)) [
    | inl live ↦ absurd (ground arith)
    | inr dead ↦ (λ k. absurd (ground arith), live_only now d xs (ground arith))
  ]

  is_live-new :
      (id otp_hash : String) (now later : ℕ)
      → later < now + 3 * 60000
      → is_live email purpose later (record { id = id; body = new_otp email purpose otp_hash now })
        ≡ true
  is_live-new id otp_hash now later h = rw (===_refl email, passes_itself purpose) (ground arith)

module _ ⦃p : Platform⦄ (has_account : String → Bool) (hash : String → String)
    (verify : String → String → Bool) where
  -- The document of a code that is issued.
  abbrev issued :
      String
      → OtpPurpose
      → String
      → ℕ
      → p.Collection EmailVerificationOtp
      → Doc EmailVerificationOtp
  issued email purpose otp now c = record {
    id =
        (p.insert (new_otp (normalize_email email) purpose (hash otp) now)
          (p.update_many (is_live (normalize_email email) purpose now) (used now) c)).0.id;
    body = new_otp (normalize_email email) purpose (hash otp) now;
  }

  docs-issue_otp :
      (email : String) (purpose : OtpPurpose) (otp : String) (now : ℕ)
      (c : p.Collection EmailVerificationOtp)
      → has_account (normalize_email email) ≡ true
      → p.docs (issue_otp has_account hash verify email purpose otp now c).1
        ≡ map (edit (is_live (normalize_email email) purpose now) (used now)) (p.docs c)
          ++ issued email purpose otp now c ∷ []
  unfolding issue_otp
  docs-issue_otp email purpose otp now c known =
      let retired = p.update_many (is_live (normalize_email email) purpose now) (used now) c in
      let new = new_otp (normalize_email email) purpose (hash otp) now in
      rw (issue_otp, known)
        (p.docs-insert new retired
          ∙ ap {A = EmailVerificationOtp}
              (λ b. p.docs retired ++ record { id = (p.insert new retired).0.id; body = b } ∷ [])
              (p.body-insert new retired)
          ∙ ap (λ ds. ds ++ issued email purpose otp now c ∷ [])
              (p.docs-update_many (is_live (normalize_email email) purpose now) (used now) c))

  -- The one live code is the one that an attempt is held against.
  consumes :
      (email otp : String) (purpose : OtpPurpose) (now : ℕ) (d : Doc EmailVerificationOtp)
      (c : p.Collection EmailVerificationOtp)
      → select (is_live (normalize_email email) purpose now) (p.docs c) ≡ d ∷ []
      → d.body.failed_attempts ≡ 0
      → verify otp d.body.otp_hash ≡ true
      → consume_otp has_account hash verify email otp purpose now c
        ≡ (ok (normalize_email email), p.update_many (λ e. e.id === d.id) (used now) c)
  unfolding consume_otp sort
  consumes email otp purpose now d c only fresh right = rw (consume_otp, only, fresh, right) refl

  refuses :
      (email otp : String) (purpose : OtpPurpose) (now : ℕ) (c : p.Collection EmailVerificationOtp)
      → select (is_live (normalize_email email) purpose now) (p.docs c) ≡ []
      → consume_otp has_account hash verify email otp purpose now c
        ≡ (err (bad_request "OTP is invalid or expired"), c)
  unfolding consume_otp sort
  refuses email otp purpose now c none_left = rw (consume_otp, none_left) refl

  -- For an address with an account and a hash that its own text passes: a code that was just
  -- issued is accepted within its three minutes, whatever codes there were before, and from then
  -- on every code for the address and purpose is refused and nothing changes.
  pub consume_otp-issue_otp :
      (email otp : String) (purpose : OtpPurpose) (now first later : ℕ)
      (c : p.Collection EmailVerificationOtp)
      → has_account (normalize_email email) ≡ true
      → verify otp (hash otp) ≡ true
      → now ≤ first
      → first < now + 3 * 60000
      → first ≤ later
      → ((consume_otp has_account hash verify email otp purpose first
            (issue_otp has_account hash verify email purpose otp now c).1).0
          ≡ ok (normalize_email email))
        × ((other : String)
            → consume_otp has_account hash verify email other purpose later
                (consume_otp has_account hash verify email otp purpose first
                  (issue_otp has_account hash verify email purpose otp now c).1).1
              ≡ (
                err (bad_request "OTP is invalid or expired"),
                (consume_otp has_account hash verify email otp purpose first
                    (issue_otp has_account hash verify email purpose otp now c).1).1,
              ))
  consume_otp-issue_otp email otp purpose now first later c known right soon live after =
      let e = normalize_email email in
      let c1 = (issue_otp has_account hash verify email purpose otp now c).1 in
      let d = issued email purpose otp now c in
      let old = map (edit (is_live e purpose now) (used now)) (p.docs c) in
      let docs = docs-issue_otp email purpose otp now c known in
      let gone : select (is_live e purpose first) old ≡ [] =
        none_live e purpose now first (p.docs c) soon in
      let only : select (is_live e purpose first) (p.docs c1) ≡ d ∷ [] =
        rw
          (
            docs,
            select-append (is_live e purpose first),
            gone,
            is_live-new e purpose d.id (hash otp) now first live,
          )
          refl in
      let success = consumes email otp purpose first d c1 only refl right in
      let none_left : select (is_live e purpose later)
            (p.docs (p.update_many (λ x. x.id === d.id) (used first) c1))
          ≡ [] =
        rw (p.docs-update_many (λ x. x.id === d.id) (used first) c1, docs)
          (none_after e purpose first later d (old ++ d ∷ []) after
            (live_only e purpose first d old gone)) in
      (
        ap (λ r. r.0) success,
        λ other.
            refuses email other purpose later _
              (ap (λ r. select (is_live e purpose later) (p.docs r.1)) success ∙ none_left),
      )
