-- ===== src/Verification/Otp.antt =====
-- One-time passwords, from verification/verification.service.ts: `issueOtp`, which retires the live
-- ones of the address and purpose, and `consumeOtp`, which allows five wrong attempts.
pub mod Laws
use nexusflow_backend.Prelude.{
  ℕ, ◌+◌, ◌*◌, Bool, true, false, not, ◌&&◌, ◌||◌, String, Option, none, some, is_some, leb, ltb,
  ◌===◌, trim, to_lower_case, if◌then◌else◌,
}
use nexusflow_backend.Action.{
  HttpError, bad_request, unauthorized, Result, ok, err, Action, pure, throw, reads, writes,
  throw_if, or_throw, ◌>>=◌, ◌>>◌,
}
use nexusflow_backend.Platform.{Doc, Platform}
use nexusflow_backend.Platform.Query.{find_all, sort, first_of, update_by_id}

pub data OtpPurpose : Type 0 where
  email_verification password_reset : OtpPurpose

-- Documents from before there were purposes have none.
pub record EmailVerificationOtp : Type 0 where
  pub email : String
  pub purpose : Option OtpPurpose
  pub otp_hash : String
  pub expires_at : ℕ
  pub failed_attempts : ℕ
  pub consumed_at : Option ℕ
  pub created_at : ℕ

-- `normalizeEmail`
abbrev pub normalize_email : String → String
normalize_email email = to_lower_case (trim email)

-- `getPurposeFilter`
unfoldable pub passes_purpose : OtpPurpose → Option OtpPurpose → Bool
passes_purpose email_verification none = true
passes_purpose email_verification (some email_verification) = true
passes_purpose password_reset (some password_reset) = true
passes_purpose wanted purpose = false

-- Not consumed and not expired.
abbrev pub is_live : String → OtpPurpose → ℕ → Doc EmailVerificationOtp → Bool
is_live email purpose now d =
    d.body.email === email
    && passes_purpose purpose d.body.purpose
    && not (is_some d.body.consumed_at)
    && ltb now d.body.expires_at

abbrev pub used : ℕ → EmailVerificationOtp → EmailVerificationOtp
used now o = record o { consumed_at = some now }

abbrev pub failed : EmailVerificationOtp → EmailVerificationOtp
failed o = record o { failed_attempts = o.failed_attempts + 1 }

abbrev pub new_otp : String → OtpPurpose → String → ℕ → EmailVerificationOtp
new_otp email purpose otp_hash now = record {
  email = email;
  purpose = some purpose;
  otp_hash = otp_hash;
  expires_at = now + 3 * 60000;
  failed_attempts = 0;
  consumed_at = none;
  created_at = now;
}

-- `{ createdAt: -1 }`
abbrev pub newer : Doc EmailVerificationOtp → Doc EmailVerificationOtp → Bool
newer a b = ltb b.body.created_at a.body.created_at

-- `has_account` is the lookup of the users service, `hash` and `verify` are those of bcrypt.
module _ ⦃p : Platform⦄ (has_account : String → Bool) (hash : String → String)
    (verify : String → String → Bool) where
  -- `issueOtp`, with the random code given.
  unfoldable pub issue_otp :
      String
      → OtpPurpose
      → String
      → ℕ
      → Action (p.Collection EmailVerificationOtp) (String × String)
  issue_otp email purpose otp now = do
    throw_if (not (has_account (normalize_email email)))
        (bad_request "No account found for this email")
    writes (λ c. p.update_many (is_live (normalize_email email) purpose now) (used now) c)
    writes (λ c. (p.insert (new_otp (normalize_email email) purpose (hash otp) now) c).1)
    pure (normalize_email email, otp)

  abbrev pub attempt :
      String
      → String
      → ℕ
      → Doc EmailVerificationOtp
      → Action (p.Collection EmailVerificationOtp) String
  attempt email otp now d c =
      if verify otp d.body.otp_hash
      then (ok email, update_by_id d.id (used now) c)
      else (err (bad_request "OTP is invalid or expired"), update_by_id d.id failed c)

  -- `consumeOtp`: the normalised address.
  unfoldable pub consume_otp :
      String → String → OtpPurpose → ℕ → Action (p.Collection EmailVerificationOtp) String
  consume_otp email otp purpose now = do
    found ←
        reads
          (λ c. first_of (sort newer (find_all (is_live (normalize_email email) purpose now) c)))
    d ← or_throw (bad_request "OTP is invalid or expired") found
    throw_if (leb 5 d.body.failed_attempts) (unauthorized "OTP attempts exceeded")
    attempt (normalize_email email) otp now d
