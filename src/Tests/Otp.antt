-- ===== src/Tests/Otp.antt =====
-- A code for an address, with texts standing for their own hashes.
use nexusflow_backend.Prelude.{◌≡◌, ◌===◌, refl, Bool, true, [], String, arith}
use nexusflow_backend.Action.{bad_request, ok, err}
use nexusflow_backend.Platform.Memory.{memory, holding}
use nexusflow_backend.Verification.Otp.{
  email_verification, EmailVerificationOtp, normalize_email, issue_otp, consume_otp,
}
use nexusflow_backend.Verification.Otp.Laws.{consume_otp-issue_otp}

abbrev known : String → Bool
known s = true

abbrev hash : String → String
hash s = s

abbrev verify : String → String → Bool
verify otp h = otp === h

abbrev issued : memory.Collection EmailVerificationOtp
issued = (issue_otp known hash verify "a@b.c" email_verification "123456" 1000 (holding [])).1

abbrev consumed : memory.Collection EmailVerificationOtp
consumed = (consume_otp known hash verify "a@b.c" "123456" email_verification 2000 issued).1

consume_otp-issue_otp_example :
    ((consume_otp known hash verify "a@b.c" "123456" email_verification 2000 issued).0
      ≡ ok (normalize_email "a@b.c"))
    × ((other : String)
        → consume_otp known hash verify "a@b.c" other email_verification 3000 consumed
          ≡ (err (bad_request "OTP is invalid or expired"), consumed))
consume_otp-issue_otp_example =
    consume_otp-issue_otp known hash verify "a@b.c" "123456" email_verification 1000 2000 3000
      (holding []) refl refl (omega arith) (omega arith) (omega arith)
