-- ===== src/Verification.antt =====
-- One-time codes for e-mail addresses, from src/verification.
pub mod Otp
