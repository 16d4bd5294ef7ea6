-- ===== src/Auth.antt =====
-- Signing in, from src/auth.
pub mod Handoff
