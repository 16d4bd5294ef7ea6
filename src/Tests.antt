-- ===== src/Tests.antt =====
-- The theorems at concrete inputs, on a platform held in memory.
mod Samples
mod Condition
mod Cooldown
mod Policy
mod Tokens
mod Incidents
mod Runtime
mod Rules
mod Sync
mod Auth
mod Otp
mod Users
mod Flows
mod Mqtt
