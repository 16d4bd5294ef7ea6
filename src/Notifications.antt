-- ===== src/Notifications.antt =====
-- Alerts and push notifications: src/notifications.
pub mod Schemas
pub mod Condition
pub mod Cooldown
pub mod Policy
pub mod Payload
pub mod Tokens
pub mod Sending
pub mod Incidents
pub mod Alerts
pub mod Readings
pub mod Receipts
pub mod Sync
pub mod Preferences
pub mod Rules
pub mod Requests
