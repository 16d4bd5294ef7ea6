-- ===== src/Mqtt.antt =====
-- The MQTT side of the backend, from mqtt/mqtt.handlers.ts: topics, and who may use them.
pub mod Topics
pub mod Access
pub mod Broker
pub mod Accounts
pub mod Sessions
