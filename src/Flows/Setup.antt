-- ===== src/Flows/Setup.antt =====
-- What a device is told when a flow starts: `buildSetupFromNodes` of flow-builder.service.ts.
pub mod State
pub mod Gpio
pub mod Sensors
pub mod Build
pub mod Pins
pub mod Claims
pub mod NodePins
pub mod Exclusive
pub mod Intervals
pub mod Pacing
pub mod Tasks
