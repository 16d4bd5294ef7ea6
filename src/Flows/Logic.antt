-- ===== src/Flows/Logic.antt =====
-- What the server runs when a sensor reports: `buildLogicCommandsFromGraph` of
-- flow-builder.service.ts.
pub mod Channels
pub mod Steps
pub mod Paths
pub mod Build
pub mod Routes
pub mod Search
pub mod Programs
