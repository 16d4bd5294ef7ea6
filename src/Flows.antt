-- ===== src/Flows.antt =====
-- The flows that users draw: nodes and edges, and what is built from them for a device.
pub mod Schemas
pub mod Registry
pub mod Values
pub mod Structure
pub mod Setup
pub mod Logic
pub mod Ui
