-- ===== src/Tests.antt =====
-- Concrete runs of the models: tests by computation, and the theorems applied to concrete inputs.
pub mod Line
pub mod Sending
pub mod Supervision
pub mod Receiver
pub mod Updates
pub mod Memory
pub mod Settings
pub mod Joining
