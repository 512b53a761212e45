-- ===== src/Tests.antt =====
-- Runs of the model on concrete Turns, histories, buffers, leases and tasks.
pub mod Turn
pub mod History
pub mod Buffer
pub mod Host
pub mod Window
pub mod Thread
pub mod Patch
pub mod Policy
pub mod Model
pub mod Evidence
