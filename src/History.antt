-- ===== src/History.antt =====
-- agent/runtime/history: atomic units of the transcript and the policies that reduce it.
pub mod Units
pub mod Selection
pub mod Pruning
