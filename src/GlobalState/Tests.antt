-- ===== src/GlobalState/Tests.antt =====
-- The theorems about routes/global_state.go at concrete keys, databases and servers.
pub mod Model
pub mod Texts
mod Keys
mod Calls
