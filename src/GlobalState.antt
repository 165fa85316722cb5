-- ===== src/GlobalState.antt =====
-- The node's global state (routes/global_state.go): the keys of its database, and the store
-- that serves them from a local database or from a remote node.
pub mod Encoding
pub mod Prefix
pub mod Keys
pub mod Store
pub mod Tests
