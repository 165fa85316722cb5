-- ===== src/GlobalState/Keys.antt =====
-- The keys of the global state: `Content` and `Payments` build them, the other children prove
-- what keeps them apart.
pub mod Content
pub mod Payments
pub mod Stored
pub mod Layout
