-- ===== src/GlobalState/Store.antt =====
-- The store (routes/global_state.go): `Put`, `Get`, `BatchGet`, `Delete` and `Seek` on the local
-- database, or through the handlers of a remote node.
pub mod Interface
pub mod Client
pub mod Server
pub mod Route
pub mod Local
pub mod Asked
pub mod Remote
pub mod Closed
