-- ===== src/Unary.antt =====
-- A unary call from the client's frame to the client's result: src/server.rs and src/client.rs
-- together.
pub mod Request
pub mod Response
pub mod EndToEnd
pub mod OverNetwork
