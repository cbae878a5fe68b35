-- ===== src/StreamingCall.antt =====
-- A streaming call from the server's handler to the client's stream: src/server.rs, src/client.rs
-- and src/streaming.rs together.
pub mod Requests
pub mod Responses
pub mod Items
pub mod EndToEnd
pub mod Termination
pub mod Total
pub mod OverNetwork
pub mod Yields
pub mod WholeCall
