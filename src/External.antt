-- ===== src/External.antt =====
-- The crates that the source calls, each as a record of operations and one of laws.
pub mod Leb128
pub mod Quic
pub mod Postcard
pub mod Network
pub mod Channel
pub mod Keys
pub mod Executor
pub mod Link
