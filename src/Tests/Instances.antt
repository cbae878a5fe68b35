-- ===== src/Tests/Instances.antt =====
-- Instances of the parameters.
pub mod Leb128
pub mod Quic
pub mod Postcard
pub mod Codecs
pub mod Shown
