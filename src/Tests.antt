-- ===== src/Tests.antt =====
-- Concrete runs, and the theorems at concrete inputs.
mod Instances
mod Wire
mod Errors
mod Names
mod Unary
mod Streaming
mod Oversized
mod Datagram
mod Transit
mod Schema
mod Calls
mod Client
mod Accept
mod Connections
mod Network
mod Tasks
mod Versions
mod Opening
mod ClientTasks
