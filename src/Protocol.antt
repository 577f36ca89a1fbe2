-- ===== src/Protocol.antt =====
-- src/network/protocol.c: the messages, each written to a buffer and read back.
pub mod Frame
pub mod Header
pub mod Connection
pub mod Registration
pub mod Tree
pub mod Resources
pub mod Reallocation
pub mod Payload
pub mod Offer
pub mod Dynamic
pub mod Report
pub mod Free
pub mod ProcessManager
