-- ===== src/Network.antt =====
-- src/network: the queues, the client and the server.
pub mod Call
pub mod Queue
pub mod Message
pub mod Receive
pub mod Client
pub mod Server
pub mod Pool
pub mod Wire
pub mod Delivery
pub mod Joining
pub mod System
pub mod Reply
