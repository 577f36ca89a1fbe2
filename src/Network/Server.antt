-- ===== src/Network/Server.antt =====
-- src/network/server.c: the list of the connections of clients, and the handler of their messages.
mod Registry
pub mod Lookup
pub mod Dispatch
pub mod Sending
pub mod Unlinking
pub mod Closing
pub mod Startup
pub mod Clearing
pub mod Callbacks
pub mod Thread
pub mod Accepting
unfoldable pub use Registry.*
