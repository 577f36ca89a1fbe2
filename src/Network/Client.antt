-- ===== src/Network/Client.antt =====
-- src/network/client.c: the table of the connections to servers.
mod Table
pub mod Entries
pub mod Registering
pub mod Laws
pub mod Start
pub mod Events
pub mod Sending
pub mod Locks
pub mod Callbacks
pub mod Release
pub mod Thread
unfoldable pub use Table.*
