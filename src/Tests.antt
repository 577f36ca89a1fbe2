-- ===== src/Tests.antt =====
-- The theorems at concrete inputs, where their hypotheses hold.
pub mod Data
pub mod Payloads
pub mod Tree
pub mod Sharing
pub mod Clients
pub mod Servers
pub mod Workers
pub mod Searches
pub mod Closings
pub mod Receiving
pub mod Networks
pub mod Deliveries
pub mod Joinings
pub mod Systems
pub mod Frees
pub mod Acceptances
pub mod Cells
pub mod Broadcasts
pub mod Starting
