-- ===== src/Tbon.antt =====
-- src/network/tbon.c: the tree-based overlay network.
pub mod Edges
pub mod Children
pub mod Vertex
pub mod Waits
pub mod Freeing
pub mod Broadcast
