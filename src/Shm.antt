-- ===== src/Shm.antt =====
-- src/shm/shm.c: one manager and its processes over shared memory.
pub mod World
pub mod Modes
pub mod Trace
pub mod Steps
pub mod Invariant
pub mod Reading
pub mod Delivery
pub mod Lifecycle
