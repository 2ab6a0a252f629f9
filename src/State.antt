-- ===== src/State.antt =====
-- pkg/state: the services and endpoint slices that the informers report, and their snapshots.
pub mod Snapshot
pub mod Service
pub mod Cache
pub mod Subscriber
