-- ===== src/Reconciler.antt =====
-- pkg/reconciler: what the operator does to bring a cluster to its spec.
pub mod Types
pub mod Status
pub mod Backups
pub mod Signals
pub mod Validation
pub mod Configs
pub mod Rendering
pub mod Cluster
pub mod Starts
pub mod Requests
pub mod Requested
pub mod Upgrades
pub mod Awaited
pub mod Cleared
pub mod Finish
pub mod Network
pub mod Reach
