-- ===== src/Collector.antt =====
-- pkg/garbagecollector and its queue: the removal of expired volume claims and backups.
pub mod Claims
pub mod Reuse
pub mod Backups
pub mod Expiry
pub mod Queue
pub mod Events
