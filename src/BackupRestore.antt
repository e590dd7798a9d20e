-- ===== src/BackupRestore.antt =====
-- pkg/backuprestore: backups and restores are run as jobs.
pub mod Types
pub mod Job
pub mod Handler
pub mod Conditions
pub mod Handling
pub mod Progress
pub mod Counts
pub mod Starts
