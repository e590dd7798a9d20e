-- ===== src/Cloud.antt =====
-- The storage of backups: pkg/backuprestore/gcs and the program of cmd/backup that the jobs run.
pub mod Gcs
pub mod Backup
pub mod RoundTrip
