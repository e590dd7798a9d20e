-- ===== src/Admission.antt =====
-- pkg/admission: the validating webhook for the three kinds of resources.
pub mod Cluster
pub mod Backups
pub mod Server
pub mod Serving
