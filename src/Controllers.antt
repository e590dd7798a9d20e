-- ===== src/Controllers.antt =====
-- pkg/controller: the work queue that the controllers share, and the keys that they put on it.
pub mod Worker
pub mod Items
pub mod Shutdown
pub mod Objects
pub mod Owners
