-- ===== src/Versioning.antt =====
-- pkg/versioning: versions of the Aerospike server, and the upgrades between them.
-- The operations stand in Version and Upgrade; the other children prove what their names say.
pub mod Version
pub mod Upgrade
pub mod RoundTrip
pub mod Supported
pub mod Order
pub mod Strategy
