-- ===== src/Pods.antt =====
-- pkg/reconciler, the pods of a cluster and their volume claims: pod.go, podutils.go, pvc.go, and the
-- upgrade of one pod in upgrades.go.
pub mod Platform
pub mod Status
pub mod Api
pub mod Durations
pub mod Claims
pub mod Sizes
pub mod Spec
pub mod Delete
pub mod Create
pub mod Ensure
pub mod Trace
pub mod Safety
pub mod Shape
pub mod Storage
pub mod Wanted
pub mod SafeClaims
pub mod SafeCreate
pub mod SafeEnsure
pub mod Views
pub mod Removes
pub mod Adds
pub mod Keeps
pub mod Scales
