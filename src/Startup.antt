-- ===== src/Startup.antt =====
-- What the operator does before its controllers run: cmd/operator, pkg/crd and pkg/admission/webhook.go.
pub mod Platform
pub mod Registry
pub mod Ready
pub mod Convert
pub mod Converting
pub mod Again
pub mod Quiet
pub mod Main
