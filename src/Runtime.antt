-- ===== src/Runtime.antt =====
-- eyeflow-server/src/runtime: the virtual machine and the services that run beside it.
pub mod OfflineBuffer
pub mod AuditChain
pub mod Host
pub mod CancellationBus
pub mod PhysicalControl
mod Samples
pub mod SemanticVm
