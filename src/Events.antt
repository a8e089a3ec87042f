-- ===== src/Events.antt =====
-- eyeflow-server/src/events: the event state machines and the services that they use.
pub mod Correlation
pub mod Condition
pub mod Approval
pub mod Fsm
mod Samples
