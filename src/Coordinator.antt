-- ===== src/Coordinator.antt =====
-- piscis-kernel/src/pool/coordinator.rs: turns of Kois on the board's todos.
pub mod Turn
pub mod Outcome
pub mod Execute
pub mod Recovery
pub mod Replacement
pub mod Fence
pub mod Settles
pub mod Report
pub mod Answers
pub mod Referable
pub mod Dispatch
pub mod Watchdog
pub mod Merging
pub mod Activate
pub mod Patrol
pub mod Mention
pub mod Delegating
