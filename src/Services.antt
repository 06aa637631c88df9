-- ===== src/Services.antt =====
-- piscis-kernel/src/pool/services.rs: the operations on the pool and its board.
-- A service is a state-passing function on a `World`: the database and the events sent to the
-- sink. It stops at the first error and keeps what it wrote before. The steps of one call run
-- without interruption here; Coordinator.Fence is about the interleaving of calls.
pub mod Base
pub mod Messages
pub mod Todos
pub mod Keeps
pub mod Settled
pub mod Statements
pub mod Absorb
pub mod Roster
pub mod Ends
pub mod Attempts
pub mod Failures
pub mod Atomic
pub mod Traces
pub mod Delete
pub mod Members
pub mod Lifecycle
pub mod Wait
pub mod Assign
pub mod Assigning
pub mod Waiting
pub mod Claiming
pub mod Completing
pub mod Send
