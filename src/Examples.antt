-- ===== src/Examples.antt =====
-- Concrete boards, and the theorems about pool/coordinator.rs, pool/services.rs and store/db.rs
-- applied to them.
mod Board
mod Turns
mod Calls
mod Watching
mod Tasks
mod Texts
mod Assignments
mod Mentions
