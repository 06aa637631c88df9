-- ===== src/Project.antt =====
-- piscis-core/src/project_state.rs: signals in messages, and the state of a project.
pub mod Signals
pub mod Agreement
pub mod Assess
pub mod Decisions
