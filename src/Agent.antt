-- ===== src/Agent.antt =====
-- What an agent keeps while it works on a task (`piscis-kernel/src/agent`, with the tool that
-- writes the plan in `piscis-kernel/src/tools/plan_todo.rs`).
pub mod Plan
pub mod Completion
pub mod Budget
pub mod Journal
