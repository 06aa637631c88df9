-- ===== src/Llm.antt =====
-- What is common to the clients of language models (`piscis-kernel/src/llm`).
pub mod Repair
pub mod ErrorClass
