-- ===== src/Project/Agreement.antt =====
-- The writer and the reader of a message's coordination signal, in project_state.rs.
