-- ===== src/Function.antt =====
-- The kernel functions that a process calls: src/function/.
pub mod Read
