-- ===== src/Libc.antt =====
-- The C library: libc/.
pub mod Number
pub mod Text
