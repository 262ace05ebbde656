-- ===== src/Tests.antt =====
-- Runs of the definitions at concrete inputs.
mod Allocator
mod Keys
mod Blocks
mod Disk
mod Files
mod Locks
mod Numbers
mod Pages
mod Processes
mod Programs
