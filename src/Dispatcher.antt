-- ===== src/Dispatcher.antt =====
-- The dispatcher: src/dispatcher/.
pub mod Elf
pub mod Load
pub mod New
pub mod OpenIndices
pub mod Addresses
pub mod Process
pub mod Schedule
pub mod Start
