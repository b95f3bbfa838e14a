-- ===== src/Em8.antt =====
-- The EM8 plugin: em8/src.
pub mod Uart
pub mod Timer
pub mod Memory
pub mod Cpu
pub mod Plugin
mod Tests
