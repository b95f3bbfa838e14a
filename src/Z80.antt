-- ===== src/Z80.antt =====
-- The Z80 board of z80/src.
pub mod Uart
pub mod Disk
pub mod Memory
pub mod Cpu
pub mod Disasm
mod Tests
