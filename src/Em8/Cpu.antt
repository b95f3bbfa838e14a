-- ===== src/Em8/Cpu.antt =====
-- em8/src/Em8Cpu.h and Em8Cpu.cpp. A method takes the CPU and returns its value beside the changed
-- CPU; the memory that the pointer `Memory` reaches is a part of it, and is never null.
pub mod State
pub mod Bus
pub mod Alu
pub mod Interrupts
pub mod Opcode
pub mod Statements
pub mod Compute
pub mod Move
pub mod Control
pub mod Execute
pub mod Flags
pub mod Arithmetic
pub mod Keeps
pub mod KeepsBus
pub mod Widths
pub mod Stack
pub mod Calls
pub mod Handlers
pub mod Disasm
pub mod Advance
pub mod Agree
