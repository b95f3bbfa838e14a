-- ===== src/Z80/Cpu.antt =====
-- z80/src/Z80Cpu.h and Z80Cpu.cpp. A method takes the CPU and returns its value beside the changed
-- CPU; the memory that the pointer `Memory` reaches is a part of it, and is never null.
pub mod State
pub mod Bus
pub mod Alu
pub mod Pairs
pub mod Rotate
pub mod Accumulator
pub mod Move
pub mod Control
pub mod Bits
pub mod Index
pub mod Block
pub mod Extended
pub mod Interrupts
pub mod Execute
pub mod Halves
pub mod FlagBits
pub mod Signs
pub mod Arithmetic
pub mod Decimal
pub mod Rotations
pub mod Frames
pub mod FramesBus
pub mod Counters
pub mod Stays
pub mod StaysBus
pub mod Travels
pub mod Straight
pub mod Outcome
pub mod Returns
pub mod Schedule
pub mod BlockMove
