-- ===== src/Em8/Plugin.antt =====
-- em8/src/plugin_em8.cpp: the C interface to an EM8 board.
pub mod Instance
pub mod Number
pub mod Condition
pub mod Breakpoints
pub mod Watchpoints
pub mod Run
pub mod Registers
pub mod Access
pub mod CallStack
pub mod Config
pub mod Load
pub mod Console
pub mod Listing
mod Tests
