-- ===== src/Lib.antt =====
-- The emulator plugins of emfe: this library models the EM8 plugin, em8/src, with the part of
-- the plugin interface, api/emfe_plugin.h, that it uses, and the board of the Z80 plugin, z80/src:
-- its CPU with the disassembler, its memory, its UART and its sector device.
--
-- The program. A host loads a plugin as a shared library and drives a board through C calls. The
-- EM8 board is a CPU of 8 bits on a memory of 64 KiB, with a UART at $F000 and a timer at $F010.
-- A call of the host makes the CPU execute on a worker thread (`EmulationLoop`), which ticks the
-- timer by the cycles of each instruction, sets the interrupt line from the two devices, lets the
-- CPU take an interrupt, and stops at breakpoints, watchpoints, a halt, a stop request or the
-- depth that a step out waits for. The Z80 board is a CPU on 64 KiB of RAM with a second space of
-- 256 ports. The memory sends the ports $FE and $FF to the UART and $F0 to $F7 to the sector
-- device, which copies sectors between the RAM and its disk image, and it records the accesses
-- that meet a watchpoint. The CPU has the 4 pages of opcodes, the flags with the two
-- undocumented ones, the block instructions, the interrupts and the delay after EI.
--
-- The files.
--   Base           shared names: tests, arrays as functions, words of 8 to 64 bits, bits and masks,
--                  integers, texts as lists of character codes, maps and sets.
--   Fifo           a window on a ring of bytes, for the UARTs.
--   Em8.Uart       em8/src/Em8Uart.cpp; Queue is its specification, Refine the refinement.
--   Em8.Timer      em8/src/Em8Timer.cpp; Count is about ticks, Registers about the registers.
--   Em8.Memory     em8/src/Em8Memory.cpp; Access is about reads and writes, Valid about widths.
--   Em8.Cpu        em8/src/Em8Cpu.cpp. State has the registers and the monad of the methods, Bus
--                  the accesses and the addressing modes, Alu and Interrupts what their names say.
--                  Opcode decodes; Compute, Move and Control have the cases of the switch in
--                  `ExecuteOne`, which Execute puts together. Disasm is `Disassemble`. Flags,
--                  Arithmetic, Stack, Calls, Handlers, Advance, Agree, Keeps, KeepsBus and
--                  Widths have the proofs.
--   Em8.Plugin     em8/src/plugin_em8.cpp. Instance has `EmfeInstanceData`; Number and Condition
--                  the condition parser; Breakpoints, Watchpoints, Registers, Access, CallStack,
--                  Config, Load, Console and Listing the calls of the interface; Run the loop
--                  and the calls that execute, of which Run.Account describes the loop.
--   Em8.Tests, Em8.Plugin.Tests   the theorems at concrete boards.
--   Z80.Uart       z80/src/Z80Uart.cpp; Queue is its specification, Refine the refinement.
--   Z80.Disk       z80/src/Z80DiskDevice.cpp; Transfer is about commands, Registers about the ports.
--   Z80.Memory     z80/src/Z80Memory.cpp; Words is about words and watchpoints.
--   Z80.Cpu        z80/src/Z80Cpu.h and Z80Cpu.cpp. State has the registers and the monad, Bus
--                  the accesses, Alu and Pairs the arithmetic of bytes and words, Rotate the
--                  shifts, Accumulator the instructions on A, Move, Control and Block what their
--                  names say, Bits the page CB, Index the pages DD and FD, Extended the page ED.
--                  Interrupts accepts the interrupts and Execute has `ExecuteOne`. Halves,
--                  FlagBits, Signs, Arithmetic, Decimal and Rotations have the proofs about
--                  values; Frames, FramesBus, Counters, Outcome, Stays, StaysBus, Travels,
--                  Straight, Returns, Schedule and BlockMove those about instructions.
--   Z80.Disasm     z80/src/Z80Disasm.cpp, with Plain, Extended and Indexed for its decoders and
--                  Decode for `Z80Disasm::Decode`; Reads, Sizes and Agree have the proofs.
--   Z80.Tests      the theorems at concrete boards.
--
-- How the code corresponds. A method has its name in the source with underscores, and a call of the
-- interface its name without `emfe_`. A number is a natural number, and each cut to 8, 16, 32 or
-- 64 bits is written out (`u8` to `u64`). An object that a method changes is passed and returned; a
-- fixed array is a function from indices. A method of a CPU is a function from the CPU to its
-- result and the CPU, which holds the memory and that one the devices. A chain of tests on an
-- opcode is a function to the names of its cases, followed by one function of the case. A mutex
-- makes a method one step. Callbacks are logs of what they were called with.
--
-- Bounds. `EmulationLoop` takes fuel for its rounds, and has no result without it; a stop request in
-- some round makes one more unit than the rounds before it enough, so every bound on the requests
-- gives a fuel. The parser of conditions takes the number of open parentheses, of which a text has
-- no more than characters; its loops take the length of the text, of which a round consumes a
-- character. All else is structural recursion. A block instruction of the Z80 is one round for each
-- `ExecuteOne`, as in the code.
--
-- Not modelled: the other plugins, and the calls of the Z80 plugin; the
-- exception handlers of the loop, since no modelled code throws; calls of the host that change a
-- board while its worker runs, but for the stop request; tables of names for a user interface; the
-- file system, of which the loaders and the sector device take the contents; the texts of
-- `lastError`; and reads past the end of a line of an S-record file, which find zeros.
pub mod Base
pub mod Fifo
pub mod Em8
pub mod Z80
