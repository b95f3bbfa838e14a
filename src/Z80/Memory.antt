-- ===== src/Z80/Memory.antt =====
-- z80/src/Z80Memory.h and Z80Memory.cpp: 64 KiB of RAM with watchpoints, and the I/O space. The
-- pointers `Uart` and `Disk` are the objects and whether they are attached; `Timer` is never read.
-- An address is a `uint16_t` and a port a `uint8_t`.
pub mod Words
use emfe_plugins.Base.{
  ℕ, ◌+◌, ◌*◌, ◌/◌, Bool, true, false, ◌&&◌, ◌||◌, not, List, [], ◌∷◌, bit_and, bit_or, ltb, leb,
  ◌==◌, if◌then◌else◌, u8, u16, update,
}
use emfe_plugins.Z80.Uart
use emfe_plugins.Z80.Uart.{Uart}
use emfe_plugins.Z80.Disk
use emfe_plugins.Z80.Disk.{Disk, Ram}

-- `WpKind` is a number in the field `kind`.
abbrev pub wp_read : ℕ
wp_read = 0

abbrev pub wp_write : ℕ
wp_write = 1

pub record Watchpoint : Type 0 where
  pub addr : ℕ
  pub size : ℕ
  pub kind : ℕ
  pub enabled : Bool

pub record Memory : Type 0 where
  pub ram : Ram
  pub uart : Uart
  pub uart_attached : Bool
  pub disk : Disk
  pub disk_attached : Bool
  pub watchpoints : List Watchpoint
  pub watchpoint_hit : Bool

abbrev pub init : Memory
init = record {
  ram = λ a. 0;
  uart = Uart.init;
  uart_attached = false;
  disk = Disk.init;
  disk_attached = false;
  watchpoints = [];
  watchpoint_hit = false;
}

-- Clears the flag and returns what it was.
unfoldable pub take_watchpoint_hit : Memory → Bool × Memory
take_watchpoint_hit m = (m.watchpoint_hit, record m { watchpoint_hit = false })

unfoldable pub reset : Memory → Memory
reset m = record m { ram = λ a. 0 }

-- the tests that lead to the next round of the loop of `CheckWatchpoint`
abbrev pub passes_over : ℕ → Bool → Watchpoint → Bool
passes_over addr is_write wp =
    if not wp.enabled
    then true
    else if ltb addr wp.addr || leb (wp.addr + wp.size) addr
    then true
    else if is_write
    then wp.kind == wp_read
    else wp.kind == wp_write

-- the loop: the first watchpoint that is not passed over sets the flag
unfoldable pub check_loop : ℕ → Bool → List Watchpoint → Bool → Bool
check_loop addr is_write [] hit = hit
check_loop addr is_write (wp ∷ wps) hit =
    if passes_over addr is_write wp then check_loop addr is_write wps hit else true

unfoldable pub check_watchpoint : ℕ → Bool → Memory → Memory
unfolding check_loop
check_watchpoint addr is_write m = record m {
  watchpoint_hit = check_loop addr is_write m.watchpoints m.watchpoint_hit;
}

unfoldable pub read_byte : ℕ → Memory → ℕ × Memory
unfolding check_watchpoint
read_byte addr m = let m' = check_watchpoint addr false m in (m'.ram addr, m')

unfoldable pub write_byte : ℕ → ℕ → Memory → Memory
unfolding check_watchpoint
write_byte addr val m = check_watchpoint addr true (record m { ram = update m.ram addr val })

unfoldable pub read_word : ℕ → Memory → ℕ
read_word addr m =
    let lo = m.ram addr in let hi = m.ram (u16 (addr + 1)) in u16 (bit_or lo (hi * 256))

unfoldable pub write_word : ℕ → ℕ → Memory → Memory
write_word addr val m =
    let low = update m.ram addr (u8 (bit_and val 0xFF)) in
    record m { ram = update low (u16 (addr + 1)) (u8 (bit_and (val / 256) 0xFF)) }

unfoldable pub peek : ℕ → Memory → ℕ
peek addr m = Disk.peek addr m.ram

unfoldable pub poke : ℕ → ℕ → Memory → Memory
poke addr val m = record m { ram = Disk.poke addr val m.ram }

unfoldable pub read_io : ℕ → Memory → ℕ × Memory
read_io port m =
    let (value, uart') = Uart.read port m.uart in
    if m.uart_attached && (port == 0xFE || port == 0xFF)
    then (value, record m { uart = uart' })
    else if m.disk_attached && (leb 0xF0 port && leb port 0xF7)
    then (Disk.read_io port m.disk, m)
    else (0xFF, m)

unfoldable pub write_io : ℕ → ℕ → Memory → Memory
write_io port val m =
    let (disk', ram') = Disk.write_io port val m.disk m.ram in
    if m.uart_attached && (port == 0xFE || port == 0xFF)
    then record m { uart = Uart.write port val m.uart }
    else if m.disk_attached && (leb 0xF0 port && leb port 0xF7)
    then record m { disk = disk'; ram = ram' }
    else m
