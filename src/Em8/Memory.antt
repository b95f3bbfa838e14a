-- ===== src/Em8/Memory.antt =====
-- em8/src/Em8Memory.h and Em8Memory.cpp: 64 KiB with the peripherals at $F000 to $F03F. An address
-- is a `uint16_t`. The pointers `Uart` and `Timer` are the objects and whether they are attached;
-- `WatchpointMutex` makes each check one step.
pub mod Access
pub mod Valid
use emfe_plugins.Base.{
  ℕ, ◌+◌, ◌-◌, Bool, true, false, ◌&&◌, not, List, [], ◌∷◌, leb, ◌==◌, if◌then◌else◌, u8, update,
  contains,
}
use emfe_plugins.Em8.Uart
use emfe_plugins.Em8.Uart.{Uart}
use emfe_plugins.Em8.Timer
use emfe_plugins.Em8.Timer.{Timer}

pub record Memory : Type 0 where
  pub bytes : ℕ → ℕ
  pub uart : Uart
  pub uart_attached : Bool
  pub timer : Timer
  pub timer_attached : Bool
  pub read_watchpoints : List ℕ
  pub write_watchpoints : List ℕ
  pub watchpoint_hit : Bool
  pub watchpoint_hit_address : ℕ

abbrev pub init : Memory
init = record {
  bytes = λ a. 0;
  uart = Uart.init;
  uart_attached = false;
  timer = Timer.init;
  timer_attached = false;
  read_watchpoints = [];
  write_watchpoints = [];
  watchpoint_hit = false;
  watchpoint_hit_address = 0;
}

-- The check at the head of `Read` and `Write`. The test for an empty set skips only the lock.
unfoldable pub check_watchpoints : List ℕ → ℕ → Memory → Memory
check_watchpoints set addr m =
    if contains addr set
    then record m { watchpoint_hit = true; watchpoint_hit_address = addr }
    else m

abbrev pub is_io : ℕ → Bool
is_io addr = leb 0xf000 addr && leb addr 0xf03f

unfoldable pub read : ℕ → Memory → ℕ × Memory
unfolding check_watchpoints
read addr m =
    let m' = check_watchpoints m.read_watchpoints addr m in
    let offset = u8 (addr - 0xf000) in
    let (value, uart') = Uart.read offset m'.uart in
    if is_io addr
    then (if leb offset 0x0f && m'.uart_attached
        then (value, record m' { uart = uart' })
        else if leb 0x10 offset && leb offset 0x1f && m'.timer_attached
        then (Timer.read (u8 (offset - 0x10)) m'.timer, m')
        else (m'.bytes addr, m'))
    else (m'.bytes addr, m')

unfoldable pub write : ℕ → ℕ → Memory → Memory
unfolding check_watchpoints
write addr val m =
    let m' = check_watchpoints m.write_watchpoints addr m in
    let offset = u8 (addr - 0xf000) in
    let stored = record m' { bytes = update m'.bytes addr val } in
    if is_io addr
    then (if leb offset 0x0f && m'.uart_attached
        then record m' { uart = Uart.write offset val m'.uart }
        else if leb 0x10 offset && leb offset 0x1f && m'.timer_attached
        then record m' { timer = Timer.write (u8 (offset - 0x10)) val m'.timer }
        else stored)
    else stored

unfoldable pub peek : ℕ → Memory → ℕ
peek addr m = m.bytes addr

unfoldable pub poke : ℕ → ℕ → Memory → Memory
poke addr val m = record m { bytes = update m.bytes addr val }
