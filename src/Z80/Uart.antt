-- ===== src/Z80/Uart.antt =====
-- z80/src/Z80Uart.h and Z80Uart.cpp: the console at the ports 0xFE and 0xFF. `TxCallback` is a flag,
-- whether one is installed, and the log of the bytes handed to it; the mutex makes each method one
-- step.
pub mod Queue
pub mod Refine
use emfe_plugins.Base.{
  ℕ, ◌+◌, ◌-◌, ◌%◌, Bool, true, false, List, [], ◌∷◌, bit_or, ltb, leb, ◌==◌, if◌then◌else◌, update,
}

abbrev pub fifo_size : ℕ
fifo_size = 8

pub record Uart : Type 0 where
  pub rx_fifo : ℕ → ℕ
  pub rx_head : ℕ
  pub rx_tail : ℕ
  pub rx_count : ℕ
  pub rx_overrun : Bool
  pub tx_callback : Bool
  -- newest first
  pub transmitted : List ℕ

-- the object as it is constructed
abbrev pub init : Uart
init = record {
  rx_fifo = λ i. 0;
  rx_head = 0;
  rx_tail = 0;
  rx_count = 0;
  rx_overrun = false;
  tx_callback = false;
  transmitted = [];
}

-- the data port
unfoldable pub read_data : Uart → ℕ × Uart
read_data u = if u.rx_count == 0 then (0, u) else (
  u.rx_fifo u.rx_tail,
  record u { rx_tail = (u.rx_tail + 1) % fifo_size; rx_count = u.rx_count - 1 },
)

-- the status port
unfoldable pub read_status : Uart → ℕ
read_status u =
    let sr : ℕ = 0x01 in
    let avail = if ltb 0 u.rx_count then bit_or sr 0x02 else sr in
    if u.rx_overrun then bit_or avail 0x04 else avail

unfoldable pub read : ℕ → Uart → ℕ × Uart
unfolding read_data read_status
read port u =
    if port == 0xFE then read_data u else if port == 0xFF then (read_status u, u) else (0xFF, u)

unfoldable pub write : ℕ → ℕ → Uart → Uart
write port val u =
    if port == 0xFE
    then (if u.tx_callback then record u { transmitted = val ∷ u.transmitted } else u)
    else u

unfoldable pub receive_char : ℕ → Uart → Uart
receive_char ch u = if leb fifo_size u.rx_count then record u { rx_overrun = true } else record u {
  rx_fifo = update u.rx_fifo u.rx_head ch;
  rx_head = (u.rx_head + 1) % fifo_size;
  rx_count = u.rx_count + 1;
}

-- The stored bytes stay; only the indices go back.
unfoldable pub reset : Uart → Uart
reset u = record u { rx_head = 0; rx_tail = 0; rx_count = 0; rx_overrun = false }
