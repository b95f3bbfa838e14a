-- ===== src/Em8/Uart.antt =====
-- em8/src/Em8Uart.h and Em8Uart.cpp: the console port. A method that changes the object returns
-- it anew. `TxCallback` is a flag, whether one is installed, and the log of the bytes handed to it.
-- The mutex makes each method one step.
pub mod Queue
pub mod Refine
use emfe_plugins.Base.{
  ℕ, ◌+◌, ◌-◌, ◌%◌, Bool, true, false, ◌&&◌, ◌||◌, not, List, [], ◌∷◌, bit_and, bit_or, ltb, leb,
  ◌==◌, if◌then◌else◌, update,
}

abbrev pub fifo_size : ℕ
fifo_size = 8

pub record Uart : Type 0 where
  pub rx_fifo : ℕ → ℕ
  pub rx_head : ℕ
  pub rx_tail : ℕ
  pub rx_count : ℕ
  pub rx_overrun : Bool
  pub cr : ℕ
  pub tx_callback : Bool
  -- newest first
  pub transmitted : List ℕ

-- the object as it is constructed
abbrev pub init : Uart
init = record {
  rx_fifo = λ i. 0;
  rx_head = 0;
  rx_tail = 0;
  rx_count = 0;
  rx_overrun = false;
  cr = 0;
  tx_callback = false;
  transmitted = [];
}

-- UART_DR
unfoldable pub read_data : Uart → ℕ × Uart
read_data u = if u.rx_count == 0 then (0, u) else (
  u.rx_fifo u.rx_tail,
  record u { rx_tail = (u.rx_tail + 1) % fifo_size; rx_count = u.rx_count - 1 },
)

-- UART_SR
unfoldable pub read_status : Uart → ℕ
read_status u =
    let ready : ℕ = if ltb 0 u.rx_count then bit_or 0 0x01 else 0 in
    let empty = bit_or ready 0x02 in if u.rx_overrun then bit_or empty 0x04 else empty

unfoldable pub read : ℕ → Uart → ℕ × Uart
unfolding read_data read_status
read offset u =
    if offset == 0
    then read_data u
    else if offset == 1
    then (read_status u, u)
    else if offset == 2
    then (u.cr, u)
    else (0, u)

unfoldable pub write : ℕ → ℕ → Uart → Uart
write offset val u =
    if offset == 0
    then (if u.tx_callback then record u { transmitted = val ∷ u.transmitted } else u)
    else if offset == 1
    then record u { rx_overrun = false }
    else if offset == 2
    then record u { cr = val }
    else u

unfoldable pub receive_char : ℕ → Uart → Uart
receive_char ch u = if leb fifo_size u.rx_count then record u { rx_overrun = true } else record u {
  rx_fifo = update u.rx_fifo u.rx_head ch;
  rx_head = (u.rx_head + 1) % fifo_size;
  rx_count = u.rx_count + 1;
}

unfoldable pub has_pending_irq : Uart → Bool
has_pending_irq u =
    let rx_irq = not (bit_and u.cr 0x01 == 0) && ltb 0 u.rx_count in
    let tx_irq = not (bit_and u.cr 0x02 == 0) in rx_irq || tx_irq

-- The stored bytes stay; only the indices go back.
unfoldable pub reset : Uart → Uart
reset u = record u { rx_head = 0; rx_tail = 0; rx_count = 0; rx_overrun = false; cr = 0 }
