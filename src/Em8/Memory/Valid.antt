-- ===== src/Em8/Memory/Valid.antt =====
-- Every byte of the EM8 memory and its peripherals is a byte, and every access keeps it so.
use emfe_plugins.Base.{ℕ, ◌-◌, ◌<◌, ◌≡◌, arith, u8}
use emfe_plugins.Base.Masks.{bit_and_mask}
use emfe_plugins.Em8.Uart
use emfe_plugins.Em8.Uart.{Uart}
use emfe_plugins.Em8.Uart.Refine
use emfe_plugins.Em8.Uart.Queue.{Op}
use emfe_plugins.Em8.Timer
use emfe_plugins.Em8.Timer.{Timer}
use emfe_plugins.Em8.Timer.Registers
use emfe_plugins.Em8.Memory
use emfe_plugins.Em8.Memory.{Memory, check_watchpoints}

pub record IsValid (m : Memory) : Type 0 where
  pub bytes_in : (a : ℕ) → m.bytes a < 256
  pub indices : Refine.IsValid m.uart
  pub fifo_in : (k : ℕ) → m.uart.rx_fifo k < 256
  pub cr_in : m.uart.cr < 256
  pub timer : Registers.IsValid m.timer

uart_read-IsValid : (o : ℕ) {u : Uart} → Refine.IsValid u → Refine.IsValid (Uart.read o u).1
uart_read-IsValid o v = unfold Refine.step in Refine.step-IsValid (Op.read o) v

uart_write-IsValid : (o val : ℕ) {u : Uart} → Refine.IsValid u → Refine.IsValid (Uart.write o val u)
uart_write-IsValid o val v = unfold Refine.step in Refine.step-IsValid (Op.write o val) v

uart_read_bytes :
    (o : ℕ) (u : Uart)
    → ((k : ℕ) → u.rx_fifo k < 256)
    → u.cr < 256
    → ((Uart.read o u).0 < 256) × ((Uart.read o u).1.cr < 256)
unfolding Uart.read
uart_read_bytes o u h g = ground (arith, h u.rx_tail)

uart_read_fifo : (o k : ℕ) (u : Uart) → (Uart.read o u).1.rx_fifo k ≡ u.rx_fifo k
unfolding Uart.read
uart_read_fifo o k u = ground arith

uart_write_bytes :
    (o val k : ℕ) (u : Uart)
    → val < 256
    → u.cr < 256
    → ((Uart.write o val u).cr < 256) × ((Uart.write o val u).rx_fifo k ≡ u.rx_fifo k)
unfolding Uart.write
uart_write_bytes o val k u h g = ground arith

timer_read_byte : (o : ℕ) (t : Timer) → Registers.IsValid t → Timer.read o t < 256
unfolding Timer.read
timer_read_byte o t v = ground (arith, bit_and_mask 8 t.reload, bit_and_mask 8 t.counter)

module _ (a : ℕ) {m : Memory} (valid : IsValid m) where
  abbrev offset : ℕ
  offset = u8 (a - 0xf000)

  -- A read of a valid memory returns a byte.
  pub read-lt : (Memory.read a m).0 < 256
  unfolding Memory.read
  read-lt = ground (
    arith,
    valid.bytes_in a,
    uart_read_bytes offset m.uart valid.fifo_in valid.cr_in,
    timer_read_byte (u8 (offset - 0x10)) m.timer valid.timer,
  )

  read-bytes_in : (b : ℕ) → (Memory.read a m).1.bytes b < 256
  unfolding Memory.read
  read-bytes_in b = ground (arith, valid.bytes_in b)

  pub read-IsValid : IsValid (Memory.read a m).1
  unfolding Memory.read
  read-IsValid = record {
    bytes_in = read-bytes_in;
    indices = ground (arith, uart_read-IsValid offset valid.indices, valid.indices);
    fifo_in = λ k. ground (arith, uart_read_fifo offset k m.uart, valid.fifo_in k);
    cr_in = ground (arith, uart_read_bytes offset m.uart valid.fifo_in valid.cr_in);
    timer = ground (arith, valid.timer);
  }

  pub write-IsValid : (val : ℕ) → val < 256 → IsValid (Memory.write a val m)
  unfolding Memory.write
  write-IsValid val h = record {
    bytes_in = λ b. ground (arith, valid.bytes_in b);
    indices = ground (arith, uart_write-IsValid offset val valid.indices, valid.indices);
    fifo_in = λ k. ground (arith, uart_write_bytes offset val k m.uart, valid.fifo_in k);
    cr_in = ground (arith, uart_write_bytes offset val 0 m.uart);
    timer =
        ground (arith, valid.timer, Registers.write-IsValid (u8 (offset - 0x10)) val h valid.timer);
  }
