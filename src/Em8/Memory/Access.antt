-- ===== src/Em8/Memory/Access.antt =====
-- Which accesses of the EM8 memory reach the RAM, and which a peripheral.
use emfe_plugins.Base.{
  sym, ◌∙◌, inl, inr, ℕ, ◌≤◌, ◌<◌, ◌≡◌, ◌⊎◌, true, ◌==◌, ◌||◌, if◌then◌else◌, update, arith,
  contains,
}
use emfe_plugins.Em8.Memory
use emfe_plugins.Em8.Memory.{Memory, check_watchpoints}

-- the addresses that a peripheral answers: the UART's 16 and the timer's 16
abbrev pub IsMapped : Memory → ℕ → Type 0
IsMapped m a =
    ((m.uart_attached ≡ true) × (0xf000 ≤ a) × (a < 0xf010))
    ⊎ ((m.timer_attached ≡ true) × (0xf010 ≤ a) × (a < 0xf020))

-- Outside the mapped ranges a read returns the stored byte.
pub read-bytes : (a : ℕ) (m : Memory) → ¬ (IsMapped m a) → (Memory.read a m).0 ≡ m.bytes a
unfolding Memory.read
read-bytes a m h = ground (arith)

write-unmapped :
    (a val : ℕ) (m : Memory)
    → ¬ (IsMapped m a)
    → Memory.write a val m
      ≡ record (check_watchpoints m.write_watchpoints a m) { bytes = update m.bytes a val }
unfolding Memory.write check_watchpoints
write-unmapped a val m h = ground arith

-- A store to an unmapped address is read back there, changes no other unmapped address, and leaves
-- both peripherals alone.
pub read-write :
    (a b val : ℕ) (m : Memory)
    → ¬ (IsMapped m a)
    → ¬ (IsMapped m b)
    → ((Memory.read b (Memory.write a val m)).0 ≡ (if a == b then val else (Memory.read b m).0))
      × ((Memory.write a val m).uart ≡ m.uart)
      × ((Memory.write a val m).timer ≡ m.timer)
unfolding check_watchpoints
read-write a b val m h g =
    rw (write-unmapped a val m h, read-bytes b m g)
      (ground (
        arith,
        read-bytes b
            (record (check_watchpoints m.write_watchpoints a m) { bytes = update m.bytes a val }),
      ))

-- An access of a mapped address goes to the peripheral alone: no byte of the RAM changes, by a
-- write or a read, and a read does not touch the timer.
pub mapped-bytes :
    (a b val : ℕ) (m : Memory)
    → IsMapped m a
    → ((Memory.write a val m).bytes b ≡ m.bytes b)
      × ((Memory.read a m).1.bytes b ≡ m.bytes b)
      × ((Memory.read a m).1.timer ≡ m.timer)
unfolding Memory.read Memory.write
mapped-bytes a b val m h = ground arith

-- A read raises the watchpoint flag when its address is armed for reading and leaves it as it was
-- otherwise; it arms and disarms nothing.
pub read-watchpoint_hit :
    (a : ℕ) (m : Memory)
    → ((Memory.read a m).1.watchpoint_hit ≡ (contains a m.read_watchpoints || m.watchpoint_hit))
      × ((Memory.read a m).1.read_watchpoints ≡ m.read_watchpoints)
      × ((Memory.read a m).1.write_watchpoints ≡ m.write_watchpoints)
unfolding Memory.read
read-watchpoint_hit a m = ground arith

-- A write raises the watchpoint flag when its address is armed for writing and leaves it as it was
-- otherwise; it arms and disarms nothing.
pub write-watchpoint_hit :
    (a val : ℕ) (m : Memory)
    → ((Memory.write a val m).watchpoint_hit ≡ (contains a m.write_watchpoints || m.watchpoint_hit))
      × ((Memory.write a val m).read_watchpoints ≡ m.read_watchpoints)
      × ((Memory.write a val m).write_watchpoints ≡ m.write_watchpoints)
unfolding Memory.write
write-watchpoint_hit a val m = ground arith

-- Below the peripherals an access is one of the RAM, and may set off a watchpoint.
pub read_low :
    (a b : ℕ) (m : Memory)
    → a < 0xf000
    → ((Memory.read a m).0 ≡ m.bytes a) × ((Memory.read a m).1.bytes b ≡ m.bytes b)
unfolding Memory.read
read_low a b m h = ground arith

pub write_low :
    (a b val : ℕ) (m : Memory)
    → a < 0xf000
    → (Memory.write a val m).bytes b ≡ (if a == b then val else m.bytes b)
unfolding check_watchpoints
write_low a b val m h = rw (write-unmapped a val m (λ p. absurd (omega arith))) (ground arith)

-- A read never changes a byte of the RAM.
pub bytes-read : (a b : ℕ) (m : Memory) → (Memory.read a m).1.bytes b ≡ m.bytes b
unfolding Memory.read
bytes-read a b m = ground arith

-- A read detaches no peripheral.
attached-read :
    (a : ℕ) (m : Memory)
    → ((Memory.read a m).1.uart_attached ≡ m.uart_attached)
      × ((Memory.read a m).1.timer_attached ≡ m.timer_attached)
unfolding Memory.read
attached-read a m = ground arith

IsMapped-read : (a b : ℕ) (m : Memory) → IsMapped (Memory.read a m).1 b → IsMapped m b
IsMapped-read a b m (inl (on, low, high)) = inl (sym (attached-read a m).0 ∙ on, low, high)
IsMapped-read a b m (inr (on, low, high)) = inr (sym (attached-read a m).1 ∙ on, low, high)

-- Two reads in a row.
pub read-read :
    (a b : ℕ) (m : Memory) → ¬ (IsMapped m b) → (Memory.read b (Memory.read a m).1).0 ≡ m.bytes b
read-read a b m h =
    read-bytes b (Memory.read a m).1 (λ p. h (IsMapped-read a b m p)) ∙ bytes-read a b m
