-- ===== src/Em8/Cpu/Bus.antt =====
-- em8/src/Em8Cpu.cpp: the bus accesses, the stack and the addressing modes.
use emfe_plugins.Base.{ℕ, ◌+◌, ◌/◌, bit_and, u8, u16, word}
use emfe_plugins.Em8.Memory
use emfe_plugins.Em8.Cpu.State.{M, ret, ◌>>=◌, ◌>>◌, gets}

unfoldable pub read_byte : ℕ → M ℕ
read_byte addr s = let (val, m) = Memory.read addr s.memory in (val, record s { memory = m })

unfoldable pub write_byte : ℕ → ℕ → M (Unit {0})
write_byte addr val s = (tt, record s { memory = Memory.write addr val s.memory })

-- `ReadByte(PC++)`
unfoldable pub fetch_byte : M ℕ
fetch_byte s = read_byte s.pc (record s { pc = u16 (s.pc + 1) })

unfoldable pub fetch_word : M ℕ
fetch_word = do lo ← fetch_byte; hi ← fetch_byte; ret (word hi lo)

unfoldable pub push8 : ℕ → M (Unit {0})
push8 val s =
    (tt, record s { memory = Memory.write (0x0100 + s.sp) val s.memory; sp = u8 (s.sp + 255) })

unfoldable pub pull8 : M ℕ
pull8 s = let s' = record s { sp = u8 (s.sp + 1) } in read_byte (0x0100 + s'.sp) s'

unfoldable pub push16 : ℕ → M (Unit {0})
push16 val = do push8 (u8 (val / 256)); push8 (u8 (bit_and val 0xff))

unfoldable pub pull16 : M ℕ
pull16 = do lo ← pull8; hi ← pull8; ret (word hi lo)

unfoldable pub addr_zpg : M ℕ
addr_zpg = fetch_byte

unfoldable pub addr_zpg_x : M ℕ
addr_zpg_x = do base ← fetch_byte; x ← gets (λ s. s.x); ret (u8 (base + x))

unfoldable pub addr_abs : M ℕ
addr_abs = fetch_word

unfoldable pub addr_abs_x : M ℕ
addr_abs_x = do base ← fetch_word; x ← gets (λ s. s.x); ret (u16 (base + x))

unfoldable pub addr_abs_y : M ℕ
addr_abs_y = do base ← fetch_word; y ← gets (λ s. s.y); ret (u16 (base + y))

-- The pointer is in the zero page, and so is its second byte.
unfoldable pub addr_ind : M ℕ
addr_ind = do zp ← fetch_byte; lo ← read_byte zp; hi ← read_byte (u8 (zp + 1)); ret (word hi lo)
