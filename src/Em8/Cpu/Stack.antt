-- ===== src/Em8/Cpu/Stack.antt =====
-- The EM8's stack: a word that is pushed is pulled.
use emfe_plugins.Base.{ℕ, ◌+◌, ◌/◌, ◌%◌, ◌<◌, ◌≡◌, refl, ap₂, bit_and, arith, u8, word}
use emfe_plugins.Base.Masks.{bit_and_mask, bit_or_fields}
use emfe_plugins.Em8.Memory
use emfe_plugins.Em8.Memory.{Memory}
use emfe_plugins.Em8.Memory.Access.{read_low, write_low}
use emfe_plugins.Em8.Cpu.State.{Cpu, ret, ◌>>=◌, ◌>>◌}
use emfe_plugins.Em8.Cpu.Bus.{read_byte, push8, pull8, push16, pull16}

-- a word in two bytes, joined again
pub word_halves : (v : ℕ) → v < 65536 → word (u8 (v / 256)) (u8 (bit_and v 0xff)) ≡ v
word_halves v h = ground (arith, bit_and_mask 8 v, bit_or_fields 8 (v / 256) (v % 256))

-- the address of the byte `k` places above the stack pointer
abbrev pub slot : ℕ → ℕ → ℕ
slot sp k = 0x0100 + u8 (sp + k)

pub push16-bytes :
    (v : ℕ) (s : Cpu)
    → s.sp < 256
    → let s' = (push16 v s).1 in
      (s'.sp ≡ u8 (s.sp + 254))
      × (s'.pc ≡ s.pc)
      × (s'.memory.bytes (slot s'.sp 2) ≡ u8 (v / 256))
      × (s'.memory.bytes (slot s'.sp 1) ≡ u8 (bit_and v 0xff))
unfolding push16 push8 ◌>>◌
push16-bytes v s h = (
  omega arith,
  refl,
  ground (arith, write_low low (slot sp' 2) lo first, write_low high (slot sp' 2) hi s.memory),
  ground (arith, write_low low (slot sp' 1) lo first),
)
  where
    sp' : ℕ
    sp' = u8 (u8 (s.sp + 255) + 255)

    high : ℕ
    high = 0x0100 + s.sp

    low : ℕ
    low = 0x0100 + u8 (s.sp + 255)

    hi : ℕ
    hi = u8 (v / 256)

    lo : ℕ
    lo = u8 (bit_and v 0xff)

    first : Memory
    first = Memory.write high hi s.memory

pub pull16-value :
    (s : Cpu)
    → s.sp < 256
    → let r = pull16 s in
      (r.0 ≡ word (s.memory.bytes (slot s.sp 2)) (s.memory.bytes (slot s.sp 1)))
      × (r.1.sp ≡ u8 (s.sp + 2))
unfolding pull16 pull8 read_byte ret ◌>>=◌
pull16-value s h = (
  ap₂ word
      (ground (
        arith,
        read_low (slot s.sp 1) (slot s.sp 2) s.memory,
        read_low (0x0100 + u8 (u8 (s.sp + 1) + 1)) 0 (Memory.read (slot s.sp 1) s.memory).1,
      ))
      (ground (arith, read_low (slot s.sp 1) 0 s.memory)),
  omega arith,
)
