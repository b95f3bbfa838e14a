-- ===== src/Base/Words.antt =====
-- Casts to the fixed widths.
use Prim.Native.Nat.{ℕ, ◌+◌, ◌-◌, ◌*◌, ◌%◌, bit_or}
use emfe_plugins.Base.Tests.{ltb, if◌then◌else◌}

abbrev pub u8 : ℕ → ℕ
u8 n = n % 256

abbrev pub u16 : ℕ → ℕ
u16 n = n % 65536

abbrev pub u32 : ℕ → ℕ
u32 n = n % 4294967296

abbrev pub u64 : ℕ → ℕ
u64 n = n % 18446744073709551616

-- `~n` of a byte, cut to a byte again
abbrev pub not8 : ℕ → ℕ
not8 n = 255 - n

-- `static_cast<uint16_t>((hi << 8) | lo)`
abbrev pub word : ℕ → ℕ → ℕ
word hi lo = u16 (bit_or (hi * 256) lo)

-- `static_cast<uint16_t>(pc + off)` for the `int8_t off` that the byte `b` stands for
abbrev pub add_offset : ℕ → ℕ → ℕ
add_offset pc b = if ltb b 128 then u16 (pc + b) else u16 (pc + (65536 - 256) + b)

-- `~n` of an `int`, as its 32 bits
abbrev pub not32 : ℕ → ℕ
not32 n = 4294967295 - n
