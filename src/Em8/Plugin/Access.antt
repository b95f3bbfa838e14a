-- ===== src/Em8/Plugin/Access.antt =====
-- em8/src/plugin_em8.cpp: the calls on memory. They peek and poke, past the devices.
use emfe_plugins.Base.{
  ℕ, zero, suc, ◌+◌, ◌*◌, ◌/◌, ◌%◌, ◌<◌, ◌≡◌, List, [], ◌∷◌, bit_or, bit_and, u8, u16, u32, arith,
}
use emfe_plugins.Base.Masks.{bit_or_fields_right, bit_and_mask}
use emfe_plugins.Em8.Memory
use emfe_plugins.Em8.Memory.{Memory}

unfoldable pub peek_byte : ℕ → Memory → ℕ
peek_byte address m = Memory.peek (u16 address) m

unfoldable pub peek_word : ℕ → Memory → ℕ
peek_word address m =
    let addr = u16 address in
    u16 (bit_or (Memory.peek addr m) (Memory.peek (u16 (addr + 1)) m * 256))

unfoldable pub peek_long : ℕ → Memory → ℕ
peek_long address m =
    let addr = u16 address in
    u32 (
      bit_or
        (bit_or (bit_or (Memory.peek addr m) (Memory.peek (u16 (addr + 1)) m * 256))
          (Memory.peek (u16 (addr + 2)) m * 65536))
        (Memory.peek (u16 (addr + 3)) m * 16777216))

unfoldable pub poke_byte : ℕ → ℕ → Memory → Memory
poke_byte address value m = Memory.poke (u16 address) value m

unfoldable pub poke_word : ℕ → ℕ → Memory → Memory
poke_word address value m =
    let addr = u16 address in
    Memory.poke (u16 (addr + 1)) (u8 (bit_and (value / 256) 0xff))
      (Memory.poke addr (u8 (bit_and value 0xff)) m)

unfoldable pub poke_long : ℕ → ℕ → Memory → Memory
poke_long address value m =
    let addr = u16 address in
    Memory.poke (u16 (addr + 3)) (u8 (bit_and (value / 16777216) 0xff)) (
      Memory.poke (u16 (addr + 2)) (u8 (bit_and (value / 65536) 0xff)) (
        Memory.poke (u16 (addr + 1)) (u8 (bit_and (value / 256) 0xff))
          (Memory.poke addr (u8 (bit_and value 0xff)) m)))

-- the loop of `emfe_peek_range`, from its round `k` on with `n` rounds left
peek_from : ℕ → ℕ → ℕ → Memory → List ℕ
peek_from zero k addr m = []
peek_from (suc n) k addr m = Memory.peek (u16 (addr + k)) m ∷ peek_from n (suc k) addr m

unfoldable pub peek_range : ℕ → ℕ → Memory → List ℕ
unfolding peek_from
peek_range address length m = peek_from length 0 (u16 address) m

-- A word of 16 bits that is poked is peeked again, also where it wraps at the end of the memory.
pub peek_word-poke_word :
    (address value : ℕ) (m : Memory)
    → value < 65536
    → peek_word address (poke_word address value m) ≡ value
unfolding peek_word poke_word Memory.peek Memory.poke
peek_word-poke_word address value m h = ground (
  arith,
  bit_and_mask 8 value,
  bit_and_mask 8 (value / 256),
  bit_or_fields_right 8 (value / 256) (value % 256),
)

joined :
    (v : ℕ)
    → v < 4294967296
    → bit_or
        (bit_or (bit_or (v % 256) (v / 256 % 256 * 256)) (v / 65536 % 256 * 65536))
        (v / 16777216 % 256 * 16777216)
      ≡ v
joined v h =
    rw
      (
        bit_or_fields_right 8 (v / 256 % 256) (v % 256) (omega arith),
        bit_or_fields_right 16 (v / 65536 % 256) (v / 256 % 256 * 256 + v % 256) (omega arith),
        bit_or_fields_right 24 (v / 16777216 % 256)
            (v / 65536 % 256 * 65536 + (v / 256 % 256 * 256 + v % 256)) (omega arith),
      )
      (omega arith)

-- the four bytes of a long that is poked, wherever it wraps
poke_long-bytes :
    (address value : ℕ) (m : Memory)
    → let m' = poke_long address value m in
      let addr = u16 address in
      (m'.bytes addr ≡ value % 256)
      × (m'.bytes (u16 (addr + 1)) ≡ value / 256 % 256)
      × (m'.bytes (u16 (addr + 2)) ≡ value / 65536 % 256)
      × (m'.bytes (u16 (addr + 3)) ≡ value / 16777216 % 256)
unfolding poke_long Memory.poke
poke_long-bytes address value m = (
  ground (arith, bit_and_mask 8 value),
  ground (arith, bit_and_mask 8 (value / 256)),
  ground (arith, bit_and_mask 8 (value / 65536)),
  ground (arith, bit_and_mask 8 (value / 16777216)),
)

-- A long of 32 bits that is poked is peeked again, also where it wraps at the end of the memory.
pub peek_long-poke_long :
    (address value : ℕ) (m : Memory)
    → value < 4294967296
    → peek_long address (poke_long address value m) ≡ value
unfolding peek_long Memory.peek
peek_long-poke_long address value m h =
    let (b0, b1, b2, b3) = poke_long-bytes address value m in
    rw (b0, b1, b2, b3, joined value h) (omega arith)
