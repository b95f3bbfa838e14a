-- ===== src/Z80/Cpu/Signs.antt =====
-- The overflow tests of the Z80's addition and subtraction, by the signs of the bytes.
use Prim.Native.Nat.{differ}
use emfe_plugins.Base.{
  ℕ, zero, suc, ◌/◌, ◌<◌, ◌≡◌, refl, ◌&&◌, not, bit_and, bit_xor, leb, ◌==◌, if◌then◌else◌, arith,
}
use emfe_plugins.Base.Bits.{bit, bit-bit_and, bit-bit_xor, bit_and_power}
use emfe_plugins.Z80.Cpu.State.{has}

differ_bits : (a b : ℕ) → a < 2 → b < 2 → differ a b ≡ (if a == b then 0 else 1)
differ_bits zero b h k = ground arith
differ_bits (suc zero) zero h k = refl
differ_bits (suc zero) (suc zero) h k = refl
differ_bits (suc zero) (suc (suc b)) h k = absurd (omega arith)
differ_bits (suc (suc a)) b h k = absurd (omega arith)

sign_bit : (x : ℕ) → x < 256 → bit 7 x ≡ x / 128
unfolding bit
sign_bit x h = omega arith

sign_xor :
    (x y : ℕ) → x < 256 → y < 256 → bit 7 (bit_xor x y) ≡ (if x / 128 == y / 128 then 0 else 1)
sign_xor x y h g =
    ground (arith, bit-bit_xor 7 x y, sign_bit x h, sign_bit y g, differ_bits (x / 128) (y / 128))

-- `((a ^ b) & (c ^ d) & 0x80) != 0`
pub signs_differ :
    (a b c d : ℕ)
    → a < 256
    → b < 256
    → c < 256
    → d < 256
    → has (bit_and (bit_xor a b) (bit_xor c d)) 0x80
      ≡ (not (a / 128 == b / 128) && not (c / 128 == d / 128))
signs_differ a b c d ha hb hc hd = ground (
  arith,
  bit_and_power 7 (bit_and (bit_xor a b) (bit_xor c d)),
  bit-bit_and 7 (bit_xor a b) (bit_xor c d),
  sign_xor a b ha hb,
  sign_xor c d hc hd,
)

pub has_sign : (x : ℕ) → x < 256 → has x 0x80 ≡ leb 128 x
unfolding bit
has_sign x h = ground (arith, bit_and_power 7 x, sign_bit x h)
