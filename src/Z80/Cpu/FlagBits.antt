-- ===== src/Z80/Cpu/FlagBits.antt =====
-- Reading one flag of a byte that `mark` has put together.
use native.Mathlib.Nat.{pow-suc, one-le-pow}
use emfe_plugins.Base.{
  ℕ, zero, suc, ◌/◌, ◌^◌, ◌<◌, ◌≡◌, refl, ap, ◌∙◌, Bool, true, false, ◌||◌, bit_or, ◌==◌,
  if◌then◌else◌, arith,
}
use emfe_plugins.Base.Bits.{bit, bit-lt, bit_and_power, bit-bit_or, bit_or-lt}
use emfe_plugins.Z80.Cpu.State.{has, mark}

bit-power : (j k : ℕ) → bit j (2 ^ k) ≡ (if j == k then 1 else 0)
unfolding bit
bit-power zero zero = refl
bit-power zero (suc k) = ground (arith, pow-suc 2 k)
bit-power (suc j) zero = bit_zero j ∙ ground arith
  where
    bit_zero : (j : ℕ) → bit j 0 ≡ 0
    bit_zero zero = refl
    bit_zero (suc j) = bit_zero j
bit-power (suc j) (suc k) =
    let half : 2 ^ suc k / 2 ≡ 2 ^ k = omega (arith, pow-suc 2 k) in
    rw half (ground (arith, bit-power j k))

pub has-bit : (k v : ℕ) → has v (2 ^ k) ≡ (bit k v == 1)
has-bit k v = ground (arith, bit_and_power k v, bit-lt k v, one-le-pow k 2)

-- `if (on) f |= 1 << k;` sets bit `k` and no other.
pub has-mark :
    (j k : ℕ) (on : Bool) (f : ℕ)
    → has (mark on (2 ^ k) f) (2 ^ j) ≡ (if j == k then on || has f (2 ^ j) else has f (2 ^ j))
has-mark j k true f = ground (
  arith,
  has-bit j (bit_or f (2 ^ k)),
  has-bit j f,
  bit-bit_or j f (2 ^ k),
  bit-power j k,
  bit-lt j f,
)
has-mark j k false f = ground arith

pub mark-lt : (k : ℕ) (on : Bool) (f : ℕ) → 2 ^ k < 256 → f < 256 → mark on (2 ^ k) f < 256
mark-lt k true f h g = bit_or-lt 8 f (2 ^ k) g h
mark-lt k false f h g = g

-- The byte that the tests `s` to `c` make of `start`, in the order of the arithmetic.
abbrev pub marks : ℕ → Bool → Bool → Bool → Bool → Bool → Bool → Bool → ℕ
marks start s z y h x p c =
    mark c 0x01
      (mark p 0x04 (mark x 0x08 (mark h 0x10 (mark y 0x20 (mark z 0x40 (mark s 0x80 start))))))

module _ (start : ℕ) (s z y h x p c : Bool) where
  marks-sign : has (marks start s z y h x p c) 0x80 ≡ s || has start 0x80
  marks-sign =
      has-mark 7 0 c _
      ∙ has-mark 7 2 p _
      ∙ has-mark 7 3 x _
      ∙ has-mark 7 4 h _
      ∙ has-mark 7 5 y _
      ∙ has-mark 7 6 z _
      ∙ has-mark 7 7 s start

  marks-zero : has (marks start s z y h x p c) 0x40 ≡ z || has start 0x40
  marks-zero =
      has-mark 6 0 c _
      ∙ has-mark 6 2 p _
      ∙ has-mark 6 3 x _
      ∙ has-mark 6 4 h _
      ∙ has-mark 6 5 y _
      ∙ has-mark 6 6 z _
      ∙ ap (λ t. z || t) (has-mark 6 7 s start)

  marks-half : has (marks start s z y h x p c) 0x10 ≡ h || has start 0x10
  marks-half =
      has-mark 4 0 c _
      ∙ has-mark 4 2 p _
      ∙ has-mark 4 3 x _
      ∙ has-mark 4 4 h _
      ∙ ap (λ t. h || t) (has-mark 4 5 y _ ∙ has-mark 4 6 z _ ∙ has-mark 4 7 s start)

  marks-overflow : has (marks start s z y h x p c) 0x04 ≡ p || has start 0x04
  marks-overflow =
      has-mark 2 0 c _
      ∙ has-mark 2 2 p _
      ∙ ap (λ t. p || t)
          (has-mark 2 3 x _
            ∙ has-mark 2 4 h _
            ∙ has-mark 2 5 y _
            ∙ has-mark 2 6 z _
            ∙ has-mark 2 7 s start)

  marks-subtract : has (marks start s z y h x p c) 0x02 ≡ has start 0x02
  marks-subtract =
      has-mark 1 0 c _
      ∙ has-mark 1 2 p _
      ∙ has-mark 1 3 x _
      ∙ has-mark 1 4 h _
      ∙ has-mark 1 5 y _
      ∙ has-mark 1 6 z _
      ∙ has-mark 1 7 s start

  marks-carry : has (marks start s z y h x p c) 0x01 ≡ c || has start 0x01
  marks-carry =
      has-mark 0 0 c _
      ∙ ap (λ t. c || t)
          (has-mark 0 2 p _
            ∙ has-mark 0 3 x _
            ∙ has-mark 0 4 h _
            ∙ has-mark 0 5 y _
            ∙ has-mark 0 6 z _
            ∙ has-mark 0 7 s start)

  marks-lt : start < 256 → marks start s z y h x p c < 256
  marks-lt small = mark-lt 0 c _ (omega arith) (
      mark-lt 2 p _ (omega arith) (
        mark-lt 3 x _ (omega arith) (
          mark-lt 4 h _ (omega arith) (
            mark-lt 5 y _ (omega arith)
              (mark-lt 6 z _ (omega arith) (mark-lt 7 s start (omega arith) small))))))

-- what the byte `fl` shows of the tests that it is made of
pub record Marked (start fl : ℕ) (s z h p c : Bool) : Type 0 where
  pub sign : has fl 0x80 ≡ s || has start 0x80
  pub zero_flag : has fl 0x40 ≡ z || has start 0x40
  pub half : has fl 0x10 ≡ h || has start 0x10
  pub overflow : has fl 0x04 ≡ p || has start 0x04
  pub subtract : has fl 0x02 ≡ has start 0x02
  pub carry : has fl 0x01 ≡ c || has start 0x01
  pub in_byte : fl < 256

pub marks-Marked :
    (start : ℕ) (s z y h x p c : Bool)
    → start < 256
    → Marked start (marks start s z y h x p c) s z h p c
marks-Marked start s z y h x p c small = record {
  sign = marks-sign start s z y h x p c;
  zero_flag = marks-zero start s z y h x p c;
  half = marks-half start s z y h x p c;
  overflow = marks-overflow start s z y h x p c;
  subtract = marks-subtract start s z y h x p c;
  carry = marks-carry start s z y h x p c;
  in_byte = marks-lt start s z y h x p c small;
}
