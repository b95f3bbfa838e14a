-- ===== src/Base/Bits.antt =====
-- The bit operations at variables, one binary digit at a time: `bit k a` is bit `k` of `a`.
use Prim.Native.Nat.{digits, bitwise, differ, bit_and-bitwise, bit_or-bitwise, bit_xor-bitwise}
use native.Mathlib.Nat.{pow-suc}
use Prim.Native.Nat.{ℕ, zero, suc, ◌+◌, ◌*◌, ◌/◌, ◌%◌, ◌^◌, ◌≤◌, ◌<◌, min, max}
use Prim.Native.Nat.{bit_and, bit_or, bit_xor}
use mathlib.Core.Path.{◌≡◌, ◌∙◌, refl, ap}
use mathlib.Core.Logic.{◌⊎◌, inl, inr}
use native.Mathlib.Omega.{arith}

-- bit `k` of `a`, by halving
unfoldable pub bit : ℕ → ℕ → ℕ
bit zero a = a % 2
bit (suc k) a = bit k (a / 2)

-- One unit of fuel more than the number itself changes no digits, and so no surplus does.
module _ (on_zero : ℕ → ℕ) (op : ℕ → ℕ → ℕ) where
  digits-suc : (n a b : ℕ) → a ≤ n → digits on_zero op (suc n) a b ≡ digits on_zero op n a b
  digits-suc zero zero b bound = refl
  digits-suc zero (suc a) b bound = absurd (omega arith)
  digits-suc (suc n) zero b bound = refl
  digits-suc (suc n) (suc a) b bound = rw (digits-suc n (suc a / 2) (b / 2) (omega arith)) refl

  digits_surplus : (n a b : ℕ) → a ≤ n → digits on_zero op n a b ≡ bitwise on_zero op a b
  digits_surplus zero zero b bound = refl
  digits_surplus zero (suc a) b bound = absurd (omega arith)
  digits_surplus (suc n) a b bound = elim (at_most n a bound) [
    | inl e ↦ rw e refl
    | inr less ↦ digits-suc n a b less ∙ digits_surplus n a b less
  ]
    where
      at_most : (n a : ℕ) → a ≤ suc n → (a ≡ suc n) ⊎ (a ≤ n)
      at_most n a h = omega arith

  bitwise_halves :
      (a b : ℕ)
      → bitwise on_zero op (suc a) b
        ≡ bitwise on_zero op (suc a / 2) (b / 2) * 2 + op (suc a % 2) (b % 2)
  bitwise_halves a b = rw (← digits_surplus a (suc a / 2) (b / 2) (omega arith)) refl

pub bit_xor_step : (x y : ℕ) → bit_xor x y ≡ differ (x % 2) (y % 2) + bit_xor (x / 2) (y / 2) * 2
bit_xor_step zero y = simp bit_xor-bitwise (omega arith)
bit_xor_step (suc x) y = simp bit_xor-bitwise (omega (arith, bitwise_halves (λ y. y) differ x y))

pub bit_and_step : (x y : ℕ) → bit_and x y ≡ min (x % 2) (y % 2) + bit_and (x / 2) (y / 2) * 2
bit_and_step zero y = simp bit_and-bitwise (omega arith)
bit_and_step (suc x) y = simp bit_and-bitwise (omega (arith, bitwise_halves (λ y. 0) min x y))

pub bit_or_step : (x y : ℕ) → bit_or x y ≡ max (x % 2) (y % 2) + bit_or (x / 2) (y / 2) * 2
bit_or_step zero y = simp bit_or-bitwise (omega arith)
bit_or_step (suc x) y = simp bit_or-bitwise (omega (arith, bitwise_halves (λ y. y) max x y))

pub bit-lt : (k a : ℕ) → bit k a < 2
unfolding bit
bit-lt zero a = omega arith
bit-lt (suc k) a = bit-lt k (a / 2)

pub bit-bit_and : (k a b : ℕ) → bit k (bit_and a b) ≡ min (bit k a) (bit k b)
unfolding bit
bit-bit_and zero a b = omega (arith, bit_and_step a b)
bit-bit_and (suc k) a b =
    rw (← bit-bit_and k (a / 2) (b / 2)) (ap (bit k) (omega (arith, bit_and_step a b)))

pub bit-bit_or : (k a b : ℕ) → bit k (bit_or a b) ≡ max (bit k a) (bit k b)
unfolding bit
bit-bit_or zero a b = omega (arith, bit_or_step a b)
bit-bit_or (suc k) a b =
    rw (← bit-bit_or k (a / 2) (b / 2)) (ap (bit k) (omega (arith, bit_or_step a b)))

pub differ-lt : (a b : ℕ) → a < 2 → b < 2 → differ a b < 2
differ-lt zero b h k = omega arith
differ-lt (suc zero) zero h k = omega arith
differ-lt (suc zero) (suc zero) h k = omega arith
differ-lt (suc zero) (suc (suc b)) h k = absurd (omega arith)
differ-lt (suc (suc a)) b h k = absurd (omega arith)

pub bit-bit_xor : (k a b : ℕ) → bit k (bit_xor a b) ≡ differ (bit k a) (bit k b)
unfolding bit
bit-bit_xor zero a b =
    omega (arith, bit_xor_step a b, differ-lt (a % 2) (b % 2) (omega arith) (omega arith))
bit-bit_xor (suc k) a b = rw (← bit-bit_xor k (a / 2) (b / 2)) (
    ap (bit k)
      (omega (arith, bit_xor_step a b, differ-lt (a % 2) (b % 2) (omega arith) (omega arith))))

pub bit_and-zero : (a : ℕ) → bit_and a 0 ≡ 0
bit_and-zero a = below a a (omega arith)
  where
    below : (n b : ℕ) → b ≤ n → bit_and b 0 ≡ 0
    below n zero h = refl
    below zero (suc b) h = absurd (omega arith)
    below (suc n) (suc b) h =
        omega (arith, bit_and_step (suc b) 0, below n (suc b / 2) (omega arith))

-- A mask of one bit.
pub bit_and_power : (k a : ℕ) → bit_and a (2 ^ k) ≡ bit k a * 2 ^ k
unfolding bit
bit_and_power zero a = omega (arith, bit_and_step a 1, bit_and-zero (a / 2))
bit_and_power (suc k) a =
    let half : 2 ^ k * 2 / 2 ≡ 2 ^ k = omega arith in
    rw (pow-suc 2 k, bit_and_step a (2 ^ k * 2), half) (omega (arith, bit_and_power k (a / 2)))

pub bit_and-le : (n a b : ℕ) → a ≤ n → bit_and a b ≤ a
bit_and-le n zero b h = omega (arith, bit_and_step 0 b, bit_and-bitwise 0 b)
bit_and-le zero (suc a) b h = absurd (omega arith)
bit_and-le (suc n) (suc a) b h =
    omega (arith, bit_and_step (suc a) b, bit_and-le n (suc a / 2) (b / 2) (omega arith))

pub bit_or-lt : (k a b : ℕ) → a < 2 ^ k → b < 2 ^ k → bit_or a b < 2 ^ k
bit_or-lt zero a b h g =
    let e : a ≡ 0 = omega arith in let e' : b ≡ 0 = omega arith in rw (e, e') (omega arith)
bit_or-lt (suc k) a b h g = omega (
  arith,
  bit_or_step a b,
  pow-suc 2 k,
  bit_or-lt k (a / 2) (b / 2) (omega (arith, pow-suc 2 k)) (omega (arith, pow-suc 2 k)),
)

pub bit_xor-lt : (k a b : ℕ) → a < 2 ^ k → b < 2 ^ k → bit_xor a b < 2 ^ k
bit_xor-lt zero a b h g =
    let e : a ≡ 0 = omega arith in let e' : b ≡ 0 = omega arith in rw (e, e') (omega arith)
bit_xor-lt (suc k) a b h g = omega (
  arith,
  bit_xor_step a b,
  pow-suc 2 k,
  differ-lt (a % 2) (b % 2) (omega arith) (omega arith),
  bit_xor-lt k (a / 2) (b / 2) (omega (arith, pow-suc 2 k)) (omega (arith, pow-suc 2 k)),
)
