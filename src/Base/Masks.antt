-- ===== src/Base/Masks.antt =====
-- Masks and joined fields as arithmetic: `a & (2 ^ k - 1)`, `a & (m << k)` and `(q << k) | r`.
use native.Mathlib.Nat.{pow-suc, one-le-pow, div-div-eq-div-mul, div-add-mod'}
use Prim.Native.Nat.{ℕ, zero, suc, ◌+◌, ◌-◌, ◌*◌, ◌/◌, ◌%◌, ◌^◌, ◌≤◌, ◌<◌}
use Prim.Native.Nat.{bit_and, bit_or, bit_or-bitwise}
use mathlib.Core.Path.{◌≡◌, refl, ap, ◌∙◌}
use native.Mathlib.Omega.{arith}
use emfe_plugins.Base.Bits.{bit_and_step, bit_or_step, bit_and-zero}

-- A multiple of a power, halved.
halve : (m k : ℕ) → m * 2 ^ suc k / 2 ≡ m * 2 ^ k
halve m k = omega (arith, ap (λ (t : ℕ). m * t) (pow-suc 2 k))

even : (m k : ℕ) → m * 2 ^ suc k % 2 ≡ 0
even m k = omega (arith, ap (λ (t : ℕ). m * t) (pow-suc 2 k))

div-pow-suc : (a k : ℕ) → a / 2 / 2 ^ k ≡ a / 2 ^ suc k
div-pow-suc a k = div-div-eq-div-mul a 2 (2 ^ k) ∙ ap (λ t. a / t) (omega (arith, pow-suc 2 k))

mod-pow-suc : (a k : ℕ) → a % 2 ^ suc k ≡ a / 2 % 2 ^ k * 2 + a % 2
mod-pow-suc a k = omega (
  arith,
  div-add-mod' a (2 ^ suc k),
  div-add-mod' (a / 2) (2 ^ k),
  div-pow-suc a k,
  ap (λ (t : ℕ). a / 2 ^ suc k * t) (pow-suc 2 k),
  ap (λ (t : ℕ). t * 2 ^ k) (div-pow-suc a k),
)

pub bit_and_mask : (k a : ℕ) → bit_and a (2 ^ k - 1) ≡ a % 2 ^ k
bit_and_mask zero a = omega (arith, bit_and-zero a)
bit_and_mask (suc k) a =
    let half : (2 ^ suc k - 1) / 2 ≡ 2 ^ k - 1 = omega (arith, pow-suc 2 k, one-le-pow k 2) in
    rw (bit_and_step a (2 ^ suc k - 1), half, bit_and_mask k (a / 2))
      (omega (arith, mod-pow-suc a k, pow-suc 2 k, one-le-pow k 2))

pub bit_and_shifted : (k a m : ℕ) → bit_and a (m * 2 ^ k) ≡ bit_and (a / 2 ^ k) m * 2 ^ k
bit_and_shifted zero a m = ground arith
bit_and_shifted (suc k) a m =
    rw
      (
        bit_and_step a (m * 2 ^ suc k),
        halve m k,
        even m k,
        bit_and_shifted k (a / 2) m,
        div-pow-suc a k,
      )
      (omega (arith, ap (λ (t : ℕ). bit_and (a / 2 ^ suc k) m * t) (pow-suc 2 k)))

bit_or-zero : (n a : ℕ) → a ≤ n → bit_or a 0 ≡ a
bit_or-zero n zero h = refl
bit_or-zero zero (suc a) h = absurd (omega arith)
bit_or-zero (suc n) (suc a) h =
    omega (arith, bit_or_step (suc a) 0, bit_or-zero n (suc a / 2) (omega arith))

pub bit_or_fields : (k q r : ℕ) → r < 2 ^ k → bit_or (q * 2 ^ k) r ≡ q * 2 ^ k + r
bit_or_fields zero q r h =
    let e : r ≡ 0 = omega arith in rw e (omega (arith, bit_or-zero (q * 1) (q * 1)))
bit_or_fields (suc k) q r h =
    rw (bit_or_step (q * 2 ^ suc k) r, halve q k, even q k)
      (omega (
        arith,
        pow-suc 2 k,
        ap (λ (t : ℕ). q * t) (pow-suc 2 k),
        bit_or_fields k q (r / 2) (omega (arith, pow-suc 2 k)),
      ))

pub bit_or_fields_right : (k q r : ℕ) → r < 2 ^ k → bit_or r (q * 2 ^ k) ≡ q * 2 ^ k + r
bit_or_fields_right zero q r h =
    let e : r ≡ 0 = omega arith in rw e (omega (arith, bit_or-bitwise 0 (q * 1)))
bit_or_fields_right (suc k) q r h =
    rw (bit_or_step r (q * 2 ^ suc k), halve q k, even q k)
      (omega (
        arith,
        pow-suc 2 k,
        ap (λ (t : ℕ). q * t) (pow-suc 2 k),
        bit_or_fields_right k q (r / 2) (omega (arith, pow-suc 2 k)),
      ))

pub bit_or_shifted : (k a m : ℕ) → bit_or a (m * 2 ^ k) ≡ bit_or (a / 2 ^ k) m * 2 ^ k + a % 2 ^ k
bit_or_shifted zero a m = ground arith
bit_or_shifted (suc k) a m =
    rw
      (
        bit_or_step a (m * 2 ^ suc k),
        halve m k,
        even m k,
        bit_or_shifted k (a / 2) m,
        div-pow-suc a k,
      )
      (omega (arith, mod-pow-suc a k, ap (λ (t : ℕ). bit_or (a / 2 ^ suc k) m * t) (pow-suc 2 k)))

-- A mask with a field on each side of bit `k`.
pub bit_and_split :
    (k a m r : ℕ)
    → r < 2 ^ k
    → bit_and a (m * 2 ^ k + r) ≡ bit_and (a / 2 ^ k) m * 2 ^ k + bit_and (a % 2 ^ k) r
bit_and_split zero a m r h =
    let e : r ≡ 0 = omega arith in rw e (ground (arith, bit_and-zero (a % 1)))
bit_and_split (suc k) a m r h =
    let half : (m * 2 ^ suc k + r) / 2 ≡ m * 2 ^ k + r / 2 =
      omega (arith, ap (λ (t : ℕ). m * t) (pow-suc 2 k)) in
    let rest : (m * 2 ^ suc k + r) % 2 ≡ r % 2 =
      omega (arith, ap (λ (t : ℕ). m * t) (pow-suc 2 k)) in
    let low_half : a % 2 ^ suc k / 2 ≡ a / 2 % 2 ^ k = omega (arith, mod-pow-suc a k) in
    let low_rest : a % 2 ^ suc k % 2 ≡ a % 2 = omega (arith, mod-pow-suc a k) in
    rw
      (
        bit_and_step a (m * 2 ^ suc k + r),
        bit_and_step (a % 2 ^ suc k) r,
        half,
        rest,
        low_half,
        low_rest,
        bit_and_split k (a / 2) m (r / 2) (omega (arith, pow-suc 2 k)),
        div-pow-suc a k,
      )
      (omega (arith, ap (λ (t : ℕ). bit_and (a / 2 ^ suc k) m * t) (pow-suc 2 k)))
