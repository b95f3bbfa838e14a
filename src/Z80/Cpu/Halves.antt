-- ===== src/Z80/Cpu/Halves.antt =====
-- The halves of the Z80's register pairs: what is written to one is read back, and the other stays.
use emfe_plugins.Base.{
  ℕ, ◌+◌, ◌*◌, ◌/◌, ◌%◌, ◌<◌, ◌≡◌, refl, ap, ◌∙◌, bit_and, bit_or, arith, u8, u16,
}
use emfe_plugins.Base.Masks.{bit_and_mask, bit_and_shifted, bit_or_fields, bit_or_fields_right}
use emfe_plugins.Z80.Cpu.State.{Cpu, Pair, af, get, put, high, low, put_high, put_low}

pub get-put : (p : Pair) (v : ℕ) (s : Cpu) → get p (put p v s) ≡ v
unfolding get put
get-put af v s = refl
get-put _ v s = refl

-- a word with another high or low byte, as arithmetic
with_high : (w v : ℕ) → v < 256 → u16 (bit_or (bit_and w 0x00FF) (v * 256)) ≡ v * 256 + w % 256
with_high w v h = ground (arith, bit_and_mask 8 w, bit_or_fields_right 8 v (w % 256))

mask_high : (w : ℕ) → w < 65536 → bit_and w 0xFF00 ≡ w / 256 * 256
mask_high w h = bit_and_shifted 8 w 255 ∙ ap (λ t. t * 256) (bit_and_mask 8 (w / 256) ∙ omega arith)

with_low : (w v : ℕ) → v < 256 → w < 65536 → u16 (bit_or (bit_and w 0xFF00) v) ≡ w / 256 * 256 + v
with_low w v h g = ground (arith, mask_high w g, bit_or_fields 8 (w / 256) v)

pub put_high-word :
    (p : Pair) (v : ℕ) (s : Cpu) → v < 256 → get p (put_high p v s) ≡ v * 256 + get p s % 256
unfolding put_high
put_high-word p v s h = get-put p _ s ∙ with_high (get p s) v h

pub put_low-word :
    (p : Pair) (v : ℕ) (s : Cpu)
    → v < 256
    → get p s < 65536
    → get p (put_low p v s) ≡ get p s / 256 * 256 + v
unfolding put_low
put_low-word p v s h g = get-put p _ s ∙ with_low (get p s) v h g

pub high_div : (p : Pair) (s : Cpu) → high p s ≡ get p s / 256 % 256
unfolding high
high_div p s = refl

pub low_mod : (p : Pair) (s : Cpu) → low p s ≡ get p s % 256
unfolding low
low_mod p s = omega (arith, bit_and_mask 8 (get p s))

-- Writing A and F, and reading them again.
pub ruleset half_laws = (arith, put_high-word, put_low-word, high_div, low_mod)

pub high-put_high : (p : Pair) (v : ℕ) (s : Cpu) → v < 256 → high p (put_high p v s) ≡ v
high-put_high p v s h = omega (arith, high_div p (put_high p v s), put_high-word p v s h)

pub low-put_high : (p : Pair) (v : ℕ) (s : Cpu) → v < 256 → low p (put_high p v s) ≡ low p s
low-put_high p v s h = omega (arith, low_mod p (put_high p v s), low_mod p s, put_high-word p v s h)

pub low-put_low :
    (p : Pair) (v : ℕ) (s : Cpu) → v < 256 → get p s < 65536 → low p (put_low p v s) ≡ v
low-put_low p v s h g = omega (arith, low_mod p (put_low p v s), put_low-word p v s h g)

pub high-put_low :
    (p : Pair) (v : ℕ) (s : Cpu) → v < 256 → get p s < 65536 → high p (put_low p v s) ≡ high p s
high-put_low p v s h g =
    omega (arith, high_div p (put_low p v s), high_div p s, put_low-word p v s h g)

-- A result in A and its flags in F.
abbrev pub with_a_f : ℕ → ℕ → Cpu → Cpu
with_a_f r fl s = put af (r * 256 + fl) s

pub high-with_a_f : (r fl : ℕ) (s : Cpu) → r < 256 → fl < 256 → high af (with_a_f r fl s) ≡ r
high-with_a_f r fl s h g = omega (arith, high_div af (with_a_f r fl s), get-put af (r * 256 + fl) s)

pub low-with_a_f : (r fl : ℕ) (s : Cpu) → r < 256 → fl < 256 → low af (with_a_f r fl s) ≡ fl
low-with_a_f r fl s h g = omega (arith, low_mod af (with_a_f r fl s), get-put af (r * 256 + fl) s)

-- `SetF` and then `SetA`
pub put_high-put_low :
    (r fl : ℕ) (s : Cpu)
    → r < 256
    → fl < 256
    → s.af < 65536
    → put_high af r (put_low af fl s) ≡ with_a_f r fl s
unfolding put_high put_low get put
put_high-put_low r fl s h g w =
    ap (λ v. record s { af = v })
      (with_high (u16 (bit_or (bit_and s.af 0xFF00) fl)) r h ∙ omega (arith, with_low s.af fl g w))

-- `SetA` and then `SetF`
pub put_low-put_high :
    (r fl : ℕ) (s : Cpu) → r < 256 → fl < 256 → put_low af fl (put_high af r s) ≡ with_a_f r fl s
unfolding put_high put_low get put
put_low-put_high r fl s h g =
    ap (λ v. record s { af = v })
      (with_low (u16 (bit_or (bit_and s.af 0x00FF) (r * 256))) fl g (omega arith)
        ∙ omega (arith, with_high s.af r h))

-- What holds of a result and its flags holds of the A and F of a state that has them.
pub settled :
    (P : ℕ → ℕ → Type 0) (r fl : ℕ) (s s' : Cpu)
    → r < 256
    → fl < 256
    → s' ≡ with_a_f r fl s
    → P r fl
    → P (high af s') (low af s') × (s' ≡ with_a_f (high af s') (low af s') s)
settled P r fl s s' h g e holds =
    let a_is : high af s' ≡ r = ap (high af) e ∙ high-with_a_f r fl s h g in
    let f_is : low af s' ≡ fl = ap (low af) e ∙ low-with_a_f r fl s h g in
    rw (a_is, f_is) (holds, e)

pub high-lt : (p : Pair) (s : Cpu) → high p s < 256
high-lt p s = omega (arith, high_div p s)

pub low-lt : (p : Pair) (s : Cpu) → low p s < 256
low-lt p s = omega (arith, low_mod p s)
