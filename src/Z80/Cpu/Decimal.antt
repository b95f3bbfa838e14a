-- ===== src/Z80/Cpu/Decimal.antt =====
-- The decimal adjustment of the Z80 behind additions and subtractions of packed decimal bytes.
use emfe_plugins.Base.{
  ℕ, ◌+◌, ◌-◌, ◌*◌, ◌/◌, ◌%◌, ◌<◌, ◌≡◌, ◌∙◌, refl, ap, Bool, true, false, ◌&&◌, leb, ltb, ◌==◌,
  if◌then◌else◌, all_below, all_below_sound, same, row_sound, arith, bit_and, u8,
}
use emfe_plugins.Z80.Cpu.State.{
  Cpu, af, high, low, put_high, put_low, f_c, f_n, has, a, f, set_a, set_f, ◌>>=◌, ◌>>◌,
}
use emfe_plugins.Z80.Cpu.Alu.{add_result, add_flags, sub_result, sub_flags, of_bool, parity8, alu}
use emfe_plugins.Z80.Cpu.Accumulator.{daa_result, daa_flags, daa_half, corrects_high, op_daa}
use emfe_plugins.Z80.Cpu.FlagBits.{Marked, marks-Marked}
use emfe_plugins.Z80.Cpu.Halves.{with_a_f, high-with_a_f, low-with_a_f, put_low-put_high, high-lt}
use emfe_plugins.Z80.Cpu.Arithmetic.{
  taken, alu-adds, alu-subtracts, sum-lt, add-Sum, difference-lt, sub-Difference,
}

-- the byte of the two decimal digits of a number below 100
abbrev pub bcd : ℕ → ℕ
bcd n = n / 10 * 16 + n % 10

-- Behind the addition of two decimal bytes, the adjustment gives the decimal byte of the sum and its
-- carry; behind a subtraction, that of the difference and its borrow.
sum_adjusts : Bool → ℕ → ℕ → Bool
sum_adjusts c x y =
    let total = x + y + of_bool c in
    let r = add_result (bcd x) (bcd y) c in
    let fl = add_flags (bcd x) (bcd y) c in
    daa_result r fl == bcd (total % 100) && same (has (daa_flags r fl) f_c) (leb 100 total)

difference_adjusts : Bool → ℕ → ℕ → Bool
difference_adjusts c x y =
    let total = x + 200 - y - of_bool c in
    let r = sub_result (bcd x) (bcd y) c in
    let fl = sub_flags (bcd x) (bcd y) c r in
    daa_result r fl == bcd (total % 100) && same (has (daa_flags r fl) f_c) (ltb x (y + of_bool c))

table : (Bool → ℕ → ℕ → Bool) → Bool → Bool
table adjusts c = all_below 100 (λ x. all_below 100 (adjusts c x))

sum_table : (c : Bool) → table sum_adjusts c ≡ true
unfolding table all_below sum_adjusts add_result add_flags daa_result daa_flags daa_half parity8
sum_table true = refl
sum_table false = refl

difference_table : (c : Bool) → table difference_adjusts c ≡ true
unfolding table all_below difference_adjusts sub_result sub_flags daa_result daa_flags daa_half
    parity8
difference_table true = refl
difference_table false = refl

entry :
    (adjusts : Bool → ℕ → ℕ → Bool) (c : Bool) (x y : ℕ)
    → table adjusts c ≡ true
    → x < 100
    → y < 100
    → adjusts c x y ≡ true
unfolding table
entry adjusts c x y passed h g =
    all_below_sound 100 (adjusts c x) y
      (all_below_sound 100 (λ x. all_below 100 (adjusts c x)) x passed h) g

adjust-sum :
    (c : Bool) (x y : ℕ)
    → x < 100
    → y < 100
    → let r = add_result (bcd x) (bcd y) c in
      let fl = add_flags (bcd x) (bcd y) c in
      (daa_result r fl ≡ bcd ((x + y + of_bool c) % 100))
      × (has (daa_flags r fl) f_c ≡ leb 100 (x + y + of_bool c))
unfolding sum_adjusts
adjust-sum c x y h g = row_sound _ _ _ _ (entry sum_adjusts c x y (sum_table c) h g)

adjust-difference :
    (c : Bool) (x y : ℕ)
    → x < 100
    → y < 100
    → let r = sub_result (bcd x) (bcd y) c in
      let fl = sub_flags (bcd x) (bcd y) c r in
      (daa_result r fl ≡ bcd ((x + 200 - y - of_bool c) % 100))
      × (has (daa_flags r fl) f_c ≡ ltb x (y + of_bool c))
unfolding difference_adjusts
adjust-difference c x y h g =
    row_sound _ _ _ _ (entry difference_adjusts c x y (difference_table c) h g)

daa_result-lt : (x fl : ℕ) → daa_result x fl < 256
unfolding daa_result
daa_result-lt x fl = ground arith

daa_flags-Marked :
    (x fl : ℕ)
    → Marked
        (u8 (bit_and fl f_n))
        (daa_flags x fl)
        (has (daa_result x fl) 0x80)
        (daa_result x fl == 0)
        (daa_half x fl)
        (parity8 (daa_result x fl))
        (corrects_high x fl)
unfolding daa_flags
daa_flags-Marked x fl =
    marks-Marked (u8 (bit_and fl f_n)) (has (daa_result x fl) 0x80) (daa_result x fl == 0)
      (has (daa_result x fl) 0x20) (daa_half x fl) (has (daa_result x fl) 0x08)
      (parity8 (daa_result x fl)) (corrects_high x fl) (omega arith)

-- the CPU behind DAA
op_daa-result :
    (s : Cpu)
    → (op_daa s).1
      ≡ with_a_f (daa_result (high af s) (low af s)) (daa_flags (high af s) (low af s)) s
op_daa-result s =
    stores
    ∙ put_low-put_high _ _ s (daa_result-lt (high af s) (low af s))
        (daa_flags-Marked (high af s) (low af s)).in_byte
  where
    stores :
        (op_daa s).1
        ≡ put_low af
            (daa_flags (high af s) (low af s))
            (put_high af (daa_result (high af s) (low af s)) s)
    stores = unfold op_daa a f set_a set_f ◌>>=◌ ◌>>◌ in refl

-- A and the carry flag of the CPU behind DAA, when A and F were `r` and `fl`
behind_daa :
    (r fl : ℕ) (s s' : Cpu)
    → r < 256
    → fl < 256
    → s' ≡ with_a_f r fl s
    → (high af (op_daa s').1 ≡ daa_result r fl)
      × (has (low af (op_daa s').1) f_c ≡ has (daa_flags r fl) f_c)
behind_daa r fl s s' h g e =
    let a_is : high af s' ≡ r = ap (high af) e ∙ high-with_a_f r fl s h g in
    let f_is : low af s' ≡ fl = ap (low af) e ∙ low-with_a_f r fl s h g in
    let small = daa_result-lt r fl in
    let flags_small = (daa_flags-Marked r fl).in_byte in
    rw (op_daa-result s', a_is, f_is)
      (
        high-with_a_f (daa_result r fl) (daa_flags r fl) s' small flags_small,
        ap (λ t. has t f_c) (low-with_a_f (daa_result r fl) (daa_flags r fl) s' small flags_small),
      )

-- DAA behind ADD or ADC of two numbers below 100 in packed decimal digits leaves the digits of
-- their sum modulo 100 in A, and its hundreds in the carry flag.
pub op_daa-alu_sum :
    (with_carry : Bool) (x y : ℕ) (s : Cpu)
    → s.af < 65536
    → high af s ≡ bcd x
    → x < 100
    → y < 100
    → let total = x + y + of_bool (taken with_carry s) in
      let s' = (op_daa (alu (if with_carry then 1 else 0) (bcd y) s).1).1 in
      (high af s' ≡ bcd (total % 100)) × (has (low af s') f_c ≡ leb 100 total)
op_daa-alu_sum with_carry x y s h e hx hy =
    let c = taken with_carry s in
    let step = alu-adds with_carry (bcd y) s h (omega arith) in
    let behind =
      behind_daa _ _ s _ (sum-lt (high af s) (bcd y) c (high-lt af s) (omega arith))
        (add-Sum (high af s) (bcd y) c (high-lt af s) (omega arith)).flags_in step in
    let expected = adjust-sum c x y hx hy in
    (behind.0 ∙ rw e expected.0, behind.1 ∙ rw e expected.1)

-- DAA behind SUB or SBC of two numbers below 100 in packed decimal digits leaves the digits of
-- their difference modulo 100 in A, and its borrow in the carry flag.
pub op_daa-alu_difference :
    (with_carry : Bool) (x y : ℕ) (s : Cpu)
    → s.af < 65536
    → high af s ≡ bcd x
    → x < 100
    → y < 100
    → let by = of_bool (taken with_carry s) in
      let s' = (op_daa (alu (if with_carry then 3 else 2) (bcd y) s).1).1 in
      (high af s' ≡ bcd ((x + 200 - y - by) % 100)) × (has (low af s') f_c ≡ ltb x (y + by))
op_daa-alu_difference with_carry x y s h e hx hy =
    let c = taken with_carry s in
    let step = alu-subtracts with_carry (bcd y) s h (omega arith) in
    let r = sub_result (high af s) (bcd y) c in
    let behind =
      behind_daa _ _ s _ (difference-lt (high af s) (bcd y) c (high-lt af s) (omega arith))
        (sub-Difference (high af s) (bcd y) c (high-lt af s) (omega arith) r).flags_in step in
    let expected = adjust-difference c x y hx hy in
    (behind.0 ∙ rw e expected.0, behind.1 ∙ rw e expected.1)
