-- ===== src/Z80/Cpu/Arithmetic.antt =====
-- What the Z80's 8-bit additions, subtractions and comparisons compute, in numbers.
use emfe_plugins.Base.{
  ℕ, ◌+◌, ◌-◌, ◌*◌, ◌/◌, ◌%◌, ◌<◌, ◌≡◌, ◌∙◌, refl, Bool, true, false, ◌&&◌, ◌||◌, not, bit_and,
  bit_xor, ltb, leb, ◌==◌, if◌then◌else◌, u8, arith,
}
use emfe_plugins.Base.Signed.{pos, ◌+ℤ◌, ◌-ℤ◌, signed8, is_int8}
use emfe_plugins.Base.Masks.{bit_and_mask}
use emfe_plugins.Z80.Cpu.State.{
  Cpu, af, high, low, put_high, put_low, f_s, f_z, f_h, f_pv, f_n, f_c, has, ret, ◌>>=◌, ◌>>◌, a, f,
  set_a, set_f,
}
use emfe_plugins.Z80.Cpu.Alu.{of_bool, add_result, add_flags, sub_result, sub_flags, alu}
use emfe_plugins.Z80.Cpu.Halves.{with_a_f, settled, put_high-put_low, high-lt}
use emfe_plugins.Z80.Cpu.FlagBits.{Marked, marks-Marked}
use emfe_plugins.Z80.Cpu.Signs.{signs_differ, has_sign}

-- what an addition of `x`, `y` and a carry leaves as its result and its flags
pub record Sum (x y : ℕ) (carry : Bool) (r fl : ℕ) : Type 0 where
  -- the sum with its carry, exactly
  pub exact : r + 256 * of_bool (has fl f_c) ≡ x + y + of_bool carry
  pub overflow : has fl f_pv ≡ not (is_int8 (signed8 x +ℤ signed8 y +ℤ pos (of_bool carry)))
  pub half : has fl f_h ≡ ltb 15 (x % 16 + y % 16 + of_bool carry)
  pub is_zero : has fl f_z ≡ (r == 0)
  pub negative : has fl f_s ≡ leb 128 r
  pub subtract : has fl f_n ≡ false
  pub flags_in : fl < 256

module _ (x y : ℕ) (carry : Bool) (hx : x < 256) (hy : y < 256) where
  carry-lt : of_bool carry < 2
  carry-lt = ground arith

  sum_byte : add_result x y carry ≡ u8 (x + y + of_bool carry)
  unfolding add_result
  sum_byte = ground (arith, bit_and_mask 8 (x + y + of_bool carry))

  pub sum-lt : add_result x y carry < 256
  sum-lt = omega (arith, sum_byte)

  half_sum :
      ltb 0x0F (bit_and x 0x0F + bit_and y 0x0F + of_bool carry)
      ≡ ltb 15 (x % 16 + y % 16 + of_bool carry)
  half_sum = ground (arith, bit_and_mask 4 x, bit_and_mask 4 y)

  add_flags-Marked :
      (r : ℕ)
      → r ≡ add_result x y carry
      → Marked 0
          (add_flags x y carry)
          (has r 0x80)
          (r == 0)
          (ltb 0x0F (bit_and x 0x0F + bit_and y 0x0F + of_bool carry))
          (has (bit_and (bit_xor x r) (bit_xor y r)) 0x80)
          (ltb 0xFF (x + y + of_bool carry))
  unfolding add_flags
  add_flags-Marked r e = rw e (
      marks-Marked 0 (has (add_result x y carry) 0x80) (add_result x y carry == 0)
        (has (add_result x y carry) 0x20)
        (ltb 0x0F (bit_and x 0x0F + bit_and y 0x0F + of_bool carry))
        (has (add_result x y carry) 0x08)
        (has (bit_and (bit_xor x (add_result x y carry)) (bit_xor y (add_result x y carry))) 0x80)
        (ltb 0xFF (x + y + of_bool carry)) (omega arith))

  pub add-Sum : Sum x y carry (add_result x y carry) (add_flags x y carry)
  add-Sum =
      let r = add_result x y carry in
      let m = add_flags-Marked r refl in
      record {
        exact = ground (arith, m.carry, sum_byte, carry-lt);
        overflow =
            ground
              (arith, m.overflow, signs_differ x r y r hx sum-lt hy sum-lt, sum_byte, carry-lt);
        half = ground (arith, m.half, half_sum);
        is_zero = ground (arith, m.zero_flag);
        negative = ground (arith, m.sign, has_sign r sum-lt);
        subtract = m.subtract;
        flags_in = m.in_byte;
      }

-- what a subtraction of `y` and a borrow from `x` leaves as its result and its flags
pub record Difference (x y : ℕ) (borrow : Bool) (r fl : ℕ) : Type 0 where
  pub exact : r + y + of_bool borrow ≡ x + 256 * of_bool (has fl f_c)
  pub overflow : has fl f_pv ≡ not (is_int8 (signed8 x -ℤ signed8 y -ℤ pos (of_bool borrow)))
  pub half : has fl f_h ≡ ltb (x % 16) (y % 16 + of_bool borrow)
  pub is_zero : has fl f_z ≡ (r == 0)
  pub negative : has fl f_s ≡ leb 128 r
  pub subtract : has fl f_n ≡ true
  pub flags_in : fl < 256

or_false : (b : Bool) → b || false ≡ b
or_false true = refl
or_false false = refl

difference_overflow :
    (x y : ℕ) (borrow : Bool)
    → x < 256
    → y < 256
    → (not (x / 128 == y / 128) && not (x / 128 == u8 (x + 512 - y - of_bool borrow) / 128))
      ≡ not (is_int8 (signed8 x -ℤ signed8 y -ℤ pos (of_bool borrow)))
difference_overflow x y true hx hy = ground arith
difference_overflow x y false hx hy = ground arith

module _ (x y : ℕ) (borrow : Bool) (hx : x < 256) (hy : y < 256) where
  borrow-lt : of_bool borrow < 2
  borrow-lt = ground arith

  pub difference-lt : sub_result x y borrow < 256
  unfolding sub_result
  difference-lt = omega arith

  difference_byte : sub_result x y borrow ≡ u8 (x + 512 - y - of_bool borrow)
  unfolding sub_result
  difference_byte = refl

  half_difference :
      ltb (bit_and x 0x0F) (bit_and y 0x0F + of_bool borrow)
      ≡ ltb (x % 16) (y % 16 + of_bool borrow)
  half_difference = ground (arith, bit_and_mask 4 x, bit_and_mask 4 y)

  sub_flags-Marked :
      (yx : ℕ)
      → Marked 2
          (sub_flags x y borrow yx)
          (has (sub_result x y borrow) 0x80)
          (sub_result x y borrow == 0)
          (ltb (bit_and x 0x0F) (bit_and y 0x0F + of_bool borrow))
          (has (bit_and (bit_xor x y) (bit_xor x (sub_result x y borrow))) 0x80)
          (ltb x (y + of_bool borrow))
  unfolding sub_flags
  sub_flags-Marked yx =
      marks-Marked 2 (has (sub_result x y borrow) 0x80) (sub_result x y borrow == 0) (has yx 0x20)
        (ltb (bit_and x 0x0F) (bit_and y 0x0F + of_bool borrow)) (has yx 0x08)
        (has (bit_and (bit_xor x y) (bit_xor x (sub_result x y borrow))) 0x80)
        (ltb x (y + of_bool borrow)) (omega arith)

  overflow_sub :
      has (bit_and (bit_xor x y) (bit_xor x (sub_result x y borrow))) 0x80 || false
      ≡ not (is_int8 (signed8 x -ℤ signed8 y -ℤ pos (of_bool borrow)))
  unfolding sub_result
  overflow_sub =
      or_false _
      ∙ signs_differ x y x (sub_result x y borrow) hx hy hx difference-lt
      ∙ difference_overflow x y borrow hx hy

  pub sub-Difference :
      (yx : ℕ) → Difference x y borrow (sub_result x y borrow) (sub_flags x y borrow yx)
  sub-Difference yx =
      let r = sub_result x y borrow in
      let m = sub_flags-Marked yx in
      record {
        exact = ground (arith, m.carry, difference_byte, borrow-lt);
        overflow = m.overflow ∙ overflow_sub;
        half = ground (arith, m.half, half_difference);
        is_zero = ground (arith, m.zero_flag);
        negative = ground (arith, m.sign, has_sign r difference-lt);
        subtract = m.subtract;
        flags_in = m.in_byte;
      }

-- the carry that an operation takes: of ADC and SBC the flag, of ADD and SUB none
abbrev pub taken : Bool → Cpu → Bool
taken with_carry s = with_carry && has (low af s) f_c

-- the CPU behind ADD or ADC, and behind SUB or SBC
pub alu-adds :
    (with_carry : Bool) (val : ℕ) (s : Cpu)
    → s.af < 65536
    → val < 256
    → (alu (if with_carry then 1 else 0) val s).1
      ≡ with_a_f
          (add_result (high af s) val (taken with_carry s))
          (add_flags (high af s) val (taken with_carry s))
          s
alu-adds with_carry val s h g =
    stores with_carry
    ∙ put_high-put_low _ _ s (sum-lt (high af s) val (taken with_carry s) (high-lt af s) g)
        (add-Sum (high af s) val (taken with_carry s) (high-lt af s) g).flags_in h
  where
    stores :
        (b : Bool)
        → (alu (if b then 1 else 0) val s).1
          ≡ put_high af
              (add_result (high af s) val (taken b s))
              (put_low af (add_flags (high af s) val (taken b s)) s)
    stores true = unfold alu a f set_a set_f ret ◌>>=◌ ◌>>◌ in refl
    stores false = unfold alu a f set_a set_f ret ◌>>=◌ ◌>>◌ in refl

pub alu-subtracts :
    (with_carry : Bool) (val : ℕ) (s : Cpu)
    → s.af < 65536
    → val < 256
    → let r = sub_result (high af s) val (taken with_carry s) in
      (alu (if with_carry then 3 else 2) val s).1
      ≡ with_a_f r (sub_flags (high af s) val (taken with_carry s) r) s
alu-subtracts with_carry val s h g =
    let c = taken with_carry s in
    let r = sub_result (high af s) val c in
    stores with_carry
    ∙ put_high-put_low r (sub_flags (high af s) val c r) s
        (difference-lt (high af s) val c (high-lt af s) g)
        (sub-Difference (high af s) val c (high-lt af s) g r).flags_in h
  where
    stores :
        (b : Bool)
        → let r = sub_result (high af s) val (taken b s) in
          (alu (if b then 3 else 2) val s).1
          ≡ put_high af r (put_low af (sub_flags (high af s) val (taken b s) r) s)
    stores true = unfold alu a f set_a set_f ret ◌>>=◌ ◌>>◌ in refl
    stores false = unfold alu a f set_a set_f ret ◌>>=◌ ◌>>◌ in refl

-- ADD and ADC put the exact sum into A and the carry flag, P/V tells that the signed sum is no
-- `int8_t`, H is the carry from bit 3, Z and S describe A, N is cleared, and nothing but A and F
-- changes.
pub alu-Sum :
    (with_carry : Bool) (val : ℕ) (s : Cpu)
    → s.af < 65536
    → val < 256
    → let s' = (alu (if with_carry then 1 else 0) val s).1 in
      Sum (high af s) val (taken with_carry s) (high af s') (low af s')
      × (s' ≡ with_a_f (high af s') (low af s') s)
alu-Sum with_carry val s h g =
    let x = high af s in
    let c = taken with_carry s in
    let sum = add-Sum x val c (high-lt af s) g in
    settled (Sum x val c) (add_result x val c) (add_flags x val c) s
      (alu (if with_carry then 1 else 0) val s).1 (sum-lt x val c (high-lt af s) g) sum.flags_in
      (alu-adds with_carry val s h g) sum

-- SUB and SBC put the difference modulo 256 into A and its borrow into the carry flag, P/V tells
-- that the signed difference is no `int8_t`, H is the borrow of the low digits, Z and S describe A,
-- N is set, and nothing but A and F changes.
pub alu-Difference :
    (with_carry : Bool) (val : ℕ) (s : Cpu)
    → s.af < 65536
    → val < 256
    → let s' = (alu (if with_carry then 3 else 2) val s).1 in
      Difference (high af s) val (taken with_carry s) (high af s') (low af s')
      × (s' ≡ with_a_f (high af s') (low af s') s)
alu-Difference with_carry val s h g =
    let x = high af s in
    let c = taken with_carry s in
    let r = sub_result x val c in
    let difference = sub-Difference x val c (high-lt af s) g r in
    settled (Difference x val c) r (sub_flags x val c r) s
      (alu (if with_carry then 3 else 2) val s).1 (difference-lt x val c (high-lt af s) g)
      difference.flags_in (alu-subtracts with_carry val s h g) difference
