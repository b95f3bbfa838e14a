-- ===== src/Em8/Cpu/Arithmetic.antt =====
-- What the EM8's addition, subtraction and comparison compute, in numbers.
use Prim.Native.Nat.{differ}
use emfe_plugins.Base.{
  ℕ, zero, suc, ◌+◌, ◌-◌, ◌*◌, ◌/◌, ◌≡◌, ◌<◌, refl, Bool, ◌&&◌, not, bit_and, bit_xor, ltb, leb,
  ◌==◌, if◌then◌else◌, u8, u16, not8, not32, arith,
}
use emfe_plugins.Base.Signed.{ℤ, pos, ◌+ℤ◌, ◌-ℤ◌, signed8, is_int8}
use emfe_plugins.Base.Bits.{bit, bit-bit_and, bit-bit_xor, bit_and_power, bit_xor-lt}
use emfe_plugins.Em8.Cpu.State.{Flag, Cpu, get_flag, set_flag, set_nz}
use emfe_plugins.Em8.Cpu.Alu.{carry, do_add, do_sub, do_cmp}
use emfe_plugins.Em8.Cpu.Flags.{get_flag-set_flag, set_nz-flags, is_same, bit_seven}

differ_bits : (a b : ℕ) → a < 2 → b < 2 → differ a b ≡ (if a == b then 0 else 1)
differ_bits zero b h k = ground arith
differ_bits (suc zero) zero h k = refl
differ_bits (suc zero) (suc zero) h k = refl
differ_bits (suc zero) (suc (suc b)) h k = absurd (omega arith)
differ_bits (suc (suc a)) b h k = absurd (omega arith)

-- the sign of a byte, by its bit 7
sign_bit : (x : ℕ) → x < 256 → bit 7 x ≡ x / 128
unfolding bit
sign_bit x h = omega arith

sign_not32 : (x : ℕ) → x < 256 → bit 7 (not32 x) ≡ 1 - x / 128
unfolding bit
sign_not32 x h = omega arith

sign_xor :
    (x y : ℕ) → x < 256 → y < 256 → bit 7 (bit_xor x y) ≡ (if x / 128 == y / 128 then 0 else 1)
sign_xor x y h g =
    ground (arith, bit-bit_xor 7 x y, sign_bit x h, sign_bit y g, differ_bits (x / 128) (y / 128))

overflow_add :
    (x y r : ℕ)
    → x < 256
    → y < 256
    → r < 256
    → not (bit_and (bit_and (not32 (bit_xor x y)) (bit_xor x r)) 0x80 == 0)
      ≡ ((x / 128 == y / 128) && not (x / 128 == r / 128))
overflow_add x y r h g k = ground (
  arith,
  bit_and_power 7 (bit_and (not32 (bit_xor x y)) (bit_xor x r)),
  bit-bit_and 7 (not32 (bit_xor x y)) (bit_xor x r),
  sign_not32 (bit_xor x y) (bit_xor-lt 8 x y h g),
  sign_bit (bit_xor x y) (bit_xor-lt 8 x y h g),
  sign_xor x y h g,
  sign_xor x r h k,
)

overflow_sub :
    (x y r : ℕ)
    → x < 256
    → y < 256
    → r < 256
    → not (bit_and (bit_and (bit_xor x y) (bit_xor x r)) 0x80 == 0)
      ≡ (not (x / 128 == y / 128) && not (x / 128 == r / 128))
overflow_sub x y r h g k = ground (
  arith,
  bit_and_power 7 (bit_and (bit_xor x y) (bit_xor x r)),
  bit-bit_and 7 (bit_xor x y) (bit_xor x r),
  sign_xor x y h g,
  sign_xor x r h k,
)

-- the flags that both `DoAdd` and `DoSub` leave
flags_after :
    (f : Flag) (r : ℕ) (o k : Bool) (s : Cpu)
    → r < 256
    → get_flag f (set_nz r (record (set_flag Flag.v o (set_flag Flag.c k s)) { a = r })) ≡ (
        if is_same Flag.z f
        then r == 0
        else if is_same Flag.n f
        then leb 128 r
        else if is_same Flag.v f
        then o
        else if is_same Flag.c f
        then k
        else get_flag f s)
flags_after f r o k s h = ground (
  arith,
  set_nz-flags f r (record (set_flag Flag.v o (set_flag Flag.c k s)) { a = r }) h,
  forget_a f r (set_flag Flag.v o (set_flag Flag.c k s)),
  get_flag-set_flag Flag.v f o (set_flag Flag.c k s),
  get_flag-set_flag Flag.c f k s,
)
  where
    forget_a : (g : Flag) (x : ℕ) (t : Cpu) → get_flag g (record t { a = x }) ≡ get_flag g t
    forget_a g x t = unfold get_flag in refl

carry-lt : (s : Cpu) → carry s < 2
unfolding carry
carry-lt s = ground arith

carry_after : (s : Cpu) → carry s ≡ (if get_flag Flag.c s then 1 else 0)
carry_after s = unfold carry in refl

-- what addition and subtraction leave in the accumulator and the flags
pub record Result (total : ℕ) (value : ℤ) (s s' : Cpu) : Type 0 where
  -- the sum with its carry, exactly
  pub exact : s'.a + 256 * carry s' ≡ total
  pub overflow : get_flag Flag.v s' ≡ not (is_int8 value)
  pub is_zero : get_flag Flag.z s' ≡ (s'.a == 0)
  pub negative : get_flag Flag.n s' ≡ leb 128 s'.a
  pub interrupt_kept : get_flag Flag.i s' ≡ get_flag Flag.i s
  pub break_kept : get_flag Flag.b s' ≡ get_flag Flag.b s

-- `DoAdd` adds the operand and the carry flag: the accumulator and the new carry hold the exact
-- sum, V tells that the signed sum is no `int8_t`, Z and N describe the accumulator, and I and B
-- stay.
pub do_add-Result :
    (val : ℕ) (s : Cpu)
    → s.a < 256
    → val < 256
    → Result (s.a + val + carry s) (signed8 s.a +ℤ signed8 val +ℤ pos (carry s)) s (do_add val s).1
unfolding do_add
do_add-Result val s h g = record {
  exact = ground (arith, carry_after (do_add val s).1, flags Flag.c, a_after, carry-lt s);
  overflow = ground (arith, flags Flag.v, overflow_add s.a val sum h g (omega arith), carry-lt s);
  is_zero = ground (arith, flags Flag.z, a_after);
  negative = ground (arith, flags Flag.n, a_after);
  interrupt_kept = flags Flag.i;
  break_kept = flags Flag.b;
}
  where
    sum : ℕ
    sum = u8 (u16 (s.a + val + carry s))

    overflow : Bool
    overflow = not (bit_and (bit_and (not32 (bit_xor s.a val)) (bit_xor s.a sum)) 0x80 == 0)

    flags :
        (f : Flag)
        → get_flag f (do_add val s).1 ≡ (
            if is_same Flag.z f
            then sum == 0
            else if is_same Flag.n f
            then leb 128 sum
            else if is_same Flag.v f
            then overflow
            else if is_same Flag.c f
            then ltb 0xff (u16 (s.a + val + carry s))
            else get_flag f s)
    flags f = flags_after f sum overflow (ltb 0xff (u16 (s.a + val + carry s))) s (omega arith)

    a_after : (do_add val s).1.a ≡ sum
    a_after = unfold set_nz set_flag in refl

-- `DoSub` subtracts the operand and the borrow, the carry flag's complement: the accumulator is the
-- difference modulo 256, the new carry tells that nothing was borrowed, V tells that the signed
-- difference is no `int8_t`, Z and N describe the accumulator, and I and B stay.
pub do_sub-Result :
    (val : ℕ) (s : Cpu)
    → s.a < 256
    → val < 256
    → Result
        (s.a + 256 - (val + (1 - carry s)))
        (signed8 s.a -ℤ signed8 val -ℤ pos (1 - carry s))
        s
        (do_sub val s).1
unfolding do_sub
do_sub-Result val s h g = record {
  exact = ground (arith, carry_after (do_sub val s).1, flags Flag.c, a_after, carry-lt s);
  overflow = ground (arith, flags Flag.v, overflow_sub s.a val diff h g (omega arith), carry-lt s);
  is_zero = ground (arith, flags Flag.z, a_after);
  negative = ground (arith, flags Flag.n, a_after);
  interrupt_kept = flags Flag.i;
  break_kept = flags Flag.b;
}
  where
    diff : ℕ
    diff = u8 (u16 (s.a + not8 val + carry s))

    overflow : Bool
    overflow = not (bit_and (bit_and (bit_xor s.a val) (bit_xor s.a diff)) 0x80 == 0)

    flags :
        (f : Flag)
        → get_flag f (do_sub val s).1 ≡ (
            if is_same Flag.z f
            then diff == 0
            else if is_same Flag.n f
            then leb 128 diff
            else if is_same Flag.v f
            then overflow
            else if is_same Flag.c f
            then ltb 0xff (u16 (s.a + not8 val + carry s))
            else get_flag f s)
    flags f =
        flags_after f diff overflow (ltb 0xff (u16 (s.a + not8 val + carry s))) s (omega arith)

    a_after : (do_sub val s).1.a ≡ diff
    a_after = unfold set_nz set_flag in refl

-- A comparison changes no register. C tells that the register is at least the operand, Z that they
-- are equal, N is bit 7 of their difference modulo 256, and the other flags stay.
pub do_cmp-flags :
    (reg val : ℕ) (f : Flag) (s : Cpu)
    → reg < 256
    → val < 256
    → (get_flag f (do_cmp reg val s).1 ≡ (
        if is_same Flag.c f
        then leb val reg
        else if is_same Flag.z f
        then reg == val
        else if is_same Flag.n f
        then leb 128 (u8 (reg + 256 - val))
        else get_flag f s))
      × ((do_cmp reg val s).1.a ≡ s.a)
      × ((do_cmp reg val s).1.x ≡ s.x)
      × ((do_cmp reg val s).1.y ≡ s.y)
unfolding do_cmp
do_cmp-flags reg val f s h g = (
  ground (
    arith,
    get_flag-set_flag Flag.n f (not (bit_and (u8 (u16 (reg + 65536 - val))) 0x80 == 0))
        (set_flag Flag.z (reg == val) (set_flag Flag.c (leb val reg) s)),
    get_flag-set_flag Flag.z f (reg == val) (set_flag Flag.c (leb val reg) s),
    get_flag-set_flag Flag.c f (leb val reg) s,
    bit_seven (u8 (u16 (reg + 65536 - val))) (omega arith),
  ),
  unfold set_flag in refl,
  unfold set_flag in refl,
  unfold set_flag in refl,
)
