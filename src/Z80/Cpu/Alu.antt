-- ===== src/Z80/Cpu/Alu.antt =====
-- z80/src/Z80Cpu.cpp: the parity, the 8-bit arithmetic and logic, and the condition codes. An `int`
-- that may be negative is compared and masked without being formed.
use emfe_plugins.Base.{
  ℕ, ◌+◌, ◌-◌, ◌/◌, Bool, false, bit_and, bit_or, bit_xor, ltb, ◌==◌, if◌then◌else◌, u8,
}
use emfe_plugins.Z80.Cpu.State.{
  Cpu, af, low, f_s, f_z, f_y, f_h, f_x, f_pv, f_n, f_c, has, mark, M, ◌>>=◌, ◌>>◌, ret, a, f,
  set_a, set_f,
}

unfoldable pub parity8 : ℕ → Bool
parity8 v0 =
    let v1 = bit_xor v0 (u8 (v0 / 16)) in
    let v2 = bit_xor v1 (u8 (v1 / 4)) in let v3 = bit_xor v2 (u8 (v2 / 2)) in bit_and v3 1 == 0

abbrev pub of_bool : Bool → ℕ
of_bool b = if b then 1 else 0

-- The flags that come from a result by its bits alone, added to `f`.
abbrev pub mark_sign : ℕ → ℕ → ℕ
mark_sign result f = mark (result == 0) f_z (mark (has result 0x80) f_s f)

abbrev pub mark_yx : ℕ → ℕ → ℕ
mark_yx v f = mark (has v 0x08) f_x (mark (has v 0x20) f_y f)

-- the result and the flags of `AluAdd`
unfoldable pub add_result : ℕ → ℕ → Bool → ℕ
add_result x y carry = u8 (bit_and (x + y + of_bool carry) 0xFF)

unfoldable pub add_flags : ℕ → ℕ → Bool → ℕ
unfolding add_result
add_flags x y carry =
    let cy = of_bool carry in
    let full = x + y + cy in
    let half = bit_and x 0x0F + bit_and y 0x0F + cy in
    let result = add_result x y carry in
    let f1 = mark (has result 0x20) f_y (mark_sign result 0) in
    let f2 = mark (has result 0x08) f_x (mark (ltb 0x0F half) f_h f1) in
    let f3 = mark (has (bit_and (bit_xor x result) (bit_xor y result)) 0x80) f_pv f2 in
    mark (ltb 0xFF full) f_c f3

unfoldable pub alu_add : ℕ → ℕ → Bool → M ℕ
unfolding add_result add_flags
alu_add x y carry = do set_f (add_flags x y carry); ret (add_result x y carry)

-- `(a - b - by) & 0xFF`, and the flags of `AluSub` with the byte that Y and X are taken from
unfoldable pub sub_result : ℕ → ℕ → Bool → ℕ
sub_result x y borrow = u8 (x + 512 - y - of_bool borrow)

unfoldable pub sub_flags : ℕ → ℕ → Bool → ℕ → ℕ
unfolding sub_result
sub_flags x y borrow yx =
    let by = of_bool borrow in
    let result = sub_result x y borrow in
    let f1 = mark (has yx 0x20) f_y (mark_sign result f_n) in
    let f2 = mark (ltb (bit_and x 0x0F) (bit_and y 0x0F + by)) f_h f1 in
    let f3 = mark (has yx 0x08) f_x f2 in
    let f4 = mark (has (bit_and (bit_xor x y) (bit_xor x result)) 0x80) f_pv f3 in
    mark (ltb x (y + by)) f_c f4

unfoldable pub alu_sub : ℕ → ℕ → Bool → M ℕ
unfolding sub_result sub_flags
alu_sub x y borrow = do
  set_f (sub_flags x y borrow (sub_result x y borrow))
  ret (sub_result x y borrow)

-- A comparison takes Y and X from the operand.
unfoldable pub alu_cp : ℕ → ℕ → M (Unit {0})
unfolding sub_flags
alu_cp x y = set_f (sub_flags x y false y)

-- the flags of the logical operations, on top of `f`
unfoldable pub logic_flags : ℕ → ℕ → ℕ
unfolding parity8
logic_flags result f = mark (parity8 result) f_pv (mark_yx result (mark_sign result f))

unfoldable pub alu_and : ℕ → ℕ → M ℕ
unfolding logic_flags
alu_and x y = do let result = bit_and x y; set_f (logic_flags result f_h); ret result

unfoldable pub alu_or : ℕ → ℕ → M ℕ
unfolding logic_flags
alu_or x y = do let result = bit_or x y; set_f (logic_flags result 0); ret result

unfoldable pub alu_xor : ℕ → ℕ → M ℕ
unfolding logic_flags
alu_xor x y = do let result = bit_xor x y; set_f (logic_flags result 0); ret result

-- `switch (op)` on the accumulator `x` and `val`, at an `op` below 8
unfoldable pub alu_switch : ℕ → ℕ → Bool → ℕ → M (Unit {0})
unfolding alu_add alu_sub alu_and alu_or alu_xor alu_cp
alu_switch op x cy val =
    if op == 0
    then alu_add x val false >>= set_a
    else if op == 1
    then alu_add x val cy >>= set_a
    else if op == 2
    then alu_sub x val false >>= set_a
    else if op == 3
    then alu_sub x val cy >>= set_a
    else if op == 4
    then alu_and x val >>= set_a
    else if op == 5
    then alu_xor x val >>= set_a
    else if op == 6
    then alu_or x val >>= set_a
    else alu_cp x val

unfoldable pub alu : ℕ → ℕ → M (Unit {0})
unfolding alu_switch
alu op val = do fl ← f; x ← a; alu_switch op x (has fl f_c) val

-- the flags of the 8-bit increment and decrement of `orig`, on top of the carry flag
unfoldable pub inc_flags : ℕ → ℕ → ℕ
inc_flags orig fl =
    let result = u8 (orig + 1) in
    let f1 = mark (has result 0x20) f_y (mark_sign result (u8 (bit_and fl f_c))) in
    let f2 = mark (bit_and orig 0x0F == 0x0F) f_h f1 in
    mark (result == 0x80) f_pv (mark (has result 0x08) f_x f2)

unfoldable pub dec_flags : ℕ → ℕ → ℕ
dec_flags orig fl =
    let result = u8 (orig + 255) in
    let f1 = mark (has result 0x20) f_y (mark_sign result (u8 (bit_or (bit_and fl f_c) f_n))) in
    let f2 = mark (bit_and orig 0x0F == 0x00) f_h f1 in
    mark (result == 0x7F) f_pv (mark (has result 0x08) f_x f2)

unfoldable pub check_cond : ℕ → Cpu → Bool
check_cond ccc s =
    let fl = low af s in
    let c = bit_and ccc 0x07 in
    if c == 0
    then bit_and fl f_z == 0
    else if c == 1
    then has fl f_z
    else if c == 2
    then bit_and fl f_c == 0
    else if c == 3
    then has fl f_c
    else if c == 4
    then bit_and fl f_pv == 0
    else if c == 5
    then has fl f_pv
    else if c == 6
    then bit_and fl f_s == 0
    else has fl f_s
