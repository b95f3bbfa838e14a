-- ===== src/Z80/Cpu/Rotate.antt =====
-- z80/src/Z80Cpu.cpp: the rotations and shifts of the CB page, and the bit test.
use emfe_plugins.Base.{ℕ, ◌*◌, ◌/◌, ◌^◌, Bool, bit_and, bit_or, ◌==◌, if◌then◌else◌, u8}
use emfe_plugins.Z80.Cpu.State.{
  f_s, f_z, f_y, f_h, f_x, f_pv, f_c, has, mark, M, ◌>>=◌, ◌>>◌, ret, f, set_f,
}
use emfe_plugins.Z80.Cpu.Alu.{of_bool, logic_flags}

unfoldable pub shift_flags : ℕ → Bool → ℕ
unfolding logic_flags
shift_flags result carry_out = mark carry_out f_c (logic_flags result 0)

unfoldable pub set_shift_rotate_flags : ℕ → Bool → M (Unit {0})
unfolding shift_flags
set_shift_rotate_flags result carry_out = set_f (shift_flags result carry_out)

-- `v << 1` and `v >> 1` of a byte with `bit` moved in, as `RotRL` and `RotRR` do
unfoldable pub left_with : Bool → ℕ → ℕ
left_with moved v = u8 (bit_or (v * 2) (of_bool moved))

unfoldable pub right_with : Bool → ℕ → ℕ
right_with moved v = u8 (bit_or (v / 2) (if moved then 0x80 else 0))

unfoldable pub shifted : ℕ → Bool → M ℕ
unfolding set_shift_rotate_flags
shifted r carry = do set_shift_rotate_flags r carry; ret r

unfoldable pub rot_rlc : ℕ → M ℕ
unfolding shifted left_with
rot_rlc v = let carry = has v 0x80 in shifted (left_with carry v) carry

unfoldable pub rot_rrc : ℕ → M ℕ
unfolding shifted right_with
rot_rrc v = let carry = has v 0x01 in shifted (right_with carry v) carry

unfoldable pub rot_rl : ℕ → M ℕ
unfolding shifted left_with
rot_rl v = do fl ← f; shifted (left_with (has fl f_c) v) (has v 0x80)

unfoldable pub rot_rr : ℕ → M ℕ
unfolding shifted right_with
rot_rr v = do fl ← f; shifted (right_with (has fl f_c) v) (has v 0x01)

unfoldable pub shift_sla : ℕ → M ℕ
unfolding shifted
shift_sla v = shifted (u8 (v * 2)) (has v 0x80)

-- The sign stays.
unfoldable pub shift_sra : ℕ → M ℕ
unfolding shifted
shift_sra v = shifted (u8 (bit_or (v / 2) (bit_and v 0x80))) (has v 0x01)

unfoldable pub shift_sll : ℕ → M ℕ
unfolding shifted
shift_sll v = shifted (u8 (bit_or (v * 2) 1)) (has v 0x80)

unfoldable pub shift_srl : ℕ → M ℕ
unfolding shifted
shift_srl v = shifted (u8 (v / 2)) (has v 0x01)

-- `switch (idx)` of the CB page, at an `idx` below 8
unfoldable pub rotate : ℕ → ℕ → M ℕ
unfolding rot_rlc rot_rrc rot_rl rot_rr shift_sla shift_sra shift_sll shift_srl
rotate idx v =
    if idx == 0
    then rot_rlc v
    else if idx == 1
    then rot_rrc v
    else if idx == 2
    then rot_rl v
    else if idx == 3
    then rot_rr v
    else if idx == 4
    then shift_sla v
    else if idx == 5
    then shift_sra v
    else if idx == 6
    then shift_sll v
    else shift_srl v

-- the flags of a test of bit `b`, with the carry flag of `fl`
unfoldable pub bit_flags : ℕ → ℕ → ℕ → ℕ → ℕ
bit_flags b v yx_source fl =
    let bit_set = u8 (bit_and v (u8 (2 ^ b))) in
    let start = bit_or (u8 (bit_and fl f_c)) f_h in
    let clear = mark (bit_set == 0) f_pv (mark (bit_set == 0) f_z start) in
    let sign = mark (has bit_set 0x80) f_s clear in
    mark (has yx_source 0x08) f_x (mark (has yx_source 0x20) f_y sign)

unfoldable pub op_bit : ℕ → ℕ → ℕ → M (Unit {0})
unfolding bit_flags
op_bit b v yx_source = do fl ← f; set_f (bit_flags b v yx_source fl)
