-- ===== src/Z80/Cpu/Rotations.antt =====
-- The Z80's rotations to the left and to the right undo each other.
use emfe_plugins.Base.{
  ℕ, ◌<◌, ◌≡◌, ◌∙◌, refl, ap, Bool, true, false, ◌&&◌, ◌==◌, all_below, all_below_sound, same,
  row_sound, arith,
}
use emfe_plugins.Z80.Cpu.State.{
  Cpu, af, get, put, low, put_low, f_c, has, ret, f, set_f, ◌>>=◌, ◌>>◌,
}
use emfe_plugins.Z80.Cpu.Alu.{logic_flags, parity8}
use emfe_plugins.Z80.Cpu.Rotate.{
  shift_flags, set_shift_rotate_flags, left_with, right_with, shifted, rot_rl, rot_rr,
}
use emfe_plugins.Z80.Cpu.FlagBits.{has-mark, mark-lt}
use emfe_plugins.Z80.Cpu.Halves.{low-put_low}

-- A bit moved in at one end comes out there when the byte moves back, and so do the other bits.
left_right : Bool → ℕ → Bool
left_right c v = right_with (has v 0x80) (left_with c v) == v && same (has (left_with c v) 0x01) c

right_left : Bool → ℕ → Bool
right_left c v = left_with (has v 0x01) (right_with c v) == v && same (has (right_with c v) 0x80) c

left_right_table : (c : Bool) → all_below 256 (left_right c) ≡ true
unfolding all_below left_right right_with left_with
left_right_table true = refl
left_right_table false = refl

right_left_table : (c : Bool) → all_below 256 (right_left c) ≡ true
unfolding all_below right_left right_with left_with
right_left_table true = refl
right_left_table false = refl

left-right :
    (c : Bool) (v : ℕ)
    → v < 256
    → (right_with (has v 0x80) (left_with c v) ≡ v) × (has (left_with c v) 0x01 ≡ c)
unfolding left_right
left-right c v h = row_sound _ _ _ _ (all_below_sound 256 (left_right c) v (left_right_table c) h)

right-left :
    (c : Bool) (v : ℕ)
    → v < 256
    → (left_with (has v 0x01) (right_with c v) ≡ v) × (has (right_with c v) 0x80 ≡ c)
unfolding right_left
right-left c v h = row_sound _ _ _ _ (all_below_sound 256 (right_left c) v (right_left_table c) h)

logic_carry : (r : ℕ) → has (logic_flags r 0) 0x01 ≡ false
unfolding logic_flags
logic_carry r =
    has-mark 0 2 (parity8 r) _
    ∙ has-mark 0 3 (has r 0x08) _
    ∙ has-mark 0 5 (has r 0x20) _
    ∙ has-mark 0 6 (r == 0) _
    ∙ has-mark 0 7 (has r 0x80) 0

logic_flags-lt : (r : ℕ) → logic_flags r 0 < 256
unfolding logic_flags
logic_flags-lt r = mark-lt 2 (parity8 r) _ (omega arith) (
    mark-lt 3 (has r 0x08) _ (omega arith) (
      mark-lt 5 (has r 0x20) _ (omega arith) (
        mark-lt 6 (r == 0) _ (omega arith) (mark-lt 7 (has r 0x80) 0 (omega arith) (omega arith)))))

-- a rotation's result, and the carry flag and the width of AF behind it
shifted-carry :
    (r : ℕ) (carry : Bool) (s : Cpu)
    → s.af < 65536
    → (has (low af (shifted r carry s).1) f_c ≡ carry) × ((shifted r carry s).1.af < 65536)
unfolding shifted set_shift_rotate_flags set_f ret get ◌>>◌
shifted-carry r carry s h =
    (ap (λ t. has t f_c) (low-put_low af (shift_flags r carry) s small h) ∙ flag, width)
  where
    small : shift_flags r carry < 256
    small = unfold shift_flags in mark-lt 0 carry _ (omega arith) (logic_flags-lt r)

    flag : has (shift_flags r carry) f_c ≡ carry
    flag = unfold shift_flags in has-mark 0 0 carry _ ∙ ground (arith, logic_carry r)

    width : (put_low af (shift_flags r carry) s).af < 65536
    width = unfold put_low put get in omega arith

-- RR undoes RL and RL undoes RR, in the byte and in the carry flag.
pub rot_rr-rot_rl :
    (v : ℕ) (s : Cpu)
    → v < 256
    → s.af < 65536
    → let (left, s1) = rot_rl v s in
      let (back, s2) = rot_rr left s1 in
      let (right, t1) = rot_rr v s in
      let (forth, t2) = rot_rl right t1 in
      (back ≡ v)
      × (has (low af s2) f_c ≡ has (low af s) f_c)
      × (forth ≡ v)
      × (has (low af t2) f_c ≡ has (low af s) f_c)
unfolding rot_rl rot_rr f ret shifted ◌>>=◌ ◌>>◌
rot_rr-rot_rl v s h w =
    let c = has (low af s) f_c in
    let left = shifted-carry (left_with c v) (has v 0x80) s w in
    let right = shifted-carry (right_with c v) (has v 0x01) s w in
    let there = left-right c v h in
    let here = right-left c v h in
    (
      ap (λ b. right_with b (left_with c v)) left.0 ∙ there.0,
      (shifted-carry (right_with (has (low af (rot_rl v s).1) f_c) (rot_rl v s).0)
            (has (left_with c v) 0x01) (rot_rl v s).1 left.1).0
          ∙ there.1,
      ap (λ b. left_with b (right_with c v)) right.0 ∙ here.0,
      (shifted-carry (left_with (has (low af (rot_rr v s).1) f_c) (rot_rr v s).0)
            (has (right_with c v) 0x80) (rot_rr v s).1 right.1).0
          ∙ here.1,
    )
