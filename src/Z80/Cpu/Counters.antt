-- ===== src/Z80/Cpu/Counters.antt =====
-- Every instruction of the Z80 counts itself and its cycles, and leaves the interrupt inputs and the
-- debugger's state.
use emfe_plugins.Base.{ℕ, ◌+◌, ◌≡◌, Bool, true, false, u8, arith}
use emfe_plugins.Z80.Cpu.State.{Pair, bc, high, put_high, M, modify}
use emfe_plugins.Z80.Cpu.Move.{
  set_inc_flags, set_dec_flags, ld_rr_nn, add_hl_rr, inc_rr, dec_rr, inc_r, dec_r, ld_at_pair_a,
  ld_a_at_pair, ld_at_nn, ld_from_nn, ld_at_nn_a, ld_a_from_nn, ld_r_n, ld_r_r, alu_r, alu_n,
  push_rr, pop_rr, ld_sp, ex_af, exx, ex_de_hl, ex_sp_hl,
}
use emfe_plugins.Z80.Cpu.Control.{
  nop, halt, di, ei, jr, djnz, jr_cc, jp_nn, jp_pair, jp_cc, call_to, call_nn, call_cc, return_to,
  ret_pc, ret_cc, rst, in_a_n, out_n_a,
}
use emfe_plugins.Z80.Cpu.Bits.{bit_switch, cb_prefix}
use emfe_plugins.Z80.Cpu.Index
use emfe_plugins.Z80.Cpu.Block.{
  do_ld_move, do_cp_step, do_in_step, do_out_step, repeat_if, step_back, ldi, ldir, cpi, cpir, ini,
  inir, outi, otir,
}
use emfe_plugins.Z80.Cpu.Extended
use emfe_plugins.Z80.Cpu.Execute
use emfe_plugins.Z80.Cpu.Frames.{put_high-Kept, Quiet, Counted, IsCycles, modify-Quiet}
use emfe_plugins.Z80.Cpu.FramesBus.{part_rules}

set_inc_flags-Quiet : (orig : ℕ) → Quiet (set_inc_flags orig)
unfolding set_inc_flags
set_inc_flags-Quiet orig = search part_rules

set_dec_flags-Quiet : (orig : ℕ) → Quiet (set_dec_flags orig)
unfolding set_dec_flags
set_dec_flags-Quiet orig = search part_rules

call_to-Quiet : (nn : ℕ) → Quiet (call_to nn)
unfolding call_to
call_to-Quiet nn = search part_rules

return_to-Quiet : Quiet return_to
unfolding return_to
return_to-Quiet = search part_rules

less_b-Quiet : Quiet (modify (λ s. put_high bc (u8 (high bc s + 255)) s))
less_b-Quiet = modify-Quiet _ (λ s. put_high-Kept bc _ s)

halted-Quiet : Quiet (modify (λ s. record s { halted = true }))
halted-Quiet = modify-Quiet _ (λ s. ground arith)

disabled-Quiet : Quiet (modify (λ s. record s { iff1 = false; iff2 = false }))
disabled-Quiet = modify-Quiet _ (λ s. ground arith)

enabled-Quiet : Quiet (modify (λ s. record s { iff1 = true; iff2 = true; ei_delay_pending = true }))
enabled-Quiet = modify-Quiet _ (λ s. ground arith)

restored-Quiet : Quiet (modify (λ s. record s { iff1 = s.iff2 }))
restored-Quiet = modify-Quiet _ (λ s. ground arith)

im-Quiet : (mode : ℕ) → Quiet (modify (λ s. record s { im = mode }))
im-Quiet mode = modify-Quiet _ (λ s. ground arith)

i-Quiet : (x : ℕ) → Quiet (modify (λ s. record s { i = x }))
i-Quiet x = modify-Quiet _ (λ s. ground arith)

r-Quiet : (x : ℕ) → Quiet (modify (λ s. record s { r = x }))
r-Quiet x = modify-Quiet _ (λ s. ground arith)

ruleset step_rules = (
  part_rules, set_inc_flags-Quiet, set_dec_flags-Quiet, call_to-Quiet, return_to-Quiet,
  less_b-Quiet, halted-Quiet, disabled-Quiet, enabled-Quiet, restored-Quiet, im-Quiet, i-Quiet,
  r-Quiet,
)

ex_af-Counted : Counted ex_af
unfolding ex_af
ex_af-Counted = search (
  step_rules,
  modify-Quiet (λ s. record s { af = s.af_shadow; af_shadow = s.af }) (λ s. ground arith),
)

ld_at_nn-Counted : (p : Pair) (n : ℕ) → IsCycles n → Counted (ld_at_nn p n)
unfolding ld_at_nn
ld_at_nn-Counted p n h = search step_rules

ld_from_nn-Counted : (p : Pair) (n : ℕ) → IsCycles n → Counted (ld_from_nn p n)
unfolding ld_from_nn
ld_from_nn-Counted p n h = search step_rules

push_rr-Counted : (p : Pair) (n : ℕ) → IsCycles n → Counted (push_rr p n)
unfolding push_rr
push_rr-Counted p n h = search step_rules

pop_rr-Counted : (p : Pair) (n : ℕ) → IsCycles n → Counted (pop_rr p n)
unfolding pop_rr
pop_rr-Counted p n h = search step_rules

ld_sp-Counted : (p : Pair) (n : ℕ) → IsCycles n → Counted (ld_sp p n)
unfolding ld_sp
ld_sp-Counted p n h = search step_rules

jp_pair-Counted : (p : Pair) (n : ℕ) → IsCycles n → Counted (jp_pair p n)
unfolding jp_pair
jp_pair-Counted p n h = search step_rules

bit_switch-Counted :
    (cb v yx : ℕ) (write : ℕ → M (Unit {0})) (n k : ℕ)
    → ((x : ℕ) → Quiet (write x))
    → IsCycles n
    → IsCycles k
    → Counted (bit_switch cb v yx write n k)
unfolding bit_switch
bit_switch-Counted cb v yx write n k h g i = search step_rules depth 12

ruleset shared_rules = (
  step_rules, ld_at_nn-Counted, ld_from_nn-Counted, push_rr-Counted, pop_rr-Counted, ld_sp-Counted,
  jp_pair-Counted, bit_switch-Counted,
)

index-Counted : (p : Pair) (opcode : ℕ) (g : Index.Group) → Counted (Index.perform p opcode g)
unfolding Index.perform Index.step_pair Index.add_ixy Index.ea_of Index.st_imm Index.ld_reg
    Index.st_reg Index.step_mem Index.alu_at Index.cb_at Index.step_half Index.ld_half_imm
    Index.ld_halves Index.alu_of_half Index.skip_prefix
index-Counted p opcode Index.Group.ld_nn = search shared_rules
index-Counted p opcode _ = search shared_rules depth 14

do_ld_move-Quiet : (up : Bool) → Quiet (do_ld_move up)
unfolding do_ld_move
do_ld_move-Quiet up = search step_rules depth 20

do_cp_step-Quiet : (up : Bool) → Quiet (do_cp_step up)
unfolding do_cp_step
do_cp_step-Quiet up = search step_rules depth 20

do_in_step-Quiet : (up : Bool) → Quiet (do_in_step up)
unfolding do_in_step
do_in_step-Quiet up = search step_rules depth 20

do_out_step-Quiet : (up : Bool) → Quiet (do_out_step up)
unfolding do_out_step
do_out_step-Quiet up = search step_rules depth 20

extended-Counted : (sub : ℕ) (g : Extended.Group) → Counted (Extended.perform sub g)
unfolding Extended.perform Extended.neg Extended.retn Extended.set_im Extended.ld_i_a
    Extended.ld_r_a Extended.ld_a_ir Extended.in_r_c Extended.out_c_r Extended.output_of
    Extended.set_logical_flags Extended.rotate_nibbles repeat_if step_back ldi ldir cpi cpir ini
    inir outi otir
extended-Counted sub Extended.Group.nop = search shared_rules
extended-Counted sub _ =
    search (shared_rules, do_ld_move-Quiet, do_cp_step-Quiet, do_in_step-Quiet, do_out_step-Quiet)
      depth 14

exchanged-Quiet : Quiet (
    modify λ s. record s {
      bc = s.bc_shadow;
      bc_shadow = s.bc;
      de = s.de_shadow;
      de_shadow = s.de;
      hl = s.hl_shadow;
      hl_shadow = s.hl;
    })
exchanged-Quiet = modify-Quiet _ (λ s. ground arith)

swapped-Quiet : Quiet (modify (λ s. record s { de = s.hl; hl = s.de }))
swapped-Quiet = modify-Quiet _ (λ s. ground arith)

prefixed-Counted : (p : Pair) → Counted (Index.execute_with_index p)
unfolding Index.execute_with_index
prefixed-Counted p = search (shared_rules, index-Counted)

ed-Counted : Counted Extended.execute_ed_prefix
unfolding Extended.execute_ed_prefix
ed-Counted = search (shared_rules, extended-Counted)

-- every case of the dispatch but the trap
abbrev pub is_recognised : Execute.Group → Bool
is_recognised Execute.Group.unrecognised = false
is_recognised _ = true

pub perform-Counted :
    (pc opcode : ℕ) (g : Execute.Group)
    → is_recognised g ≡ true
    → Counted (Execute.perform pc opcode g)
unfolding Execute.perform nop halt di ei jr djnz jr_cc jp_nn jp_cc call_nn call_cc ret_pc ret_cc rst
    in_a_n out_n_a cb_prefix ld_rr_nn add_hl_rr inc_rr dec_rr inc_r dec_r ld_at_pair_a ld_a_at_pair
    ld_at_nn_a ld_a_from_nn ld_r_n ld_r_r alu_r alu_n exx ex_de_hl ex_sp_hl
perform-Counted pc opcode Execute.Group.no_op known = search shared_rules
perform-Counted pc opcode Execute.Group.unrecognised known = cc
perform-Counted pc opcode _ known =
    search
      (shared_rules, prefixed-Counted, ed-Counted, ex_af-Counted, exchanged-Quiet, swapped-Quiet)
      depth 14
