-- ===== src/Z80/Cpu/Travels.antt =====
-- The bytes that the Z80's instructions fetch behind the opcode, for the cases that do not jump.
use emfe_plugins.Base.{ℕ, suc, refl, Bool, true, false, Option, none, some}
use emfe_plugins.Z80.Cpu.State.{Pair, M, ◌>>=◌, ret, modify, load}
use emfe_plugins.Z80.Cpu.Bus.{fetch_byte}
use emfe_plugins.Z80.Cpu.Move.{
  set_inc_flags, set_dec_flags, ld_rr_nn, add_hl_rr, inc_rr, dec_rr, inc_r, dec_r, ld_at_pair_a,
  ld_a_at_pair, ld_at_nn, ld_from_nn, ld_at_nn_a, ld_a_from_nn, ld_r_n, ld_r_r, alu_r, alu_n,
  push_rr, pop_rr, ld_sp, ex_af, exx, ex_de_hl, ex_sp_hl,
}
use emfe_plugins.Z80.Cpu.Control.{nop, halt, di, ei, in_a_n, out_n_a}
use emfe_plugins.Z80.Cpu.Bits.{bit_switch, cb_prefix}
use emfe_plugins.Z80.Cpu.Index
use emfe_plugins.Z80.Cpu.Block.{
  do_ld_move, do_cp_step, do_in_step, do_out_step, ldi, cpi, ini, outi,
}
use emfe_plugins.Z80.Cpu.Extended
use emfe_plugins.Z80.Cpu.Execute
use emfe_plugins.Z80.Cpu.Stays.{Still, modify-Still}
use emfe_plugins.Z80.Cpu.StaysBus.{Moves, ahead, move_rules}

-- the number of bytes behind the opcode, for the cases that do not jump
unfoldable pub after_index : Index.Group → Option ℕ
after_index Index.Group.jp = none
after_index Index.Group.prefix_only = none
after_index Index.Group.ld_nn = some 2
after_index Index.Group.st_nn = some 2
after_index Index.Group.ld_mem = some 2
after_index Index.Group.st_n = some 2
after_index Index.Group.cb = some 2
after_index Index.Group.ld_r = some 1
after_index Index.Group.st_r = some 1
after_index Index.Group.inc_mem = some 1
after_index Index.Group.dec_mem = some 1
after_index Index.Group.alu_mem = some 1
after_index Index.Group.ld_high = some 1
after_index Index.Group.ld_low = some 1
after_index _ = some 0

unfoldable pub after_extended : Extended.Group → Option ℕ
after_extended Extended.Group.ret_n = none
after_extended Extended.Group.block_ldir = none
after_extended Extended.Group.block_lddr = none
after_extended Extended.Group.block_cpir = none
after_extended Extended.Group.block_cpdr = none
after_extended Extended.Group.block_inir = none
after_extended Extended.Group.block_indr = none
after_extended Extended.Group.block_otir = none
after_extended Extended.Group.block_otdr = none
after_extended Extended.Group.st_rr = some 2
after_extended Extended.Group.ld_rr = some 2
after_extended _ = some 0

-- The prefixes DD, FD and ED are looked at apart.
unfoldable pub after_opcode : Execute.Group → Option ℕ
after_opcode Execute.Group.index_x = none
after_opcode Execute.Group.index_y = none
after_opcode Execute.Group.extended = none
after_opcode Execute.Group.jump_rel = none
after_opcode Execute.Group.loop_rel = none
after_opcode Execute.Group.jr_cond = none
after_opcode Execute.Group.jp = none
after_opcode Execute.Group.jp_hl = none
after_opcode Execute.Group.jp_cond = none
after_opcode Execute.Group.call = none
after_opcode Execute.Group.call_cond = none
after_opcode Execute.Group.return_always = none
after_opcode Execute.Group.ret_cond = none
after_opcode Execute.Group.restart = none
after_opcode Execute.Group.unrecognised = none
after_opcode Execute.Group.ld_pair = some 2
after_opcode Execute.Group.st_hl = some 2
after_opcode Execute.Group.ld_hl = some 2
after_opcode Execute.Group.st_a = some 2
after_opcode Execute.Group.ld_a = some 2
after_opcode Execute.Group.ld_imm = some 1
after_opcode Execute.Group.alu_imm = some 1
after_opcode Execute.Group.in_a = some 1
after_opcode Execute.Group.out_a = some 1
after_opcode Execute.Group.bits = some 1
after_opcode _ = some 0

-- an instruction's case, of which nothing is said if it may jump
pub data Travels : Option ℕ → M ℕ → Type 0 where
  anywhere : {m : M ℕ} → Travels none m
  straight : {k : ℕ} {m : M ℕ} → Moves k m → Travels (some k) m

set_inc_flags-Still : (orig : ℕ) → Still (set_inc_flags orig)
unfolding set_inc_flags
set_inc_flags-Still orig = search move_rules

set_dec_flags-Still : (orig : ℕ) → Still (set_dec_flags orig)
unfolding set_dec_flags
set_dec_flags-Still orig = search move_rules

halted-Still : Still (modify (λ s. record s { halted = true }))
halted-Still = modify-Still _ (λ s. refl)

disabled-Still : Still (modify (λ s. record s { iff1 = false; iff2 = false }))
disabled-Still = modify-Still _ (λ s. refl)

enabled-Still : Still (modify (λ s. record s { iff1 = true; iff2 = true; ei_delay_pending = true }))
enabled-Still = modify-Still _ (λ s. refl)

im-Still : (mode : ℕ) → Still (modify (λ s. record s { im = mode }))
im-Still mode = modify-Still _ (λ s. refl)

i-Still : (x : ℕ) → Still (modify (λ s. record s { i = x }))
i-Still x = modify-Still _ (λ s. refl)

r-Still : (x : ℕ) → Still (modify (λ s. record s { r = x }))
r-Still x = modify-Still _ (λ s. refl)

ea_of-Moves :
    {n : ℕ} (p : Pair) {k : ℕ → M ℕ}
    → ((x : ℕ) → Moves n (k x))
    → Moves (suc n) (Index.ea_of p >>= k)
ea_of-Moves {n = n} p g = record {
  run = λ s. unfold Index.ea_of ◌>>=◌ load ret fetch_byte ahead in (g _).run _;
}

ruleset travel_rules = (
  move_rules, set_inc_flags-Still, set_dec_flags-Still, halted-Still, disabled-Still, enabled-Still,
  im-Still, i-Still, r-Still, ea_of-Moves, anywhere, straight,
)

bit_switch-Still :
    (cb v yx : ℕ) (write : ℕ → M (Unit {0})) (n k : ℕ)
    → ((x : ℕ) → Still (write x))
    → Still (bit_switch cb v yx write n k)
unfolding bit_switch
bit_switch-Still cb v yx write n k h = search travel_rules depth 12

pub index-Travels :
    (p : Pair) (opcode : ℕ) (g : Index.Group) → Travels (after_index g) (Index.perform p opcode g)
unfolding after_index Index.perform Index.step_pair Index.add_ixy Index.st_imm Index.ld_reg
    Index.st_reg Index.step_mem Index.alu_at Index.cb_at Index.step_half Index.ld_half_imm
    Index.ld_halves Index.alu_of_half ld_at_nn ld_from_nn push_rr pop_rr ld_sp
index-Travels p opcode Index.Group.ld_nn = search travel_rules
index-Travels p opcode Index.Group.cb = search (travel_rules, bit_switch-Still) depth 14
index-Travels p opcode _ = search travel_rules depth 14

do_ld_move-Still : (up : Bool) → Still (do_ld_move up)
unfolding do_ld_move
do_ld_move-Still up = search travel_rules depth 20

do_cp_step-Still : (up : Bool) → Still (do_cp_step up)
unfolding do_cp_step
do_cp_step-Still up = search travel_rules depth 20

do_in_step-Still : (up : Bool) → Still (do_in_step up)
unfolding do_in_step
do_in_step-Still up = search travel_rules depth 20

do_out_step-Still : (up : Bool) → Still (do_out_step up)
unfolding do_out_step
do_out_step-Still up = search travel_rules depth 20

pub extended-Travels :
    (sub : ℕ) (g : Extended.Group) → Travels (after_extended g) (Extended.perform sub g)
unfolding after_extended Extended.perform Extended.neg Extended.set_im Extended.ld_i_a
    Extended.ld_r_a Extended.ld_a_ir Extended.in_r_c Extended.out_c_r Extended.output_of
    Extended.set_logical_flags Extended.rotate_nibbles ldi cpi ini outi ld_at_nn ld_from_nn
extended-Travels sub Extended.Group.nop = search travel_rules
extended-Travels sub _ =
    search (travel_rules, do_ld_move-Still, do_cp_step-Still, do_in_step-Still, do_out_step-Still)
      depth 14

swapped_af-Still : Still (modify (λ s. record s { af = s.af_shadow; af_shadow = s.af }))
swapped_af-Still = modify-Still _ (λ s. refl)

exchanged-Still : Still (
    modify λ s. record s {
      bc = s.bc_shadow;
      bc_shadow = s.bc;
      de = s.de_shadow;
      de_shadow = s.de;
      hl = s.hl_shadow;
      hl_shadow = s.hl;
    })
exchanged-Still = modify-Still _ (λ s. refl)

swapped-Still : Still (modify (λ s. record s { de = s.hl; hl = s.de }))
swapped-Still = modify-Still _ (λ s. refl)

pub opcode-Travels :
    (pc opcode : ℕ) (g : Execute.Group) → Travels (after_opcode g) (Execute.perform pc opcode g)
unfolding after_opcode Execute.perform nop halt di ei in_a_n out_n_a cb_prefix ld_rr_nn add_hl_rr
    inc_rr dec_rr inc_r dec_r ld_at_pair_a ld_a_at_pair ld_at_nn_a ld_a_from_nn ld_r_n ld_r_r alu_r
    alu_n ld_at_nn ld_from_nn push_rr pop_rr ld_sp ex_af exx ex_de_hl ex_sp_hl
opcode-Travels pc opcode Execute.Group.no_op = search travel_rules
opcode-Travels pc opcode _ =
    search (travel_rules, bit_switch-Still, swapped_af-Still, exchanged-Still, swapped-Still) depth
      14
