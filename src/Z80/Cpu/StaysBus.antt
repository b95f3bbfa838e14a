-- ===== src/Z80/Cpu/StaysBus.antt =====
-- The same for the larger parts of the Z80's instructions, and the statements that fetch.
use emfe_plugins.Base.{ℕ, zero, suc, ◌+◌, ◌≡◌, refl, ◌∙◌, ap, Bool, u16, arith}
use emfe_plugins.Z80.Cpu.State.{Cpu, M, ◌>>=◌, ◌>>◌, ret}
use emfe_plugins.Z80.Cpu.Bus.{
  write_byte, fetch_byte, fetch_word, Operand, read_operand, write_operand, reg8_read, reg8_write,
}
use emfe_plugins.Z80.Cpu.Alu.{alu_add, alu_sub, alu_cp, alu_and, alu_or, alu_xor, alu_switch, alu}
use emfe_plugins.Z80.Cpu.Pairs.{add_pair16, adc_hl16, sbc_hl16}
use emfe_plugins.Z80.Cpu.Rotate.{
  set_shift_rotate_flags, shifted, rot_rlc, rot_rrc, rot_rl, rot_rr, shift_sla, shift_sra,
  shift_sll, shift_srl, rotate, op_bit,
}
use emfe_plugins.Z80.Cpu.Accumulator.{
  rotated_a, op_rlca, op_rrca, op_rla, op_rra, op_daa, op_cpl, op_scf, op_ccf,
}
use emfe_plugins.Z80.Cpu.Stays.{Still, pc-put_high, pc-put_low, put_high-Still, still_rules}

pub read_operand-Still : (o : Operand) → Still (read_operand o)
unfolding read_operand
read_operand-Still (Operand.high_of p) = search still_rules
read_operand-Still _ = search still_rules

pub write_operand-Still : (o : Operand) (v : ℕ) → Still (write_operand o v)
write_operand-Still (Operand.high_of p) v = record {
  run = λ s. unfold write_operand in pc-put_high p v s;
}
write_operand-Still (Operand.low_of p) v = record {
  run = λ s. unfold write_operand in pc-put_low p v s;
}
write_operand-Still Operand.at_hl v = record { run = λ s. unfold write_operand write_byte in refl }

pub reg8_read-Still : (code : ℕ) → Still (reg8_read code)
reg8_read-Still code = unfold reg8_read in read_operand-Still _

pub reg8_write-Still : (code v : ℕ) → Still (reg8_write code v)
reg8_write-Still code v = unfold reg8_write in write_operand-Still _ v

pub alu_add-Still : (x y : ℕ) (c : Bool) → Still (alu_add x y c)
unfolding alu_add
alu_add-Still x y c = search still_rules

pub alu_sub-Still : (x y : ℕ) (c : Bool) → Still (alu_sub x y c)
unfolding alu_sub
alu_sub-Still x y c = search still_rules

pub alu_switch-Still : (op x : ℕ) (c : Bool) (v : ℕ) → Still (alu_switch op x c v)
unfolding alu_switch alu_and alu_or alu_xor alu_cp
alu_switch-Still op x c v = search (still_rules, alu_add-Still, alu_sub-Still) depth 20

pub alu-Still : (op v : ℕ) → Still (alu op v)
unfolding alu
alu-Still op v = search (still_rules, alu_switch-Still)

pub add_pair16-Still : (x y : ℕ) → Still (add_pair16 x y)
unfolding add_pair16
add_pair16-Still x y = search still_rules

pub adc_hl16-Still : (y : ℕ) → Still (adc_hl16 y)
unfolding adc_hl16
adc_hl16-Still y = search still_rules

pub sbc_hl16-Still : (y : ℕ) → Still (sbc_hl16 y)
unfolding sbc_hl16
sbc_hl16-Still y = search still_rules

pub shifted-Still : (r : ℕ) (c : Bool) → Still (shifted r c)
unfolding shifted set_shift_rotate_flags
shifted-Still r c = search still_rules

pub rotate-Still : (idx v : ℕ) → Still (rotate idx v)
unfolding rotate rot_rlc rot_rrc rot_rl rot_rr shift_sla shift_sra shift_sll shift_srl
rotate-Still idx v = search (still_rules, shifted-Still) depth 20

pub op_bit-Still : (b v yx : ℕ) → Still (op_bit b v yx)
unfolding op_bit
op_bit-Still b v yx = search still_rules

pub rotated_a-Still : (r : ℕ) (c : Bool) → Still (rotated_a r c)
unfolding rotated_a
rotated_a-Still r c = search still_rules

pub ruleset rotated_rules = (still_rules, rotated_a-Still)

pub op_rlca-Still : Still op_rlca
unfolding op_rlca
op_rlca-Still = search rotated_rules

pub op_rrca-Still : Still op_rrca
unfolding op_rrca
op_rrca-Still = search rotated_rules

pub op_rla-Still : Still op_rla
unfolding op_rla
op_rla-Still = search rotated_rules

pub op_rra-Still : Still op_rra
unfolding op_rra
op_rra-Still = search rotated_rules

pub op_daa-Still : Still op_daa
unfolding op_daa
op_daa-Still = search still_rules

pub op_cpl-Still : Still op_cpl
unfolding op_cpl
op_cpl-Still = search still_rules

pub op_scf-Still : Still op_scf
unfolding op_scf
op_scf-Still = search still_rules

pub op_ccf-Still : Still op_ccf
unfolding op_ccf
op_ccf-Still = search still_rules

pub ruleset pc_rules = (
  still_rules, put_high-Still, read_operand-Still, write_operand-Still, reg8_read-Still,
  reg8_write-Still, alu_sub-Still, alu-Still, add_pair16-Still, adc_hl16-Still, sbc_hl16-Still,
  rotate-Still, op_bit-Still, op_rlca-Still, op_rrca-Still, op_rla-Still, op_rra-Still,
  op_daa-Still, op_cpl-Still, op_scf-Still, op_ccf-Still,
)

-- the PC behind `k` fetched bytes
unfoldable pub ahead : ℕ → ℕ → ℕ
ahead zero pc = pc
ahead (suc k) pc = ahead k (u16 (pc + 1))

pub ahead_lem : (k pc : ℕ) → ahead (suc k) pc ≡ u16 (pc + suc k)
unfolding ahead
ahead_lem zero pc = omega arith
ahead_lem (suc k) pc = ahead_lem k (u16 (pc + 1)) ∙ omega arith

-- the statement fetches `k` bytes and does not jump
pub record Moves {A : Type 0} (k : ℕ) (m : M A) : Type 0 where
  pub run : (s : Cpu) → (m s).1.pc ≡ ahead k s.pc

pub Still-Moves : {A : Type 0} {m : M A} → Still m → Moves 0 m
Still-Moves h = record { run = λ s. unfold ahead in h.run s }

pub bind-Moves :
    {A B : Type 0} {n : ℕ} {m : M A} {k : A → M B}
    → Still m
    → ((x : A) → Moves n (k x))
    → Moves n (m >>= k)
bind-Moves {n = n} {m = m} h g = record {
  run = λ s. unfold ◌>>=◌ in (g (m s).0).run (m s).1 ∙ ap (ahead n) (h.run s);
}

pub then-Moves :
    {B : Type 0} {n : ℕ} {m : M (Unit {0})} {k : M B} → Still m → Moves n k → Moves n (m >> k)
then-Moves {n = n} {m = m} h g = record {
  run = λ s. unfold ◌>>◌ in g.run (m s).1 ∙ ap (ahead n) (h.run s);
}

pub fetch_byte-Moves :
    {B : Type 0} {n : ℕ} {k : ℕ → M B}
    → ((x : ℕ) → Moves n (k x))
    → Moves (suc n) (fetch_byte >>= k)
fetch_byte-Moves {n = n} g = record { run = λ s. unfold ◌>>=◌ fetch_byte ahead in (g _).run _ }

pub fetch_word-Moves :
    {B : Type 0} {n : ℕ} {k : ℕ → M B}
    → ((x : ℕ) → Moves n (k x))
    → Moves (suc (suc n)) (fetch_word >>= k)
fetch_word-Moves {n = n} g = record {
  run = λ s. unfold ◌>>=◌ fetch_word fetch_byte ret ahead in (g _).run _;
}

pub ruleset move_rules =
    (pc_rules, Still-Moves, bind-Moves, then-Moves, fetch_byte-Moves, fetch_word-Moves)
