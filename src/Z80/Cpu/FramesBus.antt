-- ===== src/Z80/Cpu/FramesBus.antt =====
-- The frame rules of the Z80's bus accesses and of its arithmetic.
use emfe_plugins.Base.{ℕ, Bool, arith}
use emfe_plugins.Z80.Cpu.Bus.{
  read_byte, write_byte, read_word, write_word, read_io, write_io, fetch_byte, fetch_word, Operand,
  read_operand, write_operand, reg8_read, reg8_write, push16, pop16, jump_by,
}
use emfe_plugins.Z80.Cpu.Alu.{alu_add, alu_sub, alu_cp, alu_and, alu_or, alu_xor, alu_switch, alu}
use emfe_plugins.Z80.Cpu.Pairs.{add_pair16, adc_hl16, sbc_hl16}
use emfe_plugins.Z80.Cpu.Rotate.{
  set_shift_rotate_flags, shifted, rot_rlc, rot_rrc, rot_rl, rot_rr, shift_sla, shift_sra,
  shift_sll, shift_srl, rotate, op_bit,
}
use emfe_plugins.Z80.Cpu.Accumulator.{
  rotated_a, op_rlca, op_rrca, op_rla, op_rra, op_daa, op_cpl, op_scf, op_ccf,
}
use emfe_plugins.Z80.Cpu.Frames.{Kept-refl, put_high-Kept, put_low-Kept, Quiet, frame_rules}

pub read_byte-Quiet : (addr : ℕ) → Quiet (read_byte addr)
read_byte-Quiet addr = record { run = λ s. unfold read_byte in ground arith }

pub write_byte-Quiet : (addr v : ℕ) → Quiet (write_byte addr v)
write_byte-Quiet addr v = record { run = λ s. unfold write_byte in ground arith }

pub read_word-Quiet : (addr : ℕ) → Quiet (read_word addr)
read_word-Quiet addr = record { run = λ s. unfold read_word in Kept-refl s }

pub write_word-Quiet : (addr v : ℕ) → Quiet (write_word addr v)
write_word-Quiet addr v = record { run = λ s. unfold write_word in ground arith }

pub read_io-Quiet : (port : ℕ) → Quiet (read_io port)
read_io-Quiet port = record { run = λ s. unfold read_io in ground arith }

pub write_io-Quiet : (port v : ℕ) → Quiet (write_io port v)
write_io-Quiet port v = record { run = λ s. unfold write_io in ground arith }

pub fetch_byte-Quiet : Quiet fetch_byte
fetch_byte-Quiet = record { run = λ s. unfold fetch_byte in ground arith }

pub push16-Quiet : (v : ℕ) → Quiet (push16 v)
push16-Quiet v = record { run = λ s. unfold push16 in ground arith }

pub pop16-Quiet : Quiet pop16
pop16-Quiet = record { run = λ s. unfold pop16 in ground arith }

pub jump_by-Quiet : (b : ℕ) → Quiet (jump_by b)
jump_by-Quiet b = record { run = λ s. unfold jump_by in ground arith }

pub ruleset bus_rules = (
  frame_rules, read_byte-Quiet, write_byte-Quiet, read_word-Quiet, write_word-Quiet, read_io-Quiet,
  write_io-Quiet, fetch_byte-Quiet, push16-Quiet, pop16-Quiet, jump_by-Quiet,
)

pub fetch_word-Quiet : Quiet fetch_word
unfolding fetch_word
fetch_word-Quiet = search bus_rules

pub read_operand-Quiet : (o : Operand) → Quiet (read_operand o)
unfolding read_operand
read_operand-Quiet (Operand.high_of p) = search bus_rules
read_operand-Quiet _ = search bus_rules

pub write_operand-Quiet : (o : Operand) (v : ℕ) → Quiet (write_operand o v)
write_operand-Quiet (Operand.high_of p) v = record {
  run = λ s. unfold write_operand in put_high-Kept p v s;
}
write_operand-Quiet (Operand.low_of p) v = record {
  run = λ s. unfold write_operand in put_low-Kept p v s;
}
write_operand-Quiet Operand.at_hl v = record {
  run = λ s. unfold write_operand write_byte in ground arith;
}

pub reg8_read-Quiet : (code : ℕ) → Quiet (reg8_read code)
reg8_read-Quiet code = unfold reg8_read in read_operand-Quiet _

pub reg8_write-Quiet : (code v : ℕ) → Quiet (reg8_write code v)
reg8_write-Quiet code v = unfold reg8_write in write_operand-Quiet _ v

alu_add-Quiet : (x y : ℕ) (c : Bool) → Quiet (alu_add x y c)
unfolding alu_add
alu_add-Quiet x y c = search bus_rules

pub alu_sub-Quiet : (x y : ℕ) (c : Bool) → Quiet (alu_sub x y c)
unfolding alu_sub
alu_sub-Quiet x y c = search bus_rules

alu_switch-Quiet : (op x : ℕ) (c : Bool) (v : ℕ) → Quiet (alu_switch op x c v)
unfolding alu_switch alu_and alu_or alu_xor alu_cp
alu_switch-Quiet op x c v = search (bus_rules, alu_add-Quiet, alu_sub-Quiet) depth 20

pub alu-Quiet : (op v : ℕ) → Quiet (alu op v)
unfolding alu
alu-Quiet op v = search (bus_rules, alu_switch-Quiet)

pub add_pair16-Quiet : (x y : ℕ) → Quiet (add_pair16 x y)
unfolding add_pair16
add_pair16-Quiet x y = search bus_rules

pub adc_hl16-Quiet : (y : ℕ) → Quiet (adc_hl16 y)
unfolding adc_hl16
adc_hl16-Quiet y = search bus_rules

pub sbc_hl16-Quiet : (y : ℕ) → Quiet (sbc_hl16 y)
unfolding sbc_hl16
sbc_hl16-Quiet y = search bus_rules

shifted-Quiet : (r : ℕ) (c : Bool) → Quiet (shifted r c)
unfolding shifted set_shift_rotate_flags
shifted-Quiet r c = search bus_rules

pub rotate-Quiet : (idx v : ℕ) → Quiet (rotate idx v)
unfolding rotate rot_rlc rot_rrc rot_rl rot_rr shift_sla shift_sra shift_sll shift_srl
rotate-Quiet idx v = search (bus_rules, shifted-Quiet) depth 20

pub op_bit-Quiet : (b v yx : ℕ) → Quiet (op_bit b v yx)
unfolding op_bit
op_bit-Quiet b v yx = search bus_rules

pub rotated_a-Quiet : (r : ℕ) (c : Bool) → Quiet (rotated_a r c)
unfolding rotated_a
rotated_a-Quiet r c = search bus_rules

ruleset rotated_rules = (bus_rules, rotated_a-Quiet)

pub op_rlca-Quiet : Quiet op_rlca
unfolding op_rlca
op_rlca-Quiet = search rotated_rules

pub op_rrca-Quiet : Quiet op_rrca
unfolding op_rrca
op_rrca-Quiet = search rotated_rules

pub op_rla-Quiet : Quiet op_rla
unfolding op_rla
op_rla-Quiet = search rotated_rules

pub op_rra-Quiet : Quiet op_rra
unfolding op_rra
op_rra-Quiet = search rotated_rules

pub op_daa-Quiet : Quiet op_daa
unfolding op_daa
op_daa-Quiet = search bus_rules

pub op_cpl-Quiet : Quiet op_cpl
unfolding op_cpl
op_cpl-Quiet = search bus_rules

pub op_scf-Quiet : Quiet op_scf
unfolding op_scf
op_scf-Quiet = search bus_rules

pub op_ccf-Quiet : Quiet op_ccf
unfolding op_ccf
op_ccf-Quiet = search bus_rules

pub ruleset part_rules = (
  bus_rules, fetch_word-Quiet, read_operand-Quiet, write_operand-Quiet, reg8_read-Quiet,
  reg8_write-Quiet, alu_sub-Quiet, alu-Quiet, add_pair16-Quiet, adc_hl16-Quiet, sbc_hl16-Quiet,
  rotate-Quiet, op_bit-Quiet, op_rlca-Quiet, op_rrca-Quiet, op_rla-Quiet, op_rra-Quiet,
  op_daa-Quiet, op_cpl-Quiet, op_scf-Quiet, op_ccf-Quiet,
)
