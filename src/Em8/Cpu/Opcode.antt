-- ===== src/Em8/Cpu/Opcode.antt =====
-- em8/src/Em8Cpu.cpp: the case labels of the switch in `ExecuteOne`, in groups as its headings.
use emfe_plugins.Base.{ℕ, List, [], ◌∷◌, ◌==◌, if◌then◌else◌}

pub data Alu : Type 0 where
  add_imm add_zpg add_abs sub_imm sub_zpg sub_abs and_imm and_zpg ora_imm ora_zpg : Alu
  xor_imm xor_zpg cmp_imm cmp_zpg cmp_abs cpx_imm cpy_imm : Alu

pub data Unary : Type 0 where
  asl_a lsr_a rol_a ror_a inc_a dec_a inx dex iny dey : Unary

pub data Branch : Type 0 where
  beq bne bcs bcc bmi bpl bvs bvc bra : Branch

pub data Jump : Type 0 where
  jmp_abs jsr_abs rts rti : Jump

pub data Stack : Type 0 where
  pha pla phf plf : Stack

pub data Transfer : Type 0 where
  tax txa tay tya txs tsx : Transfer

pub data System : Type 0 where
  clc sec cli sei clv nop brk hlt : System

pub data Load : Type 0 where
  lda_imm lda_zpg lda_abs lda_zpg_x lda_abs_x lda_ind : Load
  ldx_imm ldx_zpg ldx_abs ldy_imm ldy_zpg ldy_abs : Load

pub data Store : Type 0 where
  sta_zpg sta_abs sta_zpg_x sta_abs_x sta_ind stx_zpg stx_abs sty_zpg sty_abs : Store

pub data Opcode : Type 0 where
  alu : Alu → Opcode
  unary : Unary → Opcode
  branch : Branch → Opcode
  jump : Jump → Opcode
  stack : Stack → Opcode
  transfer : Transfer → Opcode
  system : System → Opcode
  load : Load → Opcode
  store : Store → Opcode
  undefined : Opcode

abbrev labels : List (ℕ × Opcode)
labels =
    (0x10, alu add_imm)
    ∷ (0x11, alu add_zpg)
    ∷ (0x12, alu add_abs)
    ∷ (0x14, alu sub_imm)
    ∷ (0x15, alu sub_zpg)
    ∷ (0x16, alu sub_abs)
    ∷ (0x18, alu and_imm)
    ∷ (0x19, alu and_zpg)
    ∷ (0x1c, alu ora_imm)
    ∷ (0x1d, alu ora_zpg)
    ∷ (0x20, alu xor_imm)
    ∷ (0x21, alu xor_zpg)
    ∷ (0x24, alu cmp_imm)
    ∷ (0x25, alu cmp_zpg)
    ∷ (0x26, alu cmp_abs)
    ∷ (0x38, alu cpx_imm)
    ∷ (0x3c, alu cpy_imm)
    ∷ (0x40, unary asl_a)
    ∷ (0x41, unary lsr_a)
    ∷ (0x42, unary rol_a)
    ∷ (0x43, unary ror_a)
    ∷ (0x48, unary inc_a)
    ∷ (0x49, unary dec_a)
    ∷ (0x4a, unary inx)
    ∷ (0x4b, unary dex)
    ∷ (0x4c, unary iny)
    ∷ (0x4d, unary dey)
    ∷ (0x50, branch beq)
    ∷ (0x51, branch bne)
    ∷ (0x52, branch bcs)
    ∷ (0x53, branch bcc)
    ∷ (0x54, branch bmi)
    ∷ (0x55, branch bpl)
    ∷ (0x56, branch bvs)
    ∷ (0x57, branch bvc)
    ∷ (0x58, branch bra)
    ∷ (0x60, jump jmp_abs)
    ∷ (0x61, jump jsr_abs)
    ∷ (0x62, jump rts)
    ∷ (0x63, jump rti)
    ∷ (0x70, stack pha)
    ∷ (0x71, stack pla)
    ∷ (0x72, stack phf)
    ∷ (0x73, stack plf)
    ∷ (0x80, transfer tax)
    ∷ (0x81, transfer txa)
    ∷ (0x82, transfer tay)
    ∷ (0x83, transfer tya)
    ∷ (0x84, transfer txs)
    ∷ (0x85, transfer tsx)
    ∷ (0x90, system clc)
    ∷ (0x91, system sec)
    ∷ (0x92, system cli)
    ∷ (0x93, system sei)
    ∷ (0x94, system clv)
    ∷ (0x98, system nop)
    ∷ (0x99, system brk)
    ∷ (0x9a, system hlt)
    ∷ (0xa0, load lda_imm)
    ∷ (0xa1, load lda_zpg)
    ∷ (0xa2, load lda_abs)
    ∷ (0xa3, load lda_zpg_x)
    ∷ (0xa4, load lda_abs_x)
    ∷ (0xa5, load lda_ind)
    ∷ (0xa6, load ldx_imm)
    ∷ (0xa7, load ldx_zpg)
    ∷ (0xa8, load ldx_abs)
    ∷ (0xa9, load ldy_imm)
    ∷ (0xaa, load ldy_zpg)
    ∷ (0xab, load ldy_abs)
    ∷ (0xac, store sta_zpg)
    ∷ (0xad, store sta_abs)
    ∷ (0xae, store sta_zpg_x)
    ∷ (0xaf, store sta_abs_x)
    ∷ (0xb0, store sta_ind)
    ∷ (0xb1, store stx_zpg)
    ∷ (0xb2, store stx_abs)
    ∷ (0xb3, store sty_zpg)
    ∷ (0xb4, store sty_abs)
    ∷ []

lookup : ℕ → List (ℕ × Opcode) → Opcode
lookup op [] = undefined
lookup op ((label, o) ∷ rest) = if op == label then o else lookup op rest

-- the case that the switch takes
unfoldable pub decode : ℕ → Opcode
unfolding lookup
decode op = lookup op labels
