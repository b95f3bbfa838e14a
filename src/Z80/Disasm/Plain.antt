-- ===== src/Z80/Disasm/Plain.antt =====
-- z80/src/Z80Disasm.cpp: `decodePlain`.
use Prim.Native.String.{String}
use emfe_plugins.Base.{ℕ, ◌*◌, ◌/◌, List, [], ◌∷◌, ◌&&◌, bit_and, leb, ◌==◌, if◌then◌else◌}
use emfe_plugins.Z80.Disasm.{
  Piece, lit, Form, row, k_reg8, k_pair_sp, k_pair_af, k_cc, k_alu_mnem, a_prefix, pair_code, field,
}

abbrev plain : String → Form
plain mnem = row mnem []

abbrev text : String → String → Form
text mnem ops = row mnem (lit ops ∷ [])

-- `std::string(k_cc[cc]) + ", "` before a piece
abbrev if_cond : ℕ → Piece → List Piece
unfolding k_cc
if_cond cc p = lit (k_cc cc) ∷ lit ", " ∷ p ∷ []

-- the tests from the stack on
unfoldable pub stack_form : ℕ → Form
unfolding k_pair_af
stack_form opcode =
    if bit_and opcode 0xCF == 0xC5
    then text "PUSH" (k_pair_af (pair_code opcode))
    else if bit_and opcode 0xCF == 0xC1
    then text "POP" (k_pair_af (pair_code opcode))
    else if opcode == 0xDB
    then row "IN" (lit "A, " ∷ Piece.indr8 ∷ [])
    else if opcode == 0xD3
    then row "OUT" (Piece.indr8 ∷ lit ", A" ∷ [])
    else row "DB" (Piece.value opcode ∷ [])

-- the tests of the jumps, calls and returns
unfoldable pub jump_form : ℕ → Form
unfolding stack_form k_cc
jump_form opcode =
    if opcode == 0x18
    then row "JR" (Piece.rel ∷ [])
    else if opcode == 0x10
    then row "DJNZ" (Piece.rel ∷ [])
    else if bit_and opcode 0xE7 == 0x20
    then row "JR" (if_cond (bit_and (opcode / 8) 0x03) Piece.rel)
    else if opcode == 0xC3
    then row "JP" (Piece.imm16 ∷ [])
    else if opcode == 0xE9
    then text "JP" "(HL)"
    else if bit_and opcode 0xC7 == 0xC2
    then row "JP" (if_cond (field opcode) Piece.imm16)
    else if opcode == 0xCD
    then row "CALL" (Piece.imm16 ∷ [])
    else if bit_and opcode 0xC7 == 0xC4
    then row "CALL" (if_cond (field opcode) Piece.imm16)
    else if opcode == 0xC9
    then plain "RET"
    else if bit_and opcode 0xC7 == 0xC0
    then text "RET" (k_cc (field opcode))
    else if bit_and opcode 0xC7 == 0xC7
    then row "RST" (Piece.value (field opcode * 8) ∷ [])
    else stack_form opcode

-- the tests of the loads and of the arithmetic
unfoldable pub load_form : ℕ → Form
unfolding jump_form k_reg8 k_alu_mnem a_prefix
load_form opcode =
    if opcode == 0x02
    then text "LD" "(BC), A"
    else if opcode == 0x12
    then text "LD" "(DE), A"
    else if opcode == 0x0A
    then text "LD" "A, (BC)"
    else if opcode == 0x1A
    then text "LD" "A, (DE)"
    else if opcode == 0x22
    then row "LD" (Piece.ind16 ∷ lit ", HL" ∷ [])
    else if opcode == 0x2A
    then row "LD" (lit "HL, " ∷ Piece.ind16 ∷ [])
    else if opcode == 0x32
    then row "LD" (Piece.ind16 ∷ lit ", A" ∷ [])
    else if opcode == 0x3A
    then row "LD" (lit "A, " ∷ Piece.ind16 ∷ [])
    else if bit_and opcode 0xC7 == 0x06
    then row "LD" (lit (k_reg8 (field opcode)) ∷ lit ", " ∷ Piece.imm8 ∷ [])
    else if leb 0x40 opcode && leb opcode 0x7F
    then row "LD" (lit (k_reg8 (field opcode)) ∷ lit ", " ∷ lit (k_reg8 (bit_and opcode 0x07)) ∷ [])
    else if bit_and opcode 0xC0 == 0x80
    then row (k_alu_mnem (field opcode))
        (lit (a_prefix (field opcode)) ∷ lit (k_reg8 (bit_and opcode 0x07)) ∷ [])
    else if bit_and opcode 0xC7 == 0xC6
    then row (k_alu_mnem (field opcode)) (lit (a_prefix (field opcode)) ∷ Piece.imm8 ∷ [])
    else jump_form opcode

-- the tests of the pairs and of the steps
unfoldable pub pair_form : ℕ → Form
unfolding load_form k_reg8 k_pair_sp
pair_form opcode =
    if bit_and opcode 0xCF == 0x01
    then row "LD" (lit (k_pair_sp (pair_code opcode)) ∷ lit ", " ∷ Piece.imm16 ∷ [])
    else if bit_and opcode 0xCF == 0x09
    then row "ADD" (lit "HL, " ∷ lit (k_pair_sp (pair_code opcode)) ∷ [])
    else if bit_and opcode 0xCF == 0x03
    then text "INC" (k_pair_sp (pair_code opcode))
    else if bit_and opcode 0xCF == 0x0B
    then text "DEC" (k_pair_sp (pair_code opcode))
    else if bit_and opcode 0xC7 == 0x04
    then text "INC" (k_reg8 (field opcode))
    else if bit_and opcode 0xC7 == 0x05
    then text "DEC" (k_reg8 (field opcode))
    else load_form opcode

unfoldable pub decode_plain : ℕ → Form
unfolding pair_form
decode_plain opcode =
    if opcode == 0x00
    then plain "NOP"
    else if opcode == 0x76
    then plain "HALT"
    else if opcode == 0xF3
    then plain "DI"
    else if opcode == 0xFB
    then plain "EI"
    else if opcode == 0x08
    then text "EX" "AF, AF'"
    else if opcode == 0xD9
    then plain "EXX"
    else if opcode == 0xE3
    then text "EX" "(SP), HL"
    else if opcode == 0xEB
    then text "EX" "DE, HL"
    else if opcode == 0x07
    then plain "RLCA"
    else if opcode == 0x0F
    then plain "RRCA"
    else if opcode == 0x17
    then plain "RLA"
    else if opcode == 0x1F
    then plain "RRA"
    else if opcode == 0x27
    then plain "DAA"
    else if opcode == 0x2F
    then plain "CPL"
    else if opcode == 0x37
    then plain "SCF"
    else if opcode == 0x3F
    then plain "CCF"
    else pair_form opcode
