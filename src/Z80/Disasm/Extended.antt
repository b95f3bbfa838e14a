-- ===== src/Z80/Disasm/Extended.antt =====
-- z80/src/Z80Disasm.cpp: `decodeEd`, behind the prefix ED.
use Prim.Native.String.{String}
use emfe_plugins.Base.{ℕ, [], ◌∷◌, ◌||◌, bit_and, ◌==◌, if◌then◌else◌}
use emfe_plugins.Z80.Disasm.{Piece, Form, k_reg8, k_pair_sp, pair_code, field}

abbrev plain : String → Form
plain mnem = Form.row mnem []

abbrev text : String → String → Form
text mnem ops = Form.row mnem (Piece.lit ops ∷ [])

-- `switch (sub)` and the unassigned opcodes
unfoldable pub block_form : ℕ → Form
block_form sub =
    if sub == 0xA0
    then plain "LDI"
    else if sub == 0xA8
    then plain "LDD"
    else if sub == 0xB0
    then plain "LDIR"
    else if sub == 0xB8
    then plain "LDDR"
    else if sub == 0xA1
    then plain "CPI"
    else if sub == 0xA9
    then plain "CPD"
    else if sub == 0xB1
    then plain "CPIR"
    else if sub == 0xB9
    then plain "CPDR"
    else if sub == 0xA2
    then plain "INI"
    else if sub == 0xAA
    then plain "IND"
    else if sub == 0xB2
    then plain "INIR"
    else if sub == 0xBA
    then plain "INDR"
    else if sub == 0xA3
    then plain "OUTI"
    else if sub == 0xAB
    then plain "OUTD"
    else if sub == 0xB3
    then plain "OTIR"
    else if sub == 0xBB
    then plain "OTDR"
    else plain "NOP*"

-- from the loads of I and R on
unfoldable pub io_form : ℕ → Form
unfolding block_form k_reg8
io_form sub =
    if sub == 0x47
    then text "LD" "I, A"
    else if sub == 0x4F
    then text "LD" "R, A"
    else if sub == 0x57
    then text "LD" "A, I"
    else if sub == 0x5F
    then text "LD" "A, R"
    else if bit_and sub 0xC7 == 0x40
    then (if field sub == 6
        then text "IN" "(C)"
        else Form.row "IN" (Piece.lit (k_reg8 (field sub)) ∷ Piece.lit ", (C)" ∷ []))
    else if bit_and sub 0xC7 == 0x41
    then (if field sub == 6
        then text "OUT" "(C), 0"
        else Form.row "OUT" (Piece.lit "(C), " ∷ Piece.lit (k_reg8 (field sub)) ∷ []))
    else if sub == 0x67
    then plain "RRD"
    else if sub == 0x6F
    then plain "RLD"
    else block_form sub

unfoldable pub decode_ed : ℕ → Form
unfolding io_form k_pair_sp
decode_ed sub =
    if bit_and sub 0xCF == 0x4A
    then Form.row "ADC" (Piece.lit "HL, " ∷ Piece.lit (k_pair_sp (pair_code sub)) ∷ [])
    else if bit_and sub 0xCF == 0x42
    then Form.row "SBC" (Piece.lit "HL, " ∷ Piece.lit (k_pair_sp (pair_code sub)) ∷ [])
    else if bit_and sub 0xCF == 0x43
    then Form.row "LD" (Piece.ind16 ∷ Piece.lit ", " ∷ Piece.lit (k_pair_sp (pair_code sub)) ∷ [])
    else if bit_and sub 0xCF == 0x4B
    then Form.row "LD" (Piece.lit (k_pair_sp (pair_code sub)) ∷ Piece.lit ", " ∷ Piece.ind16 ∷ [])
    else if bit_and sub 0xC7 == 0x44
    then plain "NEG"
    else if sub == 0x4D
    then plain "RETI"
    else if bit_and sub 0xC7 == 0x45
    then plain "RETN"
    else if sub == 0x46 || sub == 0x66 || sub == 0x4E || sub == 0x6E
    then text "IM" "0"
    else if sub == 0x56 || sub == 0x76
    then text "IM" "1"
    else if sub == 0x5E || sub == 0x7E
    then text "IM" "2"
    else io_form sub
