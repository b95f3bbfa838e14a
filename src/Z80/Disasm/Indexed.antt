-- ===== src/Z80/Disasm/Indexed.antt =====
-- z80/src/Z80Disasm.cpp: `decodeDdFd`, behind the prefix DD or FD. `xy` is the name of the register,
-- and `prefix` the text of the prefix that the name stands for.
use Prim.Native.String.{String}
use emfe_plugins.Base.{ℕ, Bool, List, [], ◌∷◌, ◌++◌, ◌||◌, ◌&&◌, not, bit_and, ◌==◌, if◌then◌else◌}
use emfe_plugins.Z80.Disasm.{
  Piece, lit, Form, row, k_reg8, k_pair_sp, k_alu_mnem, a_prefix, pair_code, field,
}

-- `"(" + xy + disp_str(d) + ")"`
abbrev at : String → List Piece
at xy = lit "(" ∷ lit xy ∷ Piece.disp ∷ lit ")" ∷ []

-- `regName`
unfoldable pub reg_name : String → ℕ → List Piece
unfolding k_reg8
reg_name xy code =
    if code == 4
    then lit xy ∷ lit "H" ∷ []
    else if code == 5
    then lit xy ∷ lit "L" ∷ []
    else lit (k_reg8 code) ∷ []

-- `regH` or `regL`, by the code 4 or 5
abbrev half : String → ℕ → List Piece
half xy code = lit xy ∷ lit (if code == 4 then "H" else "L") ∷ []

abbrev is_halves : ℕ → ℕ → Bool
is_halves dst src =
    not (dst == 6) && not (src == 6) && (dst == 4 || dst == 5 || src == 4 || src == 5)

-- the tests of the page CB and of no case
unfoldable pub last_form : String → String → ℕ → Form
last_form xy prefix opcode =
    if opcode == 0xCB
    then Form.page_cb xy
    else row "DB" (lit prefix ∷ lit ", " ∷ Piece.value opcode ∷ [])

-- the tests of the halves
unfoldable pub half_form : String → String → ℕ → Form
unfolding last_form reg_name k_alu_mnem a_prefix
half_form xy prefix opcode =
    if opcode == 0x24
    then row "INC" (half xy 4)
    else if opcode == 0x2C
    then row "INC" (half xy 5)
    else if opcode == 0x25
    then row "DEC" (half xy 4)
    else if opcode == 0x2D
    then row "DEC" (half xy 5)
    else if opcode == 0x26
    then row "LD" (half xy 4 ++ (lit ", " ∷ Piece.imm8 ∷ []))
    else if opcode == 0x2E
    then row "LD" (half xy 5 ++ (lit ", " ∷ Piece.imm8 ∷ []))
    else if bit_and opcode 0xC0 == 0x40
        && not (opcode == 0x76)
        && is_halves (field opcode) (bit_and opcode 0x07)
    then row "LD" (reg_name xy (field opcode) ++ (lit ", " ∷ reg_name xy (bit_and opcode 0x07)))
    else if bit_and opcode 0xC0 == 0x80 && (bit_and opcode 0x07 == 4 || bit_and opcode 0x07 == 5)
    then row (k_alu_mnem (field opcode))
        (lit (a_prefix (field opcode)) ∷ half xy (bit_and opcode 0x07))
    else last_form xy prefix opcode

-- the tests of the operand at the register and a displacement
unfoldable pub memory_form : String → String → ℕ → Form
unfolding half_form k_reg8 k_alu_mnem a_prefix
memory_form xy prefix opcode =
    if opcode == 0x36
    then row "LD" (at xy ++ (lit ", " ∷ Piece.imm8 ∷ []))
    else if bit_and opcode 0xC7 == 0x46 && not (opcode == 0x76)
    then row "LD" (lit (k_reg8 (field opcode)) ∷ lit ", " ∷ at xy)
    else if bit_and opcode 0xF8 == 0x70 && not (opcode == 0x76)
    then row "LD" (at xy ++ (lit ", " ∷ lit (k_reg8 (bit_and opcode 0x07)) ∷ []))
    else if opcode == 0x34 || opcode == 0x35
    then row (if opcode == 0x34 then "INC" else "DEC") (at xy)
    else if bit_and opcode 0xC7 == 0x86
    then row (k_alu_mnem (field opcode)) (lit (a_prefix (field opcode)) ∷ at xy)
    else half_form xy prefix opcode

unfoldable pub decode_dd_fd : String → String → ℕ → Form
unfolding memory_form k_pair_sp
decode_dd_fd xy prefix opcode =
    if opcode == 0x21
    then row "LD" (lit xy ∷ lit ", " ∷ Piece.imm16 ∷ [])
    else if opcode == 0x22
    then row "LD" (Piece.ind16 ∷ lit ", " ∷ lit xy ∷ [])
    else if opcode == 0x2A
    then row "LD" (lit xy ∷ lit ", " ∷ Piece.ind16 ∷ [])
    else if opcode == 0x23
    then row "INC" (lit xy ∷ [])
    else if opcode == 0x2B
    then row "DEC" (lit xy ∷ [])
    else if bit_and opcode 0xCF == 0x09
    then row "ADD" (
        lit xy
        ∷ lit ", "
        ∷ lit (if pair_code opcode == 2 then xy else k_pair_sp (pair_code opcode))
        ∷ [])
    else if opcode == 0xE5
    then row "PUSH" (lit xy ∷ [])
    else if opcode == 0xE1
    then row "POP" (lit xy ∷ [])
    else if opcode == 0xE9
    then row "JP" (lit "(" ∷ lit xy ∷ lit ")" ∷ [])
    else if opcode == 0xF9
    then row "LD" (lit "SP, " ∷ lit xy ∷ [])
    else memory_form xy prefix opcode
