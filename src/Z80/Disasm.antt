-- ===== src/Z80/Disasm.antt =====
-- z80/src/Z80Disasm.h and Z80Disasm.cpp: the reader, the tables and the texts that the decoders
-- build. The pointer to the memory is never null.
--
-- A case of a decoder is a mnemonic and the list of the pieces that its operands are concatenated
-- from. A piece that formats an immediate fetches its bytes; the code fetches in the order of the
-- pieces.
pub mod Plain
pub mod Extended
pub mod Indexed
pub mod Decode
pub mod Reads
pub mod Sizes
pub mod Agree
use Prim.Native.String.{String}
use emfe_plugins.Base.{
  ℕ, zero, suc, ◌+◌, ◌*◌, ◌/◌, ◌%◌, ◌-◌, List, [], ◌∷◌, ◌++◌, bit_and, bit_or, ltb, ◌==◌,
  if◌then◌else◌, u16, add_offset,
}
use emfe_plugins.Base.Text.{codes, hex_byte, hex_word}
use emfe_plugins.Z80.Memory
use emfe_plugins.Z80.Memory.{Memory}

pub record Result : Type 0 where
  pub mnemonic : List ℕ
  pub operands : List ℕ
  pub raw_bytes : List ℕ
  pub length : ℕ

-- the memory that `mem` points to is a part of it
pub record Reader : Type 0 where
  pub mem : Memory
  pub pc : ℕ
  pub length : ℕ
  pub raw : List ℕ

-- `if (!raw.empty()) raw += ' '; raw += hex2(b);`
unfoldable pub append_raw : List ℕ → ℕ → List ℕ
append_raw [] b = hex_byte b
append_raw raw b = raw ++ (b' ' ∷ hex_byte b)

unfoldable pub fetch : Reader → ℕ × Reader
unfolding append_raw
fetch r =
    let (b, m) = Memory.read_byte r.pc r.mem in
    (b, record { mem = m; pc = u16 (r.pc + 1); length = suc r.length; raw = append_raw r.raw b })

unfoldable pub fetch_word : Reader → ℕ × Reader
unfolding fetch
fetch_word r = let (lo, r1) = fetch r in let (hi, r2) = fetch r1 in (u16 (bit_or lo (hi * 256)), r2)

-- `k_reg8` to `k_rot_mnem`, at an index in range
abbrev pub nth : List String → ℕ → String
nth [] n = ""
nth (x ∷ xs) zero = x
nth (x ∷ xs) (suc n) = nth xs n

unfoldable pub k_reg8 : ℕ → String
k_reg8 code = nth ("B" ∷ "C" ∷ "D" ∷ "E" ∷ "H" ∷ "L" ∷ "(HL)" ∷ "A" ∷ []) code

unfoldable pub k_pair_sp : ℕ → String
k_pair_sp code = nth ("BC" ∷ "DE" ∷ "HL" ∷ "SP" ∷ []) code

unfoldable pub k_pair_af : ℕ → String
k_pair_af code = nth ("BC" ∷ "DE" ∷ "HL" ∷ "AF" ∷ []) code

unfoldable pub k_cc : ℕ → String
k_cc code = nth ("NZ" ∷ "Z" ∷ "NC" ∷ "C" ∷ "PO" ∷ "PE" ∷ "P" ∷ "M" ∷ []) code

unfoldable pub k_alu_mnem : ℕ → String
k_alu_mnem op = nth ("ADD" ∷ "ADC" ∷ "SUB" ∷ "SBC" ∷ "AND" ∷ "XOR" ∷ "OR" ∷ "CP" ∷ []) op

-- `k_alu_takes_a_prefix[op] ? "A, " : ""`
unfoldable pub a_prefix : ℕ → String
a_prefix op = nth ("A, " ∷ "A, " ∷ "" ∷ "A, " ∷ "" ∷ "" ∷ "" ∷ "" ∷ []) op

unfoldable pub k_rot_mnem : ℕ → String
k_rot_mnem idx = nth ("RLC" ∷ "RRC" ∷ "RL" ∷ "RR" ∷ "SLA" ∷ "SRA" ∷ "SLL" ∷ "SRL" ∷ []) idx

-- `(op >> 4) & 3` and `(op >> 3) & 7`
abbrev pub pair_code : ℕ → ℕ
pair_code op = bit_and (op / 16) 3

abbrev pub field : ℕ → ℕ
field op = bit_and (op / 8) 7

-- `%d` and `std::to_string` of a number below 1000
unfoldable pub decimal : ℕ → List ℕ
decimal v =
    if ltb v 10
    then (b'0' + v) ∷ []
    else if ltb v 100
    then (b'0' + v / 10) ∷ (b'0' + v % 10) ∷ []
    else (b'0' + v / 100) ∷ (b'0' + v / 10 % 10) ∷ (b'0' + v % 10) ∷ []

-- `disp_str` of the `int8_t` of a byte
unfoldable pub disp_str : ℕ → List ℕ
unfolding decimal
disp_str d = if ltb d 128 then b'+' ∷ decimal d else b'-' ∷ decimal (256 - d)

pub data Piece : Type 0 where
  lit : String → Piece
  -- `imm8` of a number at hand
  value : ℕ → Piece
  -- `imm8(r.fetch())`, `indr8(r.fetch())`, `imm16(r.fetchWord())` and `ind16(r.fetchWord())`
  imm8 indr8 imm16 ind16 : Piece
  -- `disp_str(r.fetch())`, and the target of a relative jump
  disp rel : Piece

abbrev pub imm8_text : ℕ → List ℕ
imm8_text v = b'$' ∷ hex_byte v

unfoldable pub piece_text : Piece → Reader → List ℕ × Reader
unfolding fetch fetch_word disp_str
piece_text (Piece.lit s) r = (codes s, r)
piece_text (Piece.value v) r = (imm8_text v, r)
piece_text Piece.imm8 r = let (v, r') = fetch r in (imm8_text v, r')
piece_text Piece.indr8 r = let (v, r') = fetch r in (b'(' ∷ imm8_text v ++ (b')' ∷ []), r')
piece_text Piece.imm16 r = let (v, r') = fetch_word r in (b'$' ∷ hex_word v, r')
piece_text Piece.ind16 r =
    let (v, r') = fetch_word r in (b'(' ∷ b'$' ∷ hex_word v ++ (b')' ∷ []), r')
piece_text Piece.disp r = let (v, r') = fetch r in (disp_str v, r')
piece_text Piece.rel r = let (v, r') = fetch r in (b'$' ∷ hex_word (add_offset r'.pc v), r')

unfoldable pub pieces_text : List Piece → Reader → List ℕ × Reader
unfolding piece_text
pieces_text [] r = ([], r)
pieces_text (p ∷ ps) r =
    let (s, r1) = piece_text p r in let (t, r2) = pieces_text ps r1 in (s ++ t, r2)

-- `decodeCb`: the mnemonic and the operands
unfoldable pub decode_cb : ℕ → List ℕ → List ℕ × List ℕ
unfolding k_rot_mnem decimal
decode_cb cb target =
    let op = bit_and (cb / 64) 0x03 in
    let bit_target = decimal (field cb) ++ (codes ", " ++ target) in
    if op == 0
    then (codes (k_rot_mnem (field cb)), target)
    else if op == 1
    then (codes "BIT", bit_target)
    else if op == 2
    then (codes "RES", bit_target)
    else (codes "SET", bit_target)

-- what a decoder does behind its opcode: a case of its own, or the page CB of an index register
pub data Form : Type 0 where
  row : String → List Piece → Form
  page_cb : String → Form

unfoldable pub form_text : Form → Reader → (List ℕ × List ℕ) × Reader
unfolding pieces_text decode_cb fetch disp_str
form_text (Form.row mnem ops) r = let (t, r') = pieces_text ops r in ((codes mnem, t), r')
form_text (Form.page_cb xy) r =
    let (d, r1) = fetch r in
    let (cb, r2) = fetch r1 in (decode_cb cb (b'(' ∷ codes xy ++ (disp_str d ++ codes ")")), r2)
