-- ===== src/Em8/Cpu/Disasm.antt =====
-- em8/src/Em8Cpu.cpp: `Disassemble`. It peeks, so it changes nothing.
use Prim.Native.String.{String}
use emfe_plugins.Base.{
  ◌≡◌, ◌≤◌, refl, Bool, true, ◌&&◌, leb, arith, ℕ, ◌+◌, ◌*◌, List, [], ◌∷◌, ◌++◌, Option, none,
  some, bit_or, ◌==◌, if◌then◌else◌, u16, add_offset,
}
use emfe_plugins.Base.Text.{codes, hex_byte, hex_word}
use emfe_plugins.Em8.Memory
use emfe_plugins.Em8.Memory.{Memory}

pub record DisasmResult : Type 0 where
  pub mnemonic : List ℕ
  pub operands : List ℕ
  pub raw_bytes : List ℕ
  pub length : ℕ

-- the lambdas that format the operands, and those that format the bytes
pub data Operand : Type 0 where
  empty acc imm8 zpg zpg_x abs16 abs_x ind branch_target : Operand

pub data Raw : Type 0 where
  raw1 raw2 raw3 : Raw

-- the four initialisers of a case of the switch
pub record Row : Type 0 where
  pub name : String
  pub operand : Operand
  pub raw : Raw
  pub size : ℕ

abbrev row : String → Operand → Raw → ℕ → Row
row name operand raw size = record { name = name; operand = operand; raw = raw; size = size }

abbrev rows : List (ℕ × Row)
rows =
    (0x10, row "ADD" imm8 raw2 2)
    ∷ (0x11, row "ADD" zpg raw2 2)
    ∷ (0x12, row "ADD" abs16 raw3 3)
    ∷ (0x14, row "SUB" imm8 raw2 2)
    ∷ (0x15, row "SUB" zpg raw2 2)
    ∷ (0x16, row "SUB" abs16 raw3 3)
    ∷ (0x18, row "AND" imm8 raw2 2)
    ∷ (0x19, row "AND" zpg raw2 2)
    ∷ (0x1c, row "ORA" imm8 raw2 2)
    ∷ (0x1d, row "ORA" zpg raw2 2)
    ∷ (0x20, row "XOR" imm8 raw2 2)
    ∷ (0x21, row "XOR" zpg raw2 2)
    ∷ (0x24, row "CMP" imm8 raw2 2)
    ∷ (0x25, row "CMP" zpg raw2 2)
    ∷ (0x26, row "CMP" abs16 raw3 3)
    ∷ (0x38, row "CPX" imm8 raw2 2)
    ∷ (0x3c, row "CPY" imm8 raw2 2)
    ∷ (0x40, row "ASL" acc raw1 1)
    ∷ (0x41, row "LSR" acc raw1 1)
    ∷ (0x42, row "ROL" acc raw1 1)
    ∷ (0x43, row "ROR" acc raw1 1)
    ∷ (0x48, row "INC" acc raw1 1)
    ∷ (0x49, row "DEC" acc raw1 1)
    ∷ (0x4a, row "INX" empty raw1 1)
    ∷ (0x4b, row "DEX" empty raw1 1)
    ∷ (0x4c, row "INY" empty raw1 1)
    ∷ (0x4d, row "DEY" empty raw1 1)
    ∷ (0x50, row "BEQ" branch_target raw2 2)
    ∷ (0x51, row "BNE" branch_target raw2 2)
    ∷ (0x52, row "BCS" branch_target raw2 2)
    ∷ (0x53, row "BCC" branch_target raw2 2)
    ∷ (0x54, row "BMI" branch_target raw2 2)
    ∷ (0x55, row "BPL" branch_target raw2 2)
    ∷ (0x56, row "BVS" branch_target raw2 2)
    ∷ (0x57, row "BVC" branch_target raw2 2)
    ∷ (0x58, row "BRA" branch_target raw2 2)
    ∷ (0x60, row "JMP" abs16 raw3 3)
    ∷ (0x61, row "JSR" abs16 raw3 3)
    ∷ (0x62, row "RTS" empty raw1 1)
    ∷ (0x63, row "RTI" empty raw1 1)
    ∷ (0x70, row "PHA" empty raw1 1)
    ∷ (0x71, row "PLA" empty raw1 1)
    ∷ (0x72, row "PHF" empty raw1 1)
    ∷ (0x73, row "PLF" empty raw1 1)
    ∷ (0x80, row "TAX" empty raw1 1)
    ∷ (0x81, row "TXA" empty raw1 1)
    ∷ (0x82, row "TAY" empty raw1 1)
    ∷ (0x83, row "TYA" empty raw1 1)
    ∷ (0x84, row "TXS" empty raw1 1)
    ∷ (0x85, row "TSX" empty raw1 1)
    ∷ (0x90, row "CLC" empty raw1 1)
    ∷ (0x91, row "SEC" empty raw1 1)
    ∷ (0x92, row "CLI" empty raw1 1)
    ∷ (0x93, row "SEI" empty raw1 1)
    ∷ (0x94, row "CLV" empty raw1 1)
    ∷ (0x98, row "NOP" empty raw1 1)
    ∷ (0x99, row "BRK" empty raw1 1)
    ∷ (0x9a, row "HLT" empty raw1 1)
    ∷ (0xa0, row "LDA" imm8 raw2 2)
    ∷ (0xa1, row "LDA" zpg raw2 2)
    ∷ (0xa2, row "LDA" abs16 raw3 3)
    ∷ (0xa3, row "LDA" zpg_x raw2 2)
    ∷ (0xa4, row "LDA" abs_x raw3 3)
    ∷ (0xa5, row "LDA" ind raw2 2)
    ∷ (0xa6, row "LDX" imm8 raw2 2)
    ∷ (0xa7, row "LDX" zpg raw2 2)
    ∷ (0xa8, row "LDX" abs16 raw3 3)
    ∷ (0xa9, row "LDY" imm8 raw2 2)
    ∷ (0xaa, row "LDY" zpg raw2 2)
    ∷ (0xab, row "LDY" abs16 raw3 3)
    ∷ (0xac, row "STA" zpg raw2 2)
    ∷ (0xad, row "STA" abs16 raw3 3)
    ∷ (0xae, row "STA" zpg_x raw2 2)
    ∷ (0xaf, row "STA" abs_x raw3 3)
    ∷ (0xb0, row "STA" ind raw2 2)
    ∷ (0xb1, row "STX" zpg raw2 2)
    ∷ (0xb2, row "STX" abs16 raw3 3)
    ∷ (0xb3, row "STY" zpg raw2 2)
    ∷ (0xb4, row "STY" abs16 raw3 3)
    ∷ []

find : ℕ → List (ℕ × Row) → Option Row
find op [] = none
find op ((label, r) ∷ rest) = if op == label then some r else find op rest

unfoldable pub find_row : ℕ → Option Row
unfolding find
find_row op = find op rows

module _ (m : Memory) where
  peek_byte : ℕ → ℕ
  peek_byte a = Memory.peek (u16 a) m

  peek_word : ℕ → ℕ
  peek_word a = u16 (bit_or (peek_byte a) (peek_byte (a + 1) * 256))

  -- `base + 2 + off`
  target : ℕ → ℕ
  target base = add_offset (base + 2) (peek_byte (base + 1))

  unfoldable pub operand_text : Operand → ℕ → List ℕ
  unfolding peek_byte peek_word target
  operand_text empty addr = []
  operand_text acc addr = codes "A"
  operand_text imm8 addr = codes "#$" ++ hex_byte (peek_byte (addr + 1))
  operand_text zpg addr = codes "$" ++ hex_byte (peek_byte (addr + 1))
  operand_text zpg_x addr = codes "$" ++ (hex_byte (peek_byte (addr + 1)) ++ codes ",X")
  operand_text abs16 addr = codes "$" ++ hex_word (peek_word (addr + 1))
  operand_text abs_x addr = codes "$" ++ (hex_word (peek_word (addr + 1)) ++ codes ",X")
  operand_text ind addr = codes "($" ++ (hex_byte (peek_byte (addr + 1)) ++ codes ")")
  operand_text branch_target addr = codes "$" ++ hex_word (target addr)

  unfoldable pub raw_text : Raw → ℕ → List ℕ
  unfolding peek_byte
  raw_text raw1 addr = hex_byte (peek_byte addr)
  raw_text raw2 addr = hex_byte (peek_byte addr) ++ (codes " " ++ hex_byte (peek_byte (addr + 1)))
  raw_text raw3 addr =
      hex_byte (peek_byte addr)
      ++ (codes " "
          ++ (hex_byte (peek_byte (addr + 1)) ++ (codes " " ++ hex_byte (peek_byte (addr + 2)))))

  unfoldable pub result : Option Row → ℕ → DisasmResult
  unfolding peek_byte
  result (some r) addr = record {
    mnemonic = codes r.name;
    operands = operand_text r.operand addr;
    raw_bytes = raw_text r.raw addr;
    length = r.size;
  }
  result none addr = record {
    mnemonic = codes "???";
    operands = codes "$" ++ hex_byte (peek_byte addr);
    raw_bytes = raw_text raw1 addr;
    length = 1;
  }

  unfoldable pub disassemble : ℕ → DisasmResult
  unfolding result Memory.peek
  disassemble addr = result (find_row (Memory.peek addr m)) addr

-- the operand of a branch
pub operand_text-branch_target :
    (m : Memory) (a : ℕ)
    → operand_text m branch_target a
      ≡ codes "$" ++ hex_word (add_offset (a + 2) (m.bytes (u16 (a + 1))))
unfolding operand_text Memory.peek
operand_text-branch_target m a = refl

-- An instruction has 1 to 3 bytes, and so has each row.
are_short : List (ℕ × Row) → Bool
are_short [] = true
are_short ((label, r) ∷ rest) = leb 1 r.size && leb r.size 3 && are_short rest

rows_short : are_short rows ≡ true
unfolding are_short
rows_short = refl

length-result :
    (m : Memory) (op addr : ℕ) (table : List (ℕ × Row))
    → are_short table ≡ true
    → (1 ≤ (result m (find op table) addr).length) × ((result m (find op table) addr).length ≤ 3)
unfolding are_short find result
length-result m op addr [] h = ground arith
length-result m op addr ((label, r) ∷ rest) h = ground (arith, length-result m op addr rest)

pub length-disassemble_bounds :
    (m : Memory) (addr : ℕ) → (1 ≤ (disassemble m addr).length) × ((disassemble m addr).length ≤ 3)
unfolding disassemble find_row Memory.peek
length-disassemble_bounds m addr = length-result m (m.bytes addr) addr rows rows_short
