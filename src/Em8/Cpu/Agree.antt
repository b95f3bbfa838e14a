-- ===== src/Em8/Cpu/Agree.antt =====
-- The disassembler and the executor of the EM8 agree: on which opcodes exist, on the length of an
-- instruction and on the target of a branch.
use emfe_plugins.Base.{
  ℕ, ◌+◌, ◌<◌, ◌≡◌, ◌↔◌, ◌∙◌, refl, ap, sym, Bool, true, false, not, ◌++◌, Option, none, some, ◌==◌,
  u16, u64, add_offset, all_below, all_below_sound, List, same, same_sound, ==_iff, arith,
}
use emfe_plugins.Base.Text.{codes, hex_word, same_text, same_text_sound}
use emfe_plugins.Em8.Memory
use emfe_plugins.Em8.Memory.{Memory}
use emfe_plugins.Em8.Memory.Access.{IsMapped, read-bytes, read-read}
use emfe_plugins.Em8.Cpu.State.{Cpu, get_flag}
use emfe_plugins.Em8.Cpu.Bus.{read_byte, fetch_byte}
use emfe_plugins.Em8.Cpu.Control.{is_taken, execute_branch, execute_undefined}
use emfe_plugins.Em8.Cpu.Opcode.{Branch, beq, Opcode, alu, branch, undefined, decode}
use emfe_plugins.Em8.Cpu.Execute.{dispatch, execute_next, execute_one, execute_one-running}
use emfe_plugins.Em8.Cpu.Disasm.{
  Row, Operand, branch_target, operand_text, operand_text-branch_target, find_row, result,
  disassemble,
}
use emfe_plugins.Em8.Cpu.Advance.{operand_bytes, is_sequential, opened, dispatch-pc}

-- the disassembler's row of an opcode byte against the executor's case of it
row_size : Option Row → ℕ
row_size none = 1
row_size (some r) = r.size

is_defined : Opcode → Bool
is_defined undefined = false
is_defined _ = true

row_agrees : Option Row → Opcode → Bool
unfolding row_size
row_agrees r o = row_size r == 1 + operand_bytes o

rows_agree : all_below 256 (λ op. row_agrees (find_row op) (decode op)) ≡ true
unfolding all_below find_row decode row_agrees operand_bytes
rows_agree = refl

row_size-decode :
    (r : Option Row) (o : Opcode) → row_agrees r o ≡ true → row_size r ≡ 1 + operand_bytes o
unfolding row_agrees
row_size-decode r o h = ground (arith, ==_iff (row_size r) (1 + operand_bytes o))

length-disassemble :
    (m : Memory) (a : ℕ) → (disassemble m a).length ≡ row_size (find_row (m.bytes a))
unfolding disassemble result Memory.peek row_size
length-disassemble m a = ground arith

-- Let a CPU that runs stand at an address that no peripheral answers, on the opcode of an
-- instruction after which the next one is run. `ExecuteOne` leaves the PC behind as many bytes as the
-- disassembler gives the instruction.
pub length-execute_one :
    (s : Cpu)
    → s.halted ≡ false
    → s.pc < 65536
    → s.memory.bytes s.pc < 256
    → ¬ (IsMapped s.memory s.pc)
    → is_sequential (decode (s.memory.bytes s.pc)) ≡ true
    → (execute_one s).1.pc ≡ u16 (s.pc + (disassemble s.memory s.pc).length)
unfolding execute_next fetch_byte read_byte
length-execute_one s running bound byte unmapped sequential =
    rw
      (
        execute_one-running s running,
        length-disassemble s.memory s.pc,
        row_size-decode (find_row (s.memory.bytes s.pc)) (decode (s.memory.bytes s.pc)) (
            all_below_sound 256 (λ op. row_agrees (find_row op) (decode op)) (s.memory.bytes s.pc)
              rows_agree byte),
        read-bytes s.pc s.memory unmapped,
      )
      (dispatch-pc (decode (s.memory.bytes s.pc))
          (record s { pc = u16 (s.pc + 1); memory = (Memory.read s.pc s.memory).1 }) (omega arith)
          sequential
        ∙ omega arith)

-- the mnemonic that `disassemble` gives for a row, and whether it is the one of no instruction
mnemonic_of : Option Row → List ℕ
mnemonic_of none = codes "???"
mnemonic_of (some r) = codes r.name

names_agree : Option Row → Opcode → Bool
unfolding mnemonic_of is_defined
names_agree r o = same (same_text (mnemonic_of r) (codes "???")) (not (is_defined o))

all_names_agree : all_below 256 (λ op. names_agree (find_row op) (decode op)) ≡ true
unfolding all_below find_row decode names_agree
all_names_agree = refl

is_defined_iff : (o : Opcode) → (not (is_defined o) ≡ true) ↔ (o ≡ undefined)
unfolding is_defined
is_defined_iff undefined = ground arith
is_defined_iff (alu o) = ground arith
is_defined_iff _ = ground arith

mnemonic-disassemble :
    (m : Memory) (a : ℕ) → (disassemble m a).mnemonic ≡ mnemonic_of (find_row (m.bytes a))
unfolding disassemble result Memory.peek mnemonic_of
mnemonic-disassemble m a = ground arith

-- For a byte at the address, the disassembler prints `???` exactly if `ExecuteOne` treats that byte
-- as an undefined opcode.
pub disassemble-decode :
    (m : Memory) (a : ℕ)
    → m.bytes a < 256
    → ((disassemble m a).mnemonic ≡ codes "???") ↔ (decode (m.bytes a) ≡ undefined)
unfolding names_agree
disassemble-decode m a byte =
    let text = mnemonic_of (find_row (m.bytes a)) in
    let agree : same_text text (codes "???") ≡ not (is_defined (decode (m.bytes a))) =
      same_sound _ _ (
        all_below_sound 256 (λ op. names_agree (find_row op) (decode op)) (m.bytes a)
          all_names_agree byte) in
    rw (mnemonic-disassemble m a) (
      λ e. (is_defined_iff _).0 (sym agree ∙ ap (λ t. same_text t (codes "???")) e),
      λ u. same_text_sound text (codes "???") (agree ∙ (is_defined_iff _).1 u),
    )

-- On an undefined opcode at an address that no peripheral answers, a CPU that runs halts with its PC
-- on that opcode, and counts the instruction.
pub undefined-execute_one :
    (s : Cpu)
    → s.halted ≡ false
    → s.pc < 65536
    → ¬ (IsMapped s.memory s.pc)
    → decode (s.memory.bytes s.pc) ≡ undefined
    → ((execute_one s).1.halted ≡ true)
      × ((execute_one s).1.pc ≡ s.pc)
      × ((execute_one s).1.instruction_count ≡ u64 (s.instruction_count + 1))
unfolding execute_next fetch_byte read_byte dispatch execute_undefined opened
undefined-execute_one s running bound unmapped h =
    rw (execute_one-running s running, read-bytes s.pc s.memory unmapped, h) (ground arith)

is_target : Operand → Bool
is_target branch_target = true
is_target _ = false

is_target-operand : (k : Operand) → is_target k ≡ true → k ≡ branch_target
unfolding is_target
is_target-operand branch_target h = refl
is_target-operand _ h = ground arith

target_row : Option Row → Opcode → Bool
unfolding is_target
target_row (some r) (branch o) = is_target r.operand
target_row none (branch o) = false
target_row _ _ = true

target_rows : all_below 256 (λ op. target_row (find_row op) (decode op)) ≡ true
unfolding all_below find_row decode target_row
target_rows = refl

operands-branch :
    (m : Memory) (a : ℕ) (r : Option Row) (o : Branch)
    → target_row r (branch o) ≡ true
    → (result m r a).operands ≡ operand_text m branch_target a
unfolding target_row is_target result
operands-branch m a none o h = ground arith
operands-branch m a (some r) o h = ap (λ k. operand_text m k a) (is_target-operand r.operand h)

is_taken-fl :
    (o : Branch) (s : Cpu) (pc : ℕ) (m : Memory)
    → is_taken o (record s { pc = pc; memory = m }) ≡ is_taken o s
unfolding is_taken get_flag
is_taken-fl beq s pc m = refl
is_taken-fl _ s pc m = refl

disassemble-branch :
    (m : Memory) (a : ℕ) (o : Branch)
    → m.bytes a < 256
    → decode (m.bytes a) ≡ branch o
    → (disassemble m a).operands
      ≡ codes "$" ++ hex_word (add_offset (a + 2) (m.bytes (u16 (a + 1))))
unfolding disassemble Memory.peek
disassemble-branch m a o byte h =
    operands-branch m a (find_row (m.bytes a)) o (
      ap (target_row (find_row (m.bytes a))) (sym h)
      ∙ all_below_sound 256 (λ op. target_row (find_row op) (decode op)) (m.bytes a) target_rows
          byte)
    ∙ operand_text-branch_target m a

-- Let a CPU that runs stand on a branch, with neither of its two bytes at an address that a
-- peripheral answers. Where the branch is taken, `ExecuteOne` leaves the PC at the address that the
-- disassembler prints as the operand.
pub branch-target :
    (o : Branch) (s : Cpu)
    → s.halted ≡ false
    → s.pc < 65536
    → s.memory.bytes s.pc < 256
    → ¬ (IsMapped s.memory s.pc)
    → ¬ (IsMapped s.memory (u16 (s.pc + 1)))
    → decode (s.memory.bytes s.pc) ≡ branch o
    → is_taken o s ≡ true
    → (disassemble s.memory s.pc).operands ≡ codes "$" ++ hex_word (execute_one s).1.pc
unfolding execute_next fetch_byte read_byte dispatch execute_branch opened
branch-target o s running bound byte unmapped unmapped1 h taken =
    rw
      (
        execute_one-running s running,
        read-bytes s.pc s.memory unmapped,
        h,
        disassemble-branch s.memory s.pc o byte h,
        is_taken-fl,
        taken,
        read-read s.pc (u16 (s.pc + 1)) s.memory unmapped1,
      )
      (ap (λ t. codes "$" ++ hex_word t) (ground arith))
