-- ===== src/Em8/Cpu/Advance.antt =====
-- How far an instruction of the EM8 moves the PC when the next one is run behind it.
use emfe_plugins.Base.{ℕ, ◌+◌, ◌<◌, ◌≡◌, ◌∙◌, refl, Bool, true, false, u16, arith}
use emfe_plugins.Em8.Cpu.State.{
  Cpu, ret, ◌>>=◌, ◌>>◌, set_flag, set_nz, gets, set_a, set_x, set_y, set_sp, set_pc, set_fl, halt,
  put_flag, nz,
}
use emfe_plugins.Em8.Cpu.Bus.{
  read_byte, write_byte, fetch_byte, fetch_word, push8, pull8, addr_zpg, addr_zpg_x, addr_abs,
  addr_abs_x, addr_ind,
}
use emfe_plugins.Em8.Cpu.Alu.{do_add, do_sub, do_cmp}
use emfe_plugins.Em8.Cpu.Statements.{load_a, load_x, load_y, get_a, get_x, get_y}
use emfe_plugins.Em8.Cpu.Compute.{execute_alu, execute_unary, execute_transfer}
use emfe_plugins.Em8.Cpu.Move.{execute_load, execute_store}
use emfe_plugins.Em8.Cpu.Control.{execute_stack, execute_system}
use emfe_plugins.Em8.Cpu.Opcode.{
  Alu, add_imm, add_abs, sub_abs, cmp_abs, Unary, asl_a, jmp_abs, jsr_abs, Stack, pha, Transfer,
  tax, System, clc, brk, Load, lda_imm, lda_abs, lda_abs_x, ldx_abs, ldy_abs, Store, sta_zpg,
  sta_abs, sta_abs_x, stx_abs, sty_abs, Opcode, alu, unary, branch, jump, stack, transfer, system,
  load, store, undefined,
}
use emfe_plugins.Em8.Cpu.Execute.{dispatch}

alu_bytes : Alu → ℕ
alu_bytes add_abs = 2
alu_bytes sub_abs = 2
alu_bytes cmp_abs = 2
alu_bytes _ = 1

load_bytes : Load → ℕ
load_bytes lda_abs = 2
load_bytes lda_abs_x = 2
load_bytes ldx_abs = 2
load_bytes ldy_abs = 2
load_bytes _ = 1

store_bytes : Store → ℕ
store_bytes sta_abs = 2
store_bytes sta_abs_x = 2
store_bytes stx_abs = 2
store_bytes sty_abs = 2
store_bytes _ = 1

-- how many bytes the executor fetches behind the opcode
unfoldable pub operand_bytes : Opcode → ℕ
unfolding alu_bytes load_bytes store_bytes
operand_bytes (alu o) = alu_bytes o
operand_bytes (load o) = load_bytes o
operand_bytes (store o) = store_bytes o
operand_bytes (branch o) = 1
operand_bytes (jump jmp_abs) = 2
operand_bytes (jump jsr_abs) = 2
operand_bytes _ = 0

-- the instructions after which the next one is run
unfoldable pub is_sequential : Opcode → Bool
is_sequential (branch o) = false
is_sequential (jump o) = false
is_sequential (system brk) = false
is_sequential undefined = false
is_sequential _ = true

-- everything that a case is made of but the memory
unfoldable pub opened : ℕ
unfolding ret ◌>>=◌ ◌>>◌ set_flag set_nz gets set_a set_x set_y set_sp set_pc set_fl halt put_flag
    nz read_byte write_byte fetch_byte fetch_word push8 pull8 addr_zpg addr_zpg_x addr_abs
    addr_abs_x addr_ind do_add do_sub do_cmp load_a load_x load_y get_a get_x get_y
opened = 0

alu-pc : (o : Alu) (s : Cpu) → (execute_alu o s).1.pc ≡ u16 (s.pc + alu_bytes o)
unfolding execute_alu opened alu_bytes
alu-pc add_imm s = omega arith
alu-pc _ s = omega arith

unary-pc : (o : Unary) (s : Cpu) → (execute_unary o s).1.pc ≡ s.pc
unfolding execute_unary opened
unary-pc asl_a s = refl
unary-pc _ s = refl

transfer-pc : (o : Transfer) (s : Cpu) → (execute_transfer o s).1.pc ≡ s.pc
unfolding execute_transfer opened
transfer-pc tax s = refl
transfer-pc _ s = refl

load-pc : (o : Load) (s : Cpu) → (execute_load o s).1.pc ≡ u16 (s.pc + load_bytes o)
unfolding execute_load opened load_bytes
load-pc lda_imm s = omega arith
load-pc _ s = omega arith

store-pc : (o : Store) (s : Cpu) → (execute_store o s).1.pc ≡ u16 (s.pc + store_bytes o)
unfolding execute_store opened store_bytes
store-pc sta_zpg s = omega arith
store-pc _ s = omega arith

stack-pc : (o : Stack) (s : Cpu) → (execute_stack o s).1.pc ≡ s.pc
unfolding execute_stack opened
stack-pc pha s = refl
stack-pc _ s = refl

system-pc :
    (o : System) (s : Cpu) → is_sequential (system o) ≡ true → (execute_system o s).1.pc ≡ s.pc
unfolding execute_system opened is_sequential
system-pc clc s sequential = refl
system-pc brk s sequential = ground arith
system-pc _ s sequential = refl

pub dispatch-pc :
    (o : Opcode) (s : Cpu)
    → s.pc < 65536
    → is_sequential o ≡ true
    → (dispatch o s).1.pc ≡ u16 (s.pc + operand_bytes o)
unfolding dispatch operand_bytes is_sequential
dispatch-pc (alu o) s bound sequential = alu-pc o s
dispatch-pc (unary o) s bound sequential = unary-pc o s ∙ omega arith
dispatch-pc (transfer o) s bound sequential = transfer-pc o s ∙ omega arith
dispatch-pc (load o) s bound sequential = load-pc o s
dispatch-pc (store o) s bound sequential = store-pc o s
dispatch-pc (stack o) s bound sequential = stack-pc o s ∙ omega arith
dispatch-pc (system o) s bound sequential = system-pc o s sequential ∙ omega arith
dispatch-pc _ s bound sequential = ground arith
