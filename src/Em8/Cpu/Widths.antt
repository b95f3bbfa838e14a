-- ===== src/Em8/Cpu/Widths.antt =====
-- The registers of the EM8 stay in their widths through every instruction and interrupt.
use emfe_plugins.Base.{
  ℕ, ◌/◌, ◌≤◌, ◌≡◌, bit_and, bit_or, bit_xor, arith, Bool, true, false, ◌⊎◌, refl, inl, inr,
  Bool-cases, if◌then◌else◌, add_offset,
}
use emfe_plugins.Base.Bits.{bit_and-le, bit_or-lt, bit_xor-lt}
use emfe_plugins.Em8.Cpu.State.{Flag, mask, Cpu, gets, get_flag}
use emfe_plugins.Em8.Cpu.Keeps.{IsValid, Keeps, IsByte, IsWord, Any, gets-Keeps, step-Keeps}
use emfe_plugins.Em8.Cpu.KeepsBus.{statement_rules, fetch_byte-Keeps}
use emfe_plugins.Em8.Cpu.Bus.{fetch_byte}
use emfe_plugins.Em8.Cpu.Interrupts.{enter, check_interrupts}
use emfe_plugins.Em8.Cpu.Statements.{load_a, load_x, load_y, get_a, get_x, get_y}
use emfe_plugins.Em8.Cpu.Compute.{execute_alu, execute_unary, execute_transfer}
use emfe_plugins.Em8.Cpu.Move.{execute_load, execute_store}
use emfe_plugins.Em8.Cpu.Control.{
  is_taken, execute_branch, shadow_push, shadow_pop, execute_jump, execute_stack, execute_system,
  execute_undefined,
}
use emfe_plugins.Em8.Cpu.Opcode.{
  Alu, add_imm, Unary, asl_a, Branch, Jump, jmp_abs, Stack, pha, Transfer, tax, System, clc, Load,
  lda_imm, Store, sta_zpg, Opcode, alu, unary, branch, jump, stack, transfer, system, load, store,
  undefined, decode,
}
use emfe_plugins.Em8.Cpu.Execute.{
  dispatch, execute_next, execute_one, execute_one-halted, execute_one-running,
}

load_a-Keeps : (val : ℕ) → IsByte val → Keeps Any (load_a val)
unfolding load_a
load_a-Keeps val h = search statement_rules

load_x-Keeps : (val : ℕ) → IsByte val → Keeps Any (load_x val)
unfolding load_x
load_x-Keeps val h = search statement_rules

load_y-Keeps : (val : ℕ) → IsByte val → Keeps Any (load_y val)
unfolding load_y
load_y-Keeps val h = search statement_rules

get_a-Keeps : Keeps IsByte get_a
unfolding get_a
get_a-Keeps = gets-Keeps _ (λ s v. v.a_in)

get_x-Keeps : Keeps IsByte get_x
unfolding get_x
get_x-Keeps = gets-Keeps _ (λ s v. v.x_in)

get_y-Keeps : Keeps IsByte get_y
unfolding get_y
get_y-Keeps = gets-Keeps _ (λ s v. v.y_in)

bit_and-IsByte : (a v : ℕ) → IsByte a → IsByte (bit_and a v)
bit_and-IsByte a v h = omega (arith, bit_and-le a a v (omega arith))

bit_or-IsByte : (a v : ℕ) → IsByte a → IsByte v → IsByte (bit_or a v)
bit_or-IsByte a v h g = bit_or-lt 8 a v h g

bit_xor-IsByte : (a v : ℕ) → IsByte a → IsByte v → IsByte (bit_xor a v)
bit_xor-IsByte a v h g = bit_xor-lt 8 a v h g

half-IsByte : (a : ℕ) → IsByte a → IsByte (a / 2)
half-IsByte a h = omega arith

-- the cycles of an instruction
abbrev pub IsCycles : ℕ → Type 0
IsCycles k = (2 ≤ k) × (k ≤ 7)

two : IsCycles 2
two = omega arith

three : IsCycles 3
three = omega arith

four : IsCycles 4
four = omega arith

five : IsCycles 5
five = omega arith

six : IsCycles 6
six = omega arith

seven : IsCycles 7
seven = omega arith

ruleset case_rules = (
  statement_rules, load_a-Keeps, load_x-Keeps, load_y-Keeps, get_a-Keeps, get_x-Keeps, get_y-Keeps,
  bit_and-IsByte, bit_or-IsByte, bit_xor-IsByte, half-IsByte, two, three, four, five, six, seven,
)

alu-Keeps : (o : Alu) → Keeps IsCycles (execute_alu o)
unfolding execute_alu
alu-Keeps add_imm = search case_rules depth 12
alu-Keeps _ = search case_rules depth 12

gets_pc-Keeps : Keeps IsWord (gets (λ s. s.pc))
gets_pc-Keeps = gets-Keeps _ (λ s v. v.pc_in)

gets_sp-Keeps : Keeps IsByte (gets (λ s. s.sp))
gets_sp-Keeps = gets-Keeps _ (λ s v. v.sp_in)

gets_fl-Keeps : Keeps IsByte (gets (λ s. s.fl))
gets_fl-Keeps = gets-Keeps _ (λ s v. v.fl_in)

get_flag-Keeps : (f : Flag) → Keeps Any (gets (get_flag f))
get_flag-Keeps f = gets-Keeps _ (λ s v. tt)

is_taken-Keeps : (o : Branch) → Keeps Any (gets (is_taken o))
is_taken-Keeps o = gets-Keeps _ (λ s v. tt)

shadow_push-Keeps : (pc : ℕ) → Keeps Any (shadow_push pc)
unfolding shadow_push
shadow_push-Keeps pc = step-Keeps _ (λ s v. ground (arith, v.memory_ok))

shadow_pop-Keeps : Keeps Any shadow_pop
unfolding shadow_pop
shadow_pop-Keeps = step-Keeps _ (λ s v. ground (arith, v.memory_ok))

or-break : (fl : ℕ) → IsByte fl → IsByte (bit_or fl (mask Flag.b))
or-break fl h = bit_or-lt 8 fl (mask Flag.b) h (omega arith)

target-IsWord : (b : Bool) (pc off : ℕ) → IsWord pc → IsWord (if b then add_offset pc off else pc)
target-IsWord b pc off h = ground arith

branch-IsCycles : (b : Bool) → IsCycles (if b then 3 else 2)
branch-IsCycles b = ground arith

ruleset control_rules = (
  case_rules, gets_pc-Keeps, gets_sp-Keeps, gets_fl-Keeps, get_flag-Keeps, is_taken-Keeps,
  shadow_push-Keeps, shadow_pop-Keeps, or-break, target-IsWord, branch-IsCycles,
)

unary-Keeps : (o : Unary) → Keeps IsCycles (execute_unary o)
unfolding execute_unary
unary-Keeps asl_a = search control_rules depth 12
unary-Keeps _ = search control_rules depth 12

branch-Keeps : (o : Branch) → Keeps IsCycles (execute_branch o)
unfolding execute_branch
branch-Keeps o = search control_rules depth 12

jump-Keeps : (o : Jump) → Keeps IsCycles (execute_jump o)
unfolding execute_jump
jump-Keeps jmp_abs = search control_rules depth 12
jump-Keeps _ = search control_rules depth 12

stack-Keeps : (o : Stack) → Keeps IsCycles (execute_stack o)
unfolding execute_stack
stack-Keeps pha = search control_rules depth 12
stack-Keeps _ = search control_rules depth 12

transfer-Keeps : (o : Transfer) → Keeps IsCycles (execute_transfer o)
unfolding execute_transfer
transfer-Keeps tax = search control_rules depth 12
transfer-Keeps _ = search control_rules depth 12

system-Keeps : (o : System) → Keeps IsCycles (execute_system o)
unfolding execute_system
system-Keeps clc = search control_rules depth 16
system-Keeps _ = search control_rules depth 16

load-Keeps : (o : Load) → Keeps IsCycles (execute_load o)
unfolding execute_load
load-Keeps lda_imm = search control_rules depth 12
load-Keeps _ = search control_rules depth 12

store-Keeps : (o : Store) → Keeps IsCycles (execute_store o)
unfolding execute_store
store-Keeps sta_zpg = search control_rules depth 12
store-Keeps _ = search control_rules depth 12

undefined-Keeps : Keeps IsCycles execute_undefined
unfolding execute_undefined
undefined-Keeps = search control_rules depth 12

dispatch-Keeps : (o : Opcode) → Keeps IsCycles (dispatch o)
unfolding dispatch
dispatch-Keeps (alu o) = alu-Keeps o
dispatch-Keeps (unary o) = unary-Keeps o
dispatch-Keeps (branch o) = branch-Keeps o
dispatch-Keeps (jump o) = jump-Keeps o
dispatch-Keeps (stack o) = stack-Keeps o
dispatch-Keeps (transfer o) = transfer-Keeps o
dispatch-Keeps (system o) = system-Keeps o
dispatch-Keeps (load o) = load-Keeps o
dispatch-Keeps (store o) = store-Keeps o
dispatch-Keeps undefined = undefined-Keeps

counted :
    {s : Cpu} (c k : ℕ) → IsValid s → IsValid (record s { cycle_count = c; instruction_count = k })
counted c k v = ground (arith, v.memory_ok)

execute_next-IsValid :
    {s : Cpu} → IsValid s → IsValid (execute_next s).1 × IsCycles (execute_next s).0
unfolding execute_next
execute_next-IsValid {s} v =
    let fetched = fetch_byte-Keeps.run s v in
    let done = (dispatch-Keeps (decode (fetch_byte s).0)).run (fetch_byte s).1 fetched.1 in
    (counted _ _ done.1, done.0)

-- One instruction from a valid CPU, with any bytes at its PC: the registers, the memory and the
-- peripherals stay in their widths, and it takes from 2 to 7 cycles, or none if the CPU is halted.
pub execute_one-IsValid :
    {s : Cpu}
    → IsValid s
    → IsValid (execute_one s).1
      × ((s.halted ≡ true) × ((execute_one s).0 ≡ 0)
          ⊎ (s.halted ≡ false) × (2 ≤ (execute_one s).0) × ((execute_one s).0 ≤ 7))
execute_one-IsValid {s} v = elim (Bool-cases s.halted) [
  | inl h ↦ rw (execute_one-halted s h) (v, inl (h, refl))
  | inr h ↦ rw (execute_one-running s h) (
    (execute_next-IsValid v).0,
    inr (h, (execute_next-IsValid v).1.0, (execute_next-IsValid v).1.1),
  )
]

enter-Keeps : (vector : ℕ) → Keeps IsCycles (enter vector)
unfolding enter
enter-Keeps vector = search control_rules depth 16

without_nmi : {s : Cpu} → IsValid s → IsValid (record s { nmi_pending = false })
without_nmi v = ground (arith, v.memory_ok)

-- From a valid CPU an interrupt check leaves the registers, the memory and the peripherals in their
-- widths.
pub check_interrupts-IsValid : {s : Cpu} → IsValid s → IsValid (check_interrupts s).1
unfolding check_interrupts
check_interrupts-IsValid {s} v =
    ground (arith, v, (enter-Keeps 0xfffa).run _ (without_nmi v), (enter-Keeps 0xfffe).run s v)
