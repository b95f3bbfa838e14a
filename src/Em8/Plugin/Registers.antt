-- ===== src/Em8/Plugin/Registers.antt =====
-- em8/src/plugin_em8.cpp: the calls on registers. A `uint64_t` value is a number.
use emfe_plugins.Base.{
  ℕ, ◌≡◌, ◌≢◌, refl, List, [], ◌∷◌, Option, none, some, ◌==◌, if◌then◌else◌, u8, u16, arith,
}
use emfe_plugins.Em8.Cpu.State.{Cpu}
use emfe_plugins.Em8.Plugin.Instance.{Instance, Result}
use emfe_plugins.Em8.Plugin.Run.{is_running}

-- `RegId`
pub data RegId : Type 0 where
  reg_a reg_x reg_y reg_sp reg_pc reg_fl reg_cycles reg_instructions : RegId

unfoldable pub reg_of : ℕ → Option RegId
reg_of id =
    if id == 0
    then some reg_a
    else if id == 1
    then some reg_x
    else if id == 2
    then some reg_y
    else if id == 3
    then some reg_sp
    else if id == 4
    then some reg_pc
    else if id == 5
    then some reg_fl
    else if id == 6
    then some reg_cycles
    else if id == 7
    then some reg_instructions
    else none

-- `EmfeRegValue`
pub record RegValue : Type 0 where
  pub reg_id : ℕ
  pub value : ℕ

unfoldable pub get_register : RegId → Cpu → ℕ
get_register reg_a s = s.a
get_register reg_x s = s.x
get_register reg_y s = s.y
get_register reg_sp s = s.sp
get_register reg_pc s = s.pc
get_register reg_fl s = s.fl
get_register reg_cycles s = s.cycle_count
get_register reg_instructions s = s.instruction_count

-- the array as `emfe_get_registers` leaves it: it returns at an unknown register
unfoldable pub get_registers : List RegValue → Instance → Result × List RegValue
get_registers [] i = (Result.ok, [])
get_registers (v ∷ values) i =
    let (result, filled) = get_registers values i in
    elim (reg_of v.reg_id) [
      | none ↦ (Result.err_invalid, record v { value = 0 } ∷ values)
      | some r ↦ (result, record v { value = get_register r i.cpu } ∷ filled)
    ]

-- the counters are read-only
unfoldable pub set_register : RegId → ℕ → Cpu → Cpu
set_register reg_a v s = record s { a = u8 v }
set_register reg_x v s = record s { x = u8 v }
set_register reg_y v s = record s { y = u8 v }
set_register reg_sp v s = record s { sp = u8 v }
set_register reg_pc v s = record s { pc = u16 v }
set_register reg_fl v s = record s { fl = u8 v }
set_register reg_cycles v s = s
set_register reg_instructions v s = s

set_loop : List RegValue → Instance → Result × Instance
set_loop [] i = (Result.ok, i)
set_loop (v ∷ values) i = elim (reg_of v.reg_id) [
  | none ↦ (Result.err_invalid, i)
  | some r ↦ set_loop values (record i { cpu = set_register r v.value i.cpu })
]

unfoldable pub set_registers : List RegValue → Instance → Result × Instance
unfolding set_loop
set_registers values i = if is_running i then (Result.err_state, i) else set_loop values i

-- the value that a register keeps of one that is stored in it
unfoldable pub kept : RegId → ℕ → Cpu → ℕ
kept reg_pc v s = u16 v
kept reg_cycles v s = s.cycle_count
kept reg_instructions v s = s.instruction_count
kept _ v s = u8 v

-- A register that is set reads as the value cut to its width, a counter as before; every other
-- register reads as before.
pub get_register-set_register :
    (r q : RegId) (v : ℕ) (s : Cpu)
    → (get_register r (set_register r v s) ≡ kept r v s)
      × (r ≢ q → get_register q (set_register r v s) ≡ get_register q s)
unfolding get_register set_register kept
get_register-set_register reg_a reg_a v s = (refl, λ ne. absurd (ne refl))
get_register-set_register _ _ v s = ground arith
