-- ===== src/Em8/Cpu/Execute.antt =====
-- em8/src/Em8Cpu.cpp: `ExecuteOne`.
use emfe_plugins.Base.{true, false, ◌≡◌, arith, ℕ, ◌+◌, if◌then◌else◌, u64}
use emfe_plugins.Em8.Cpu.State.{Cpu, M}
use emfe_plugins.Em8.Cpu.Bus.{fetch_byte}
use emfe_plugins.Em8.Cpu.Opcode.{
  Opcode, alu, unary, branch, jump, stack, transfer, system, load, store, undefined, decode,
}
use emfe_plugins.Em8.Cpu.Compute.{execute_alu, execute_unary, execute_transfer}
use emfe_plugins.Em8.Cpu.Move.{execute_load, execute_store}
use emfe_plugins.Em8.Cpu.Control.{
  execute_branch, execute_jump, execute_stack, execute_system, execute_undefined,
}

unfoldable pub dispatch : Opcode → M ℕ
dispatch (alu o) = execute_alu o
dispatch (unary o) = execute_unary o
dispatch (branch o) = execute_branch o
dispatch (jump o) = execute_jump o
dispatch (stack o) = execute_stack o
dispatch (transfer o) = execute_transfer o
dispatch (system o) = execute_system o
dispatch (load o) = execute_load o
dispatch (store o) = execute_store o
dispatch undefined = execute_undefined

-- the rest of `ExecuteOne`, for a CPU that is not halted
unfoldable pub execute_next : M ℕ
execute_next s =
    let (op, s1) = fetch_byte s in
    let (cycles, s2) = dispatch (decode op) s1 in
    (
      cycles,
      record s2 {
        cycle_count = u64 (s2.cycle_count + cycles);
        instruction_count = u64 (s2.instruction_count + 1);
      },
    )

unfoldable pub execute_one : M ℕ
execute_one s = if s.halted then (0, s) else execute_next s

-- A halted CPU does nothing.
pub execute_one-halted : (s : Cpu) → s.halted ≡ true → execute_one s ≡ (0, s)
unfolding execute_one
execute_one-halted s h = ground arith

pub execute_one-running : (s : Cpu) → s.halted ≡ false → execute_one s ≡ execute_next s
unfolding execute_one
execute_one-running s h = ground arith
