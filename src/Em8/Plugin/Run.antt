-- ===== src/Em8/Plugin/Run.antt =====
-- em8/src/plugin_em8.cpp: `EmulationLoop`, and the calls that execute. The worker thread's run is
-- one step of the call that starts it: from its start to the stop request no other call changes
-- the board.
pub mod Trace
pub mod Account
pub mod Ends
pub mod Calls
pub mod Valid
use Prim.Native.String.{String}
use emfe_plugins.Base.{
  ℕ, zero, suc, ◌+◌, ◌-◌, ◌≡◌, ap, ◌⊎◌, inl, inr, Bool, true, false, not, ◌&&◌, List, [], Option,
  none, some, ltb, leb, ◌==◌, if◌then◌else◌, u16, contains,
}
use emfe_plugins.Base.Maps.{find, insert, remove}
use emfe_plugins.Base.Text.{codes, same_text}
use emfe_plugins.Em8.Uart
use emfe_plugins.Em8.Timer
use emfe_plugins.Em8.Memory.{Memory}
use emfe_plugins.Em8.Cpu.State.{Cpu}
use emfe_plugins.Em8.Cpu.Opcode.{Opcode, jump, jsr_abs, decode}
use emfe_plugins.Em8.Cpu.Execute.{execute_one}
use emfe_plugins.Em8.Cpu.Interrupts
use emfe_plugins.Em8.Cpu.Interrupts.{check_interrupts}
use emfe_plugins.Em8.Cpu.Disasm.{DisasmResult, Row, find_row, disassemble}
use emfe_plugins.Em8.Plugin.Config.{flush}
use emfe_plugins.Em8.Plugin.Condition.{evaluate_condition}
use emfe_plugins.Em8.Plugin.Instance.{
  Instance, RunState, StopReason, Result, Breakpoint, Watchpoint, notify_state_change,
  update_irq_line,
}

-- `ExecuteOne` and `timer.Tick`
unfoldable pub execute_and_tick : Cpu → Cpu
execute_and_tick s =
    let (cycles, s') = execute_one s in
    record s' { memory = record s'.memory { timer = Timer.tick cycles s'.memory.timer } }

-- the four calls that execute an instruction
unfoldable pub cycle : Cpu → Cpu
cycle s = (check_interrupts (update_irq_line (execute_and_tick s))).1

-- the test at the head of a round
unfoldable pub breaks : Instance → Bool
breaks i = contains i.cpu.pc i.enabled_breakpoints && elim (find i.cpu.pc i.breakpoints) [
  | none ↦ true
  | some bp ↦ evaluate_condition i.cpu bp.condition
]

-- the test of a watchpoint that was hit
unfoldable pub watch_stops : Instance → Bool
watch_stops i = elim (find i.cpu.memory.watchpoint_hit_address i.watchpoints) [
  | none ↦ true
  | some wp ↦ evaluate_condition i.cpu (some wp.condition)
]

-- `WatchpointHit.exchange(false)` leaves the flag down.
unfoldable pub clear_hit : Instance → Instance
clear_hit i = record i {
  cpu = record i.cpu { memory = record i.cpu.memory { watchpoint_hit = false } };
}

abbrev pub stepped_out : Instance → Bool
stepped_out i = elim i.step_out_target_depth [
  | none ↦ false
  | some target ↦ leb i.cpu.shadow_stack_top target
]

-- the instance after the four calls of a round
unfoldable pub advance : Instance → Instance
advance i = record i { cpu = cycle i.cpu }

-- the five ways in which the loop returns
unfoldable pub on_user : Instance → Instance
on_user i = notify_state_change RunState.stopped StopReason.user i.cpu.pc (some "Stopped by user") i

unfoldable pub on_breakpoint : Instance → Instance
on_breakpoint i =
    notify_state_change RunState.stopped StopReason.breakpoint i.cpu.pc (some "Breakpoint hit") i

unfoldable pub on_halt : Instance → Instance
on_halt i = notify_state_change RunState.halted StopReason.halt i.cpu.pc (some "CPU halted") i

unfoldable pub on_watchpoint : Instance → Instance
unfolding clear_hit
on_watchpoint i =
    notify_state_change RunState.stopped StopReason.watchpoint i.cpu.memory.watchpoint_hit_address
      (some "Watchpoint hit") (clear_hit i)

unfoldable pub on_step_out : Instance → Instance
unfolding clear_hit
on_step_out i =
    notify_state_change RunState.stopped StopReason.step i.cpu.pc (some "Step out")
      (record (clear_hit i) { step_out_target_depth = none })

-- What a round finds behind its instruction, for the instance that `advance` leaves: it returns,
-- or the loop goes on.
unfoldable pub after : Instance → Instance ⊎ Instance
after i =
    if i.cpu.halted
    then inl (on_halt i)
    else if i.cpu.memory.watchpoint_hit && watch_stops i
    then inl (on_watchpoint i)
    else if stepped_out i
    then inl (on_step_out i)
    else inr (clear_hit i)

-- A round of the loop, for what the load of `stopRequested` gives at its head.
unfoldable pub round : Bool → Instance → Instance ⊎ Instance
unfolding after
round stop i =
    if stop then inl (on_user i) else if breaks i then inl (on_breakpoint i) else after (advance i)

-- `stop_requested k` is what the load gives in round `k`. Without fuel there is no result.
module _ (stop_requested : ℕ → Bool) where
  go_on : (Instance → Option Instance) → Instance ⊎ Instance → Option Instance
  go_on more (inl returned) = some returned
  go_on more (inr next) = more next

  unfoldable pub emulation_loop : ℕ → ℕ → Instance → Option Instance
  unfolding go_on
  emulation_loop zero k i = none
  emulation_loop (suc fuel) k i = go_on (emulation_loop fuel (suc k)) (round (stop_requested k) i)

  pub emulation_loop-inl :
      (fuel k : ℕ) (i : Instance) {j : Instance}
      → round (stop_requested k) i ≡ inl j
      → emulation_loop (suc fuel) k i ≡ some j
  unfolding emulation_loop
  emulation_loop-inl fuel k i h = ap (go_on (emulation_loop fuel (suc k))) h

  pub emulation_loop-inr :
      (fuel k : ℕ) (i : Instance) {next : Instance}
      → round (stop_requested k) i ≡ inr next
      → emulation_loop (suc fuel) k i ≡ emulation_loop fuel (suc k) next
  unfolding emulation_loop
  emulation_loop-inr fuel k i h = ap (go_on (emulation_loop fuel (suc k))) h

abbrev pub is_running : Instance → Bool
is_running i = elim i.state [ RunState.running ↦ true | _ ↦ false ]

unfoldable pub step : Instance → Result × Instance
step i =
    let i' = advance i in
    let after = if i'.cpu.halted then RunState.halted else RunState.stopped in
    if is_running i
    then (Result.err_state, i)
    else (Result.ok, notify_state_change after StopReason.step i'.cpu.pc none i')

-- the reply of a call whose worker has come to its end
unfoldable pub finish : (Instance → Instance) → Option Instance → Option (Result × Instance)
finish f none = none
finish f (some i) = some (Result.ok, f i)

-- The calls that start a worker, with the `fuel` for the rounds of its loop.
module _ (stop_requested : ℕ → Bool) (fuel : ℕ) where
  abbrev pub start : Instance → Option Instance
  start i = emulation_loop stop_requested fuel 0 (record i { state = RunState.running })

  unfoldable pub step_over : Instance → Option (Result × Instance)
  unfolding finish
  step_over i =
      let line = disassemble i.cpu.memory i.cpu.pc in
      let next_pc = u16 (i.cpu.pc + u16 line.length) in
      let had_bp = contains next_pc i.enabled_breakpoints in
      let armed = record i { enabled_breakpoints = insert next_pc i.enabled_breakpoints } in
      if is_running i
      then some (Result.err_state, i)
      else if not (same_text line.mnemonic (codes "JSR"))
      then some (step i)
      else if had_bp
      then finish (λ j. j) (start i)
      else finish (λ j. record j { enabled_breakpoints = remove next_pc j.enabled_breakpoints })
          (start armed)

  unfoldable pub step_out : Instance → Option (Result × Instance)
  unfolding finish
  step_out i =
      let target = i.cpu.shadow_stack_top - 1 in
      if is_running i
      then some (Result.err_state, i)
      else if ltb 0 i.cpu.shadow_stack_top
      then finish (λ j. record j { step_out_target_depth = none })
          (start (record i { step_out_target_depth = some target }))
      else some (Result.ok, i)

  unfoldable pub run : Instance → Option (Result × Instance)
  unfolding finish
  run i =
      let moved = record i { cpu = (check_interrupts (execute_and_tick i.cpu)).1 } in
      if is_running i
      then some (Result.err_state, i)
      else if contains i.cpu.pc i.enabled_breakpoints
      then (if moved.cpu.halted
          then some (
            Result.ok,
            notify_state_change RunState.halted StopReason.halt moved.cpu.pc (some "CPU halted")
                moved,
          )
          else finish (λ j. j) (start moved))
      else finish (λ j. j) (start i)

unfoldable pub reset : Instance → Result × Instance
reset i =
    let s = Interrupts.reset i.cpu in
    let m = record s.memory {
      uart = Uart.reset s.memory.uart;
      timer = Timer.reset s.memory.timer;
    } in
    let i' = record i {
      settings = flush i.settings;
      cpu = record s { memory = m };
      state = RunState.stopped;
    } in
    if is_running i
    then (Result.err_state, i)
    else (Result.ok, notify_state_change RunState.stopped StopReason.none s.pc (some "Reset") i')
