-- ===== src/Em8/Plugin/Run/Valid.antt =====
-- The EM8 plugin's emulation loop keeps the board's registers in their widths.
use emfe_plugins.Base.{ℕ, ◌≡◌, sym, Bool, false, some}
use mathlib.Core.Path.{subst}
use emfe_plugins.Em8.Timer
use emfe_plugins.Em8.Timer.{Timer}
use emfe_plugins.Em8.Timer.Registers
use emfe_plugins.Em8.Memory.{Memory}
use emfe_plugins.Em8.Memory.Valid
use emfe_plugins.Em8.Cpu.State.{Cpu}
use emfe_plugins.Em8.Cpu.Keeps
use emfe_plugins.Em8.Cpu.Execute.{execute_one}
use emfe_plugins.Em8.Cpu.Widths.{execute_one-IsValid, check_interrupts-IsValid}
use emfe_plugins.Em8.Plugin.Instance.{Instance, update_irq_line, notify_state_change}
use emfe_plugins.Em8.Plugin.Run.{
  execute_and_tick, cycle, advance, clear_hit, on_user, on_breakpoint, on_halt, on_watchpoint,
  on_step_out, emulation_loop,
}
use emfe_plugins.Em8.Plugin.Run.Trace.{
  Goes, here, onward, Ending, by_user, by_breakpoint, by_halt, by_watchpoint, by_step_out,
  emulation_loop-Goes,
}

with_timer :
    {m : Memory} (t : Timer)
    → Registers.IsValid t
    → Valid.IsValid m
    → Valid.IsValid (record m { timer = t })
with_timer t h v = record {
  bytes_in = v.bytes_in;
  indices = v.indices;
  fifo_in = v.fifo_in;
  cr_in = v.cr_in;
  timer = h;
}

-- another memory, and the interrupt line, in a valid CPU
with_memory :
    {s : Cpu} (m : Memory) (line : Bool)
    → Valid.IsValid m
    → Keeps.IsValid s
    → Keeps.IsValid (record s { memory = m; irq_line = line })
with_memory m line h v = record {
  a_in = v.a_in;
  x_in = v.x_in;
  y_in = v.y_in;
  sp_in = v.sp_in;
  pc_in = v.pc_in;
  fl_in = v.fl_in;
  top_in = v.top_in;
  memory_ok = h;
}

execute_and_tick-IsValid : {s : Cpu} → Keeps.IsValid s → Keeps.IsValid (execute_and_tick s)
unfolding execute_and_tick
execute_and_tick-IsValid {s} v =
    let done = execute_one s in
    let after = (execute_one-IsValid v).0 in
    let ticked =
      with_timer (Timer.tick done.0 done.1.memory.timer)
        (Registers.tick-IsValid done.0 done.1.memory.timer after.memory_ok.timer) after.memory_ok in
    with_memory {s = done.1} _ done.1.irq_line ticked after

-- A round of the loop keeps the CPU, the memory and the devices in their widths.
pub cycle-IsValid : (s : Cpu) → Keeps.IsValid s → Keeps.IsValid (cycle s)
unfolding cycle update_irq_line
cycle-IsValid s v =
    let after = execute_and_tick-IsValid v in
    check_interrupts-IsValid (with_memory {s = execute_and_tick s} _ _ after.memory_ok after)

lower_hit :
    {s : Cpu}
    → Keeps.IsValid s
    → Keeps.IsValid (record s { memory = record s.memory { watchpoint_hit = false } })
lower_hit {s} v =
    with_memory {s = s} _ s.irq_line
      (record {
        bytes_in = v.memory_ok.bytes_in;
        indices = v.memory_ok.indices;
        fifo_in = v.memory_ok.fifo_in;
        cr_in = v.memory_ok.cr_in;
        timer = v.memory_ok.timer;
      })
      v

module _ (stop : ℕ → Bool) where
  Ending-IsValid :
      {k : ℕ} {i j : Instance} → Keeps.IsValid i.cpu → Ending stop k i j → Keeps.IsValid j.cpu
  unfolding on_user on_breakpoint on_halt on_watchpoint on_step_out notify_state_change advance
      clear_hit
  Ending-IsValid v (by_user s) = v
  Ending-IsValid v (by_breakpoint s) = v
  Ending-IsValid {k} {i} v (by_halt b g) = cycle-IsValid i.cpu v
  Ending-IsValid {k} {i} v (by_watchpoint b g w s) = lower_hit (cycle-IsValid i.cpu v)
  Ending-IsValid {k} {i} v (by_step_out b g w) = lower_hit (cycle-IsValid i.cpu v)

  Goes-IsValid :
      {k l : ℕ} {i last : Instance}
      → Keeps.IsValid i.cpu
      → Goes stop k i l last
      → Keeps.IsValid last.cpu
  unfolding clear_hit advance
  Goes-IsValid v here = v
  Goes-IsValid {i = i} v (onward o goes) =
      Goes-IsValid
        (subst (λ x. Keeps.IsValid x.cpu) (sym o.result) (lower_hit (cycle-IsValid i.cpu v))) goes

  -- When the loop returns after a start with a valid CPU, the CPU is valid: every register, every byte
  -- of the memory and every field of the devices is in its width.
  pub emulation_loop-IsValid :
      (fuel k : ℕ) (i j : Instance)
      → Keeps.IsValid i.cpu
      → emulation_loop stop fuel k i ≡ some j
      → Keeps.IsValid j.cpu
  emulation_loop-IsValid fuel k i j v e =
      let (l, last, goes, ending) = emulation_loop-Goes stop fuel k i j e in
      Ending-IsValid (Goes-IsValid v goes) ending
