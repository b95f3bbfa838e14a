-- ===== src/Em8/Plugin/Run/Account.antt =====
-- What the EM8 plugin's emulation loop does, told by the fields of the instance: the rounds that it
-- goes on from, and the reasons that it returns for.
use Prim.Native.String.{String}
use emfe_plugins.Base.{
  ℕ, suc, ◌≤◌, ◌≡◌, Bool, true, false, ◌&&◌, ◌||◌, ◌∷◌, Option, none, some, leb, if◌then◌else◌,
  contains,
}
use emfe_plugins.Base.Maps.{find}
use emfe_plugins.Em8.Uart
use emfe_plugins.Em8.Timer
use emfe_plugins.Em8.Cpu.State.{Cpu}
use emfe_plugins.Em8.Cpu.Execute.{execute_one}
use emfe_plugins.Em8.Cpu.Interrupts.{check_interrupts}
use emfe_plugins.Em8.Plugin.Condition.{evaluate_condition}
use emfe_plugins.Em8.Plugin.Instance.{Instance, RunState, StopReason, Breakpoint, Watchpoint}
use emfe_plugins.Em8.Plugin.Run.{watch_stops}

-- The PC is at an armed address, and the condition of its entry holds, where it has one.
pub data Hits (i : Instance) : Type 0 where
  unlisted :
      contains i.cpu.pc i.enabled_breakpoints ≡ true → find i.cpu.pc i.breakpoints ≡ none → Hits i
  listed :
      (bp : Breakpoint)
      → contains i.cpu.pc i.enabled_breakpoints ≡ true
      → find i.cpu.pc i.breakpoints ≡ some bp
      → evaluate_condition i.cpu bp.condition ≡ true
      → Hits i

-- The watchpoint that was hit has no entry, or one whose condition holds.
pub data Watched (i : Instance) (s : Cpu) : Type 0 where
  unlisted :
      s.memory.watchpoint_hit ≡ true
      → find s.memory.watchpoint_hit_address i.watchpoints ≡ none
      → Watched i s
  listed :
      (wp : Watchpoint)
      → s.memory.watchpoint_hit ≡ true
      → find s.memory.watchpoint_hit_address i.watchpoints ≡ some wp
      → evaluate_condition s (some wp.condition) ≡ true
      → Watched i s

-- A step out has a target depth, and the shadow stack is no deeper.
pub data IsOut (i : Instance) (s : Cpu) : Type 0 where
  reached : (d : ℕ) → i.step_out_target_depth ≡ some d → s.shadow_stack_top ≤ d → IsOut i s

-- One instruction: the timer counts its cycles, the line is raised if a device asks for it, and then
-- an interrupt may be taken.
pub record Executed (s t : Cpu) : Type 0 where
  pub cycles : ℕ
  pub behind : Cpu
  pub executes : execute_one s ≡ (cycles, behind)
  pub takes :
      let timer = Timer.tick cycles behind.memory.timer in
      t
      ≡ (check_interrupts (record behind {
        memory = record behind.memory { timer = timer };
        irq_line = Timer.has_pending_irq timer || Uart.has_pending_irq behind.memory.uart;
      })).1

abbrev pub unwatched : Cpu → Cpu
unwatched s = record s { memory = record s.memory { watchpoint_hit = false } }

-- the state, and the notice to a host that listens
pub record Reports (i j : Instance) (state : RunState) (reason : StopReason) (at : ℕ) (msg : String)
    : Type 0 where
  pub state_is : j.state ≡ state
  pub notice : j.notices ≡ (
      if i.state_change_cb
      then (record {
        state = state;
        stop_reason = reason;
        stop_address = at;
        stop_message = some msg;
      })
        ∷ i.notices
      else i.notices)

module _ (stop : ℕ → Bool) where
  -- Round `k` goes on.
  pub record Passes (k : ℕ) (i next : Instance) : Type 0 where
    pub unstopped : stop k ≡ false
    pub unbroken : ¬ (Hits i)
    pub reached : Cpu
    pub executed : Executed i.cpu reached
    pub awake : reached.halted ≡ false
    pub unseen : ¬ (Watched i reached)
    pub inside : ¬ (IsOut i reached)
    pub result : next ≡ record i { cpu = unwatched reached }

  -- Round `k` returns.
  pub data Returns (k : ℕ) (i j : Instance) : Type 0 where
    asked :
        stop k ≡ true
        → j.cpu ≡ i.cpu
        → Reports i j RunState.stopped StopReason.user i.cpu.pc "Stopped by user"
        → Returns k i j
    at_breakpoint :
        Hits i
        → j.cpu ≡ i.cpu
        → Reports i j RunState.stopped StopReason.breakpoint i.cpu.pc "Breakpoint hit"
        → Returns k i j
    halted :
        ¬ (Hits i)
        → Executed i.cpu j.cpu
        → j.cpu.halted ≡ true
        → Reports i j RunState.halted StopReason.halt j.cpu.pc "CPU halted"
        → Returns k i j
    at_watchpoint :
        (s : Cpu)
        → ¬ (Hits i)
        → Executed i.cpu s
        → s.halted ≡ false
        → Watched i s
        → j.cpu ≡ unwatched s
        → Reports i j RunState.stopped StopReason.watchpoint s.memory.watchpoint_hit_address
            "Watchpoint hit"
        → Returns k i j
    stepped :
        (s : Cpu)
        → ¬ (Hits i)
        → Executed i.cpu s
        → s.halted ≡ false
        → IsOut i s
        → j.cpu ≡ unwatched s
        → j.step_out_target_depth ≡ none
        → Reports i j RunState.stopped StopReason.step s.pc "Step out"
        → Returns k i j

  -- the rounds from one to another
  pub data Rounds : ℕ → Instance → ℕ → Instance → Type 0 where
    start : {k : ℕ} {i : Instance} → Rounds k i k i
    round :
        {k l : ℕ} {i next last : Instance}
        → Passes k i next
        → Rounds (suc k) next l last
        → Rounds k i l last

point_holds : Cpu → Option Breakpoint → Bool
point_holds s none = true
point_holds s (some bp) = evaluate_condition s bp.condition

watch_holds : Cpu → Option Watchpoint → Bool
watch_holds s none = true
watch_holds s (some wp) = evaluate_condition s (some wp.condition)

-- what a round tests behind its instruction, for the instance `advance i`
watch_test : Instance → Bool
watch_test a = a.cpu.memory.watchpoint_hit && watch_stops a

depth_test : ℕ → Option ℕ → Bool
depth_test top none = false
depth_test top (some d) = leb top d
