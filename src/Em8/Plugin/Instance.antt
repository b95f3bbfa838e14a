-- ===== src/Em8/Plugin/Instance.antt =====
-- em8/src/plugin_em8.cpp: `EmfeInstanceData`, and the values of em8's part of api/emfe_plugin.h.
-- The CPU's record holds the memory, and that one the UART and the timer. A condition is the
-- contents of the C string that a breakpoint points to.
use Prim.Native.String.{String}
use emfe_plugins.Base.{ℕ, Bool, true, false, ◌||◌, List, [], ◌∷◌, Option, if◌then◌else◌}
use emfe_plugins.Em8.Uart
use emfe_plugins.Em8.Timer
use emfe_plugins.Em8.Memory
use emfe_plugins.Em8.Cpu.State
use emfe_plugins.Em8.Cpu.State.{Cpu}
use emfe_plugins.Em8.Cpu.Interrupts

-- `EmfeState`
pub data RunState : Type 0 where
  stopped running halted stepping : RunState

-- `EmfeStopReason`
pub data StopReason : Type 0 where
  none user breakpoint watchpoint step halt exception : StopReason

-- `EmfeResult`
pub data Result : Type 0 where
  ok err_invalid err_state err_notfound err_io err_memory err_unsupported : Result

-- `EmfeStateInfo`, as the callback receives it
pub record StateInfo : Type 0 where
  pub state : RunState
  pub stop_reason : StopReason
  pub stop_address : ℕ
  pub stop_message : Option String

-- `EmfeBreakpointInfo`
pub record Breakpoint : Type 0 where
  pub address : ℕ
  pub enabled : Bool
  pub condition : Option (List ℕ)

-- `EmfeWatchpointType`
pub data WatchpointType : Type 0 where
  read write readwrite : WatchpointType

-- `WatchpointEntry`
pub record Watchpoint : Type 0 where
  pub address : ℕ
  pub size : ℕ
  pub type_of : WatchpointType
  pub enabled : Bool
  pub condition : List ℕ

-- the three maps of the settings, and the flag `REQUIRES_RESET` of each key
pub record Settings : Type 0 where
  pub committed : List ℕ → Option (List ℕ)
  pub staged : List ℕ → Option (List ℕ)
  pub applied : List ℕ → Option (List ℕ)
  pub requires_reset : List ℕ → Bool

-- `notices` lists what the state-change callback was called with, the last call first.
pub record Instance : Type 0 where
  pub cpu : Cpu
  pub state : RunState
  pub state_change_cb : Bool
  pub notices : List StateInfo
  pub breakpoints : List (ℕ × Breakpoint)
  pub enabled_breakpoints : List ℕ
  pub watchpoints : List (ℕ × Watchpoint)
  pub step_out_target_depth : Option ℕ
  pub settings : Settings
  pub program_start_address : ℕ
  pub program_end_address : ℕ

-- `emfe_create`: the board with its devices wired, after a reset of the CPU
abbrev pub create : Settings → Instance
create settings = record {
  cpu = Interrupts.reset (
      State.init (record Memory.init {
        uart = record Uart.init { tx_callback = true };
        uart_attached = true;
        timer_attached = true;
      }));
  state = RunState.stopped;
  state_change_cb = false;
  notices = [];
  breakpoints = [];
  enabled_breakpoints = [];
  watchpoints = [];
  step_out_target_depth = Option.none;
  settings = settings;
  program_start_address = 0;
  program_end_address = 0;
}

unfoldable pub notify_state_change : RunState → StopReason → ℕ → Option String → Instance → Instance
notify_state_change new_state reason addr msg i = record i {
  state = new_state;
  notices =
      if i.state_change_cb
      then (record {
        state = new_state;
        stop_reason = reason;
        stop_address = addr;
        stop_message = msg;
      })
        ∷ i.notices
      else i.notices;
}

-- `UpdateIrqLine`
unfoldable pub update_irq_line : Cpu → Cpu
update_irq_line s = record s {
  irq_line = Timer.has_pending_irq s.memory.timer || Uart.has_pending_irq s.memory.uart;
}
