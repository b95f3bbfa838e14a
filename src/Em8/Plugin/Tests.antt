-- ===== src/Em8/Plugin/Tests.antt =====
-- The EM8 plugin's theorems at a concrete board, and runs of the condition parser.
use emfe_plugins.Base.{
  ℕ, ◌<◌, ◌≡◌, [], ◌∷◌, refl, ap, Bool, true, false, none, some, update, arith, ◌==◌, if◌then◌else◌,
  contains,
}
use emfe_plugins.Base.Text.{codes, hex_byte}
use emfe_plugins.Base.Maps.{find, insert, remove}
use emfe_plugins.Em8.Memory
use emfe_plugins.Em8.Memory.{Memory}
use emfe_plugins.Em8.Memory.Valid
use emfe_plugins.Em8.Cpu.State
use emfe_plugins.Em8.Cpu.State.{Cpu}
use emfe_plugins.Em8.Cpu.Keeps
use emfe_plugins.Em8.Cpu.Disasm.{find_row, result, disassemble}
use emfe_plugins.Em8.Plugin.Instance
use emfe_plugins.Em8.Plugin.Instance.{Instance, Settings, RunState, StopReason, Result}
use emfe_plugins.Em8.Plugin.Breakpoints.Armed
use emfe_plugins.Em8.Plugin.Run.{emulation_loop, finish, step_over, step_out}
use emfe_plugins.Em8.Plugin.Run.Account
use emfe_plugins.Em8.Plugin.Run.Ends
use emfe_plugins.Em8.Plugin.Run.Calls
use emfe_plugins.Em8.Plugin.Run.Valid as Kept
use emfe_plugins.Em8.Plugin.Condition.{evaluate_condition}
use emfe_plugins.Em8.Plugin.Condition.Compare
use emfe_plugins.Em8.Plugin.Config
use emfe_plugins.Em8.Plugin.Listing
use emfe_plugins.Em8.Plugin.Load.Srec
use emfe_plugins.Em8.Plugin.Load.Record

abbrev settings : Settings
settings = record {
  committed = λ k. none;
  staged = λ k. none;
  applied = λ k. none;
  requires_reset = λ k. false;
}

-- JSR $0300; at $0300 a branch to itself
abbrev program : Memory
program = record Memory.init {
  bytes = update (update (update (update (λ a. 0) 0x200 0x61) 0x202 0x03) 0x300 0x58) 0x301 0xfe;
}

abbrev cpu : Cpu
cpu = record (State.init program) { pc = 0x200; shadow_stack_top = 1 }

abbrev board : Instance
board = record (Instance.create settings) {
  cpu = cpu;
  state_change_cb = true;
  breakpoints = (0x400, record { address = 0x400; enabled = true; condition = none }) ∷ [];
  enabled_breakpoints = 0x400 ∷ [];
}

board-IsValid : Armed.IsValid board
board-IsValid = record { agree = λ a. unfold find Armed.is_enabled in ground arith }

perform-IsValid_example : Armed.IsValid (Armed.perform (Armed.Op.enable 0x10400 false) board).1
perform-IsValid_example = Armed.perform-IsValid (Armed.Op.enable 0x10400 false) board board-IsValid

perform-expected_example :
    ((Armed.perform (Armed.Op.remove 0x400) board).0
      ≡ Armed.expected_result (Armed.Op.remove 0x400) (λ j. find j board.breakpoints))
    × ((j : ℕ)
        → find j (Armed.perform (Armed.Op.remove 0x400) board).1.breakpoints
          ≡ Armed.expected (Armed.Op.remove 0x400) (λ j. find j board.breakpoints) j)
perform-expected_example = Armed.perform-expected (Armed.Op.remove 0x400) board

-- the stop request comes in round 3
abbrev stop : ℕ → Bool
stop k = k == 3

emulation_loop_stops_example : (j : Instance) × (emulation_loop stop 4 0 board ≡ some j)
emulation_loop_stops_example = Ends.emulation_loop_stops stop 3 0 board refl

-- where the run ends
abbrev ended : (i : Instance) → (j : Instance) × (emulation_loop stop 4 0 i ≡ some j)
ended i = Ends.emulation_loop_stops stop 3 0 i refl

emulation_loop-state_example :
    (ended board).0.state
    ≡ (if (ended board).0.cpu.halted then RunState.halted else RunState.stopped)
emulation_loop-state_example =
    Ends.emulation_loop-state stop 4 0 board (ended board).0 refl (ended board).1

program-IsValid : Valid.IsValid program
program-IsValid = record {
  bytes_in = λ a. ground arith;
  indices = record { tail_in = omega arith; count_in = omega arith; head_at = refl };
  fifo_in = λ k. omega arith;
  cr_in = omega arith;
  timer = record { reload_in = omega arith; counter_in = omega arith; cr_in = omega arith };
}

cpu-IsValid : Keeps.IsValid cpu
cpu-IsValid = record {
  a_in = omega arith;
  x_in = omega arith;
  y_in = omega arith;
  sp_in = omega arith;
  pc_in = omega arith;
  fl_in = omega arith;
  top_in = omega arith;
  memory_ok = program-IsValid;
}

emulation_loop-IsValid_example : Keeps.IsValid (ended board).0.cpu
emulation_loop-IsValid_example =
    Kept.emulation_loop-IsValid stop 4 0 board (ended board).0 cpu-IsValid (ended board).1

-- a step over the call
abbrev armed : Instance
armed = record board { state = RunState.running; enabled_breakpoints = 0x203 ∷ 0x400 ∷ [] }

abbrev stepped : Instance
stepped = record (ended armed).0 {
  enabled_breakpoints = remove 0x203 (ended armed).0.enabled_breakpoints;
}

step_over_run : step_over stop 4 board ≡ some (Result.ok, stepped)
unfolding step_over finish insert disassemble find_row result Memory.peek
step_over_run =
    ap (finish (λ j. record j { enabled_breakpoints = remove 0x203 j.enabled_breakpoints }))
      (ended armed).1

step_over-enabled_example : contains 0x203 stepped.enabled_breakpoints ≡ false
step_over-enabled_example =
    Calls.step_over-enabled stop 4 board Result.ok stepped 0x203 step_over_run

-- a step out of the routine that the board is in
abbrev departing : Instance
departing = record board { state = RunState.running; step_out_target_depth = some 0 }

abbrev departed : Instance
departed = record (ended departing).0 { step_out_target_depth = none }

step_out_run : step_out stop 4 board ≡ some (Result.ok, departed)
unfolding step_out finish
step_out_run = ap (finish (λ j. record j { step_out_target_depth = none })) (ended departing).1

step_out-depth_example :
    (departed.step_out_target_depth ≡ none)
    × (Calls.last_reason departed.notices ≡ StopReason.step → departed.cpu.shadow_stack_top < 1)
step_out-depth_example =
    Calls.step_out-depth stop 4 board Result.ok departed refl (omega arith) refl step_out_run

abbrev staged : Settings
staged = Config.apply_settings (Config.set_setting (codes "Theme") (codes "Light") settings)

abbrev progress : Srec.Progress
progress = record { memory = program; min_addr = 0xffff; max_addr = 0; entry_point = none }

bytes-AreBytes : Record.AreBytes (0x12 ∷ 0xfe ∷ [])
unfolding Record.AreBytes
bytes-AreBytes = (omega arith, (omega arith, tt))

load_line-s1_record_example :
    let t = Srec.load_line (Record.s1_record 0x1000 (0x12 ∷ 0xfe ∷ []) 0xda) progress in
    (t.memory.bytes 0x1001 ≡ 0xfe)
    × (t.min_addr ≡ 0x1000)
    × (t.max_addr ≡ 0x1002)
    × (t.entry_point ≡ none)
load_line-s1_record_example =
    Record.load_line-s1_record 0x1000 (0x12 ∷ 0xfe ∷ []) 0xda progress 0x1001 bytes-AreBytes
      (omega arith) (omega arith) (omega arith)

evaluate_condition-holds_example : evaluate_condition cpu (some (codes "sP>=$F0")) ≡ true
unfolding Compare.register_name Compare.symbol Compare.register_value Compare.holds hex_byte
evaluate_condition-holds_example =
    Compare.evaluate_condition-holds Compare.sp true false Compare.at_least 0xf0 cpu (omega arith)

disassemble_range-Listed_example :
    Listing.Listed program 0x204 4 0x200 (Listing.disassemble_range 0x10200 0x204 4 program)
disassemble_range-Listed_example =
    Listing.disassemble_range-Listed 0x10200 0x204 4 program (omega arith)
