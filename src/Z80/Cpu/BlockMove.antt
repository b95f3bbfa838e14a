-- ===== src/Z80/Cpu/BlockMove.antt =====
-- LDIR and LDDR of the Z80 as whole moves.
use emfe_plugins.Base.{
  ℕ, zero, suc, ◌+◌, ◌<◌, ◌≡◌, ◌≢◌, ◌∙◌, refl, ap, ap₂, Bool, true, false, not, ◌==◌, if◌then◌else◌,
  u16, update, arith,
}
use emfe_plugins.Base.Signed.{pos}
use emfe_plugins.Z80.Disk.{Ram}
use emfe_plugins.Z80.Memory
use emfe_plugins.Z80.Cpu.State.{
  Cpu, get, put, put_low, ◌>>=◌, ◌>>◌, gets, load, store, a, f, set_f, set_pc, bump_r, count,
}
use emfe_plugins.Z80.Cpu.Bus.{fetch_byte, read_byte, write_byte}
use emfe_plugins.Z80.Cpu.Block.{toward, do_ld_move, repeat_if, step_back, ldir}
use emfe_plugins.Z80.Cpu.Extended
use emfe_plugins.Z80.Cpu.Execute
use emfe_plugins.Z80.Cpu.Execute.{execute_instruction, execute_one}
use emfe_plugins.Z80.Cpu.Outcome.{IsRam, instruction-Counts}
use emfe_plugins.Z80.Cpu.Schedule.{IsReady, execute_one-waits, steps}

-- the second byte of LDIR and of LDDR
abbrev pub block_opcode : Bool → ℕ
block_opcode up = if up then 0xB0 else 0xB8

-- a CPU at one of them, with no interrupt to take
pub record AtMove (up : Bool) (s : Cpu) : Type 0 where
  pub ready : IsReady s
  pub no_irq : s.irq_line ≡ false
  pub pc_in : s.pc < 65536
  pub prefix : s.memory.ram s.pc ≡ 0xED
  pub suffix : s.memory.ram (u16 (s.pc + 1)) ≡ block_opcode up

-- what a step of the move does to the registers and the RAM, with the PC at the next instruction
pub record Moves (up : Bool) (next : ℕ) (s t : Cpu) : Type 0 where
  pub source : t.hl ≡ toward up s.hl
  pub target : t.de ≡ toward up s.de
  pub left : t.bc ≡ u16 (s.bc + 65535)
  pub ram : t.memory.ram ≡ update s.memory.ram s.de (s.memory.ram s.hl)
  pub pc_at : t.pc ≡ (if u16 (s.bc + 65535) == 0 then next else u16 (next + 65534))
  pub halted : t.halted ≡ s.halted

repeat_if-state :
    (again : Bool) (s : Cpu)
    → let t = (repeat_if again s).1 in
      (t.hl ≡ s.hl)
      × (t.de ≡ s.de)
      × (t.bc ≡ s.bc)
      × (t.memory ≡ s.memory)
      × (t.pc ≡ (if again then u16 (s.pc + 65534) else s.pc))
      × (t.halted ≡ s.halted)
unfolding repeat_if step_back count gets set_pc ◌>>=◌ ◌>>◌
repeat_if-state true s = (refl, refl, refl, refl, refl, refl)
repeat_if-state false s = (refl, refl, refl, refl, refl, refl)

if-not : (b : Bool) (x y : ℕ) → (if not b then x else y) ≡ (if b then y else x)
if-not true x y = refl
if-not false x y = refl

ldir-Moves : (up : Bool) (s : Cpu) → Moves up s.pc s (ldir up s).1
unfolding ldir do_ld_move load store get put put_low set_f a f read_byte write_byte Memory.read_byte
    Memory.write_byte Memory.check_watchpoint ◌>>=◌ ◌>>◌
ldir-Moves up s =
    let moved = (do_ld_move up s).1 in
    let over = repeat_if-state (not (moved.bc == 0)) moved in
    record {
      source = over.0;
      target = over.1;
      left = over.2;
      ram = ap (λ m. m.ram) over.3;
      pc_at = over.4 ∙ if-not (moved.bc == 0) (u16 (s.pc + 65534)) s.pc;
      halted = over.5;
    }

-- the CPU behind the two fetches
abbrev fetched : Cpu → Cpu
fetched s =
    (bump_r (fetch_byte (bump_r (fetch_byte (record s { ei_delay_pending = false })).1).1).1).1

dispatched :
    (up : Bool) (s : Cpu)
    → AtMove up s
    → execute_instruction (record s { ei_delay_pending = false }) ≡ ldir up (fetched s)
unfolding execute_instruction ◌>>=◌ ◌>>◌ Execute.decode Execute.perform Extended.execute_ed_prefix
    Extended.decode Extended.perform fetch_byte Memory.read_byte Memory.check_watchpoint bump_r
dispatched true s at = rw (at.prefix, at.suffix) refl
dispatched false s at = rw (at.prefix, at.suffix) refl

execute_one-Moves :
    (up : Bool) (s : Cpu) → AtMove up s → Moves up (u16 (s.pc + 2)) s (execute_one s).1
execute_one-Moves up s at =
    let step : (execute_one s).1 ≡ (ldir up (fetched s)).1 =
      ap (λ q. q.1)
        (execute_one-waits s at.ready (ground (arith, at.no_irq))
          ∙ ap (λ q. (pos q.0, q.1)) (dispatched up s at)) in
    let moves = ldir-Moves up (fetched s) in
    unfold fetch_byte Memory.read_byte Memory.check_watchpoint bump_r in
    record {
      source = ap (λ c. c.hl) step ∙ moves.source;
      target = ap (λ c. c.de) step ∙ moves.target;
      left = ap (λ c. c.bc) step ∙ moves.left;
      ram = ap (λ c. c.memory.ram) step ∙ moves.ram;
      pc_at = ap (λ c. c.pc) step ∙ moves.pc_at ∙ behind;
      halted = ap (λ c. c.halted) step ∙ moves.halted;
    }
  where
    next : u16 (u16 (s.pc + 1) + 1) ≡ u16 (s.pc + 2)
    next = omega arith

    behind :
        (if u16 (s.bc + 65535) == 0
          then u16 (u16 (s.pc + 1) + 1)
          else u16 (u16 (u16 (s.pc + 1) + 1) + 65534))
        ≡ (if u16 (s.bc + 65535) == 0 then u16 (s.pc + 2) else u16 (u16 (s.pc + 2) + 65534))
    behind = rw next refl

-- the bytes of a block moved one after the other, as they are then
unfoldable pub copy : Bool → ℕ → ℕ → ℕ → Ram → Ram
copy up zero from to ram = ram
copy up (suc n) from to ram = copy up n (toward up from) (toward up to) (update ram to (ram from))

-- none of the `n` addresses from `to` on is `addr`
abbrev pub Misses : Bool → ℕ → ℕ → ℕ → Type 0
Misses up zero to addr = Unit {0}
Misses up (suc n) to addr = (to ≢ addr) × Misses up n (toward up to) addr

-- The CPU is at the move again.
again :
    (up : Bool) (s : Cpu)
    → AtMove up s
    → IsRam s.memory.ram
    → s.de ≢ s.pc
    → s.de ≢ u16 (s.pc + 1)
    → u16 (s.bc + 65535) ≢ 0
    → AtMove up (execute_one s).1
      × ((execute_one s).1.pc ≡ s.pc)
      × IsRam (execute_one s).1.memory.ram
again up s at bytes apart_1 apart_2 left =
    let moves = execute_one-Moves up s at in
    let counts = instruction-Counts (record s { ei_delay_pending = false }) bytes in
    let step : (execute_one s).1 ≡ (execute_instruction (record s { ei_delay_pending = false })).1 =
      ap (λ q. q.1) (execute_one-waits s at.ready (ground (arith, at.no_irq))) in
    let pc_same : (execute_one s).1.pc ≡ s.pc = ground (arith, moves.pc_at, at.pc_in) in
    (
      record {
        ready = record {
          awake = moves.halted ∙ at.ready.awake;
          no_nmi = ap (λ c. c.nmi_pending) step ∙ counts.nmi ∙ at.ready.no_nmi;
          no_step_mode = ap (λ c. c.in_step_mode) step ∙ counts.step_mode ∙ at.ready.no_step_mode;
          no_breakpoints =
              ap (λ c. c.enabled_breakpoints) step ∙ counts.enabled ∙ at.ready.no_breakpoints;
        };
        no_irq = ap (λ c. c.irq_line) step ∙ counts.irq ∙ at.no_irq;
        pc_in = rw pc_same at.pc_in;
        prefix = rw (pc_same, moves.ram) (ground (arith, at.prefix));
        suffix = rw (pc_same, moves.ram) (ground (arith, at.suffix));
      },
      pc_same,
      rw moves.ram (λ addr. ground (arith, bytes s.hl, bytes addr)),
    )

-- LDIR, or LDDR, at a BC of `suc n` below 65536, or of 0 for 65536 bytes, ends after `suc n` calls
-- of `ExecuteOne`, unless it is interrupted or writes over itself: the block is moved byte by byte,
-- BC is 0 and the PC behind the instruction.
pub steps-ldir :
    (up : Bool) (n : ℕ) (s : Cpu)
    → AtMove up s
    → IsRam s.memory.ram
    → n < 65536
    → s.bc ≡ u16 (suc n)
    → Misses up (suc n) s.de s.pc
    → Misses up (suc n) s.de (u16 (s.pc + 1))
    → let t = steps (suc n) s in
      (t.memory.ram ≡ copy up (suc n) s.hl s.de s.memory.ram) × (t.bc ≡ 0) × (t.pc ≡ u16 (s.pc + 2))
unfolding steps copy
steps-ldir up zero s at bytes small e miss_1 miss_2 =
    let moves = execute_one-Moves up s at in
    (moves.ram, ground (arith, moves.left), ground (arith, moves.pc_at))
steps-ldir up (suc n) s at bytes small e miss_1 miss_2 =
    let moves = execute_one-Moves up s at in
    let next = again up s at bytes miss_1.0 miss_2.0 (omega arith) in
    let rest =
      steps-ldir up n (execute_one s).1 next.0 next.2 (omega arith) (ground (arith, moves.left))
        (rw (next.1, moves.target) miss_1.1) (rw (next.1, moves.target) miss_2.1) in
    (
      rest.0
          ∙ ap (λ r. copy up (suc n) (execute_one s).1.hl (execute_one s).1.de r) moves.ram
          ∙ ap₂ (λ x y. copy up (suc n) x y (update s.memory.ram s.de (s.memory.ram s.hl)))
              moves.source moves.target,
      rest.1,
      rest.2 ∙ ap (λ p. u16 (p + 2)) next.1,
    )
