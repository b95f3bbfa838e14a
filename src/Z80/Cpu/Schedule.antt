-- ===== src/Z80/Cpu/Schedule.antt =====
-- When the Z80 takes an interrupt: the delay behind EI, and the wait of HALT.
use emfe_plugins.Base.{
  ℕ, zero, suc, ◌≡◌, ◌∙◌, refl, ap, true, false, ◌&&◌, not, [], arith, if◌then◌else◌,
}
use emfe_plugins.Z80.Memory
use emfe_plugins.Z80.Cpu.State.{Cpu, ◌>>=◌, ◌>>◌, modify, bump_r, count}
use emfe_plugins.Z80.Cpu.Bus.{fetch_byte}
use emfe_plugins.Z80.Cpu.Control.{ei}
use emfe_plugins.Z80.Cpu.Interrupts.{accept_irq}
use emfe_plugins.Z80.Cpu.Outcome.{IsRam, instruction-Counts}
use emfe_plugins.Z80.Cpu.Execute
use emfe_plugins.Z80.Cpu.Execute.{
  execute_instruction, halted_step, execute_armed, execute_one, as_int,
}

-- a CPU that nothing but an interrupt keeps from its next instruction
pub record IsReady (s : Cpu) : Type 0 where
  pub awake : s.halted ≡ false
  pub no_nmi : s.nmi_pending ≡ false
  pub no_step_mode : s.in_step_mode ≡ false
  pub no_breakpoints : s.enabled_breakpoints ≡ []

pub execute_one-waits :
    (s : Cpu)
    → IsReady s
    → s.irq_line && s.iff1 && not s.ei_delay_pending ≡ false
    → execute_one s ≡ as_int (execute_instruction (record s { ei_delay_pending = false }))
unfolding execute_one execute_armed
execute_one-waits s r quiet = ground (arith, r)

execute_one-takes :
    (s : Cpu)
    → s.nmi_pending ≡ false
    → s.in_step_mode ≡ false
    → s.enabled_breakpoints ≡ []
    → s.irq_line && s.iff1 && not s.ei_delay_pending ≡ true
    → execute_one s ≡ as_int (accept_irq s)
unfolding execute_one execute_armed
execute_one-takes s n m b loud = ground arith

-- the CPU behind EI
ei-result :
    (s : Cpu)
    → s.memory.ram s.pc ≡ 0xFB
    → let t = (execute_instruction s).1 in
      (t.iff1 ≡ true)
      × (t.ei_delay_pending ≡ true)
      × (t.halted ≡ s.halted)
      × (t.nmi_pending ≡ s.nmi_pending)
      × (t.in_step_mode ≡ s.in_step_mode)
      × (t.enabled_breakpoints ≡ s.enabled_breakpoints)
      × (t.memory.ram ≡ s.memory.ram)
unfolding execute_instruction ◌>>=◌ ◌>>◌ fetch_byte Memory.read_byte Memory.check_watchpoint bump_r
    Execute.decode Execute.perform ei modify count
ei-result s e = rw e (refl, refl, refl, refl, refl, refl, refl)

-- the CPU behind the EI that it is at, and one step later with the interrupt line raised
abbrev pub raised : Cpu → Cpu
raised s = record (execute_one s).1 { irq_line = true }

abbrev pub later : Cpu → Cpu
later s = (execute_one (raised s)).1

after_ei-IsReady :
    (s : Cpu)
    → IsReady s
    → s.irq_line && s.iff1 && not s.ei_delay_pending ≡ false
    → s.memory.ram s.pc ≡ 0xFB
    → IsReady (raised s)
      × (IsRam s.memory.ram → IsRam (raised s).memory.ram)
      × ((raised s).ei_delay_pending ≡ true)
after_ei-IsReady s r quiet e =
    let at_ei = ei-result (record s { ei_delay_pending = false }) e in
    let same : (execute_one s).1 ≡ (execute_instruction (record s { ei_delay_pending = false })).1 =
      ap (λ q. q.1) (execute_one-waits s r quiet) in
    let ram : (raised s).memory.ram ≡ s.memory.ram = ap (λ c. c.memory.ram) same ∙ at_ei.6 in
    (
      record {
        awake = ap (λ c. c.halted) same ∙ at_ei.2 ∙ r.awake;
        no_nmi = ap (λ c. c.nmi_pending) same ∙ at_ei.3 ∙ r.no_nmi;
        no_step_mode = ap (λ c. c.in_step_mode) same ∙ at_ei.4 ∙ r.no_step_mode;
        no_breakpoints = ap (λ c. c.enabled_breakpoints) same ∙ at_ei.5 ∙ r.no_breakpoints;
      },
      (λ bytes. rw ram bytes),
      ap (λ c. c.ei_delay_pending) same ∙ at_ei.1,
    )

-- Behind EI a raised interrupt line waits for one instruction: the step after EI executes the
-- instruction at the PC, and if that left the interrupt on and is no EI, the step after it takes
-- the interrupt.
pub ei_delay :
    (s : Cpu)
    → IsReady s
    → IsRam s.memory.ram
    → s.irq_line && s.iff1 && not s.ei_delay_pending ≡ false
    → s.memory.ram s.pc ≡ 0xFB
    → (later s).iff1 ≡ true
    → (later s).ei_delay_pending ≡ false
    → (execute_one (raised s)
        ≡ as_int (execute_instruction (record (raised s) { ei_delay_pending = false })))
      × (execute_one (later s) ≡ as_int (accept_irq (later s)))
ei_delay s r bytes quiet e on delayed =
    let behind = after_ei-IsReady s r quiet e in
    let step = execute_one-waits (raised s) behind.0 (ground (arith, behind.2)) in
    let counts =
      instruction-Counts (record (raised s) { ei_delay_pending = false }) (behind.1 bytes) in
    let same : later s ≡ (execute_instruction (record (raised s) { ei_delay_pending = false })).1 =
      ap (λ q. q.1) step in
    let nmi : (later s).nmi_pending ≡ false =
      ap (λ c. c.nmi_pending) same ∙ counts.nmi ∙ behind.0.no_nmi in
    let mode : (later s).in_step_mode ≡ false =
      ap (λ c. c.in_step_mode) same ∙ counts.step_mode ∙ behind.0.no_step_mode in
    let points : (later s).enabled_breakpoints ≡ [] =
      ap (λ c. c.enabled_breakpoints) same ∙ counts.enabled ∙ behind.0.no_breakpoints in
    let line : (later s).irq_line ≡ true = ap (λ c. c.irq_line) same ∙ counts.irq in
    (step, execute_one-takes (later s) nmi mode points (ground (arith, line, on, delayed)))

-- some calls of `ExecuteOne`
unfoldable pub steps : ℕ → Cpu → Cpu
steps zero s = s
steps (suc n) s = steps n (execute_one s).1

-- a CPU in HALT that nothing wakes
pub record Waits (s : Cpu) : Type 0 where
  pub asleep : s.halted ≡ true
  pub no_nmi : s.nmi_pending ≡ false
  pub no_irq : s.irq_line ≡ false
  pub no_step_mode : s.in_step_mode ≡ false
  pub no_breakpoints : s.enabled_breakpoints ≡ []

execute_one-halted :
    (s : Cpu)
    → Waits s
    → execute_one s ≡ as_int (halted_step (record s { ei_delay_pending = false }))
unfolding execute_one execute_armed
execute_one-halted s w = ground (arith, w)

pause :
    (s : Cpu)
    → Waits s
    → Waits (execute_one s).1
      × ((execute_one s).1.pc ≡ s.pc)
      × ((execute_one s).1.memory ≡ s.memory)
      × ((execute_one s).1.iff1 ≡ s.iff1)
pause s w = rw (execute_one-halted s w) (
  record {
    asleep = unfold halted_step bump_r count ◌>>◌ in w.asleep;
    no_nmi = unfold halted_step bump_r count ◌>>◌ in w.no_nmi;
    no_irq = unfold halted_step bump_r count ◌>>◌ in w.no_irq;
    no_step_mode = unfold halted_step bump_r count ◌>>◌ in w.no_step_mode;
    no_breakpoints = unfold halted_step bump_r count ◌>>◌ in w.no_breakpoints;
  },
  unfold halted_step bump_r count ◌>>◌ in refl,
  unfold halted_step bump_r count ◌>>◌ in refl,
  unfold halted_step bump_r count ◌>>◌ in refl,
)

steps-Waits :
    (n : ℕ) (s : Cpu)
    → Waits s
    → Waits (steps n s)
      × ((steps n s).pc ≡ s.pc)
      × ((steps n s).memory ≡ s.memory)
      × ((steps n s).iff1 ≡ s.iff1)
unfolding steps
steps-Waits zero s w = (w, refl, refl, refl)
steps-Waits (suc n) s w =
    let first = pause s w in
    let rest = steps-Waits n (execute_one s).1 first.0 in
    (rest.0, rest.1 ∙ first.1, rest.2 ∙ first.2, rest.3 ∙ first.3)

steps-no_delay : (n : ℕ) (s : Cpu) → Waits s → (steps (suc n) s).ei_delay_pending ≡ false
unfolding steps
steps-no_delay zero s w =
    ap (λ q. q.1.ei_delay_pending) (execute_one-halted s w)
    ∙ (unfold halted_step bump_r count ◌>>◌ in refl)
steps-no_delay (suc n) s w = steps-no_delay n (execute_one s).1 (pause s w).0

-- a halted CPU that the line reaches, in either position of the switch
halted-line :
    (t : Cpu)
    → Waits t
    → t.ei_delay_pending ≡ false
    → execute_one (record t { irq_line = true }) ≡ (
        if t.iff1
        then as_int (accept_irq (record t { irq_line = true }))
        else as_int (halted_step (record t { irq_line = true })))
unfolding execute_one execute_armed
halted-line t w delay = ground (arith, w)

-- However long it waits, a halted CPU that nothing wakes stays in HALT at its PC with its memory and
-- its interrupt switch. When the interrupt line is then raised, the next step takes the interrupt if
-- the switch is on, and waits on if it is off.
pub steps-halted :
    (n : ℕ) (s : Cpu)
    → Waits s
    → let t = steps (suc n) s in
      (t.halted ≡ true)
      × (t.pc ≡ s.pc)
      × (t.memory ≡ s.memory)
      × (t.iff1 ≡ s.iff1)
      × (execute_one (record t { irq_line = true }) ≡ (
          if s.iff1
          then as_int (accept_irq (record t { irq_line = true }))
          else as_int (halted_step (record t { irq_line = true }))))
steps-halted n s w =
    let waited = steps-Waits (suc n) s w in
    let t = steps (suc n) s in
    (
      waited.0.asleep,
      waited.1,
      waited.2,
      waited.3,
      halted-line t waited.0 (steps-no_delay n s w)
          ∙ ap
              (λ b.
                if b
                then as_int (accept_irq (record t { irq_line = true }))
                else as_int (halted_step (record t { irq_line = true })))
              waited.3,
    )
