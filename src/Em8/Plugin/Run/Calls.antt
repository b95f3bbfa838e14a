-- ===== src/Em8/Plugin/Run/Calls.antt =====
-- What the calls that execute leave behind: the breakpoints after a step over, the depth of the
-- calls after a step out.
use mathlib.Core.Option.{some-injective}
use emfe_plugins.Base.{
  ℕ, ◌+◌, ◌-◌, ◌≤◌, ◌<◌, ◌≡◌, ◌∙◌, sym, ap, refl, inl, inr, Bool, true, false, not, ◌&&◌, List, [],
  ◌∷◌, Option, none, some, ◌==◌, if◌then◌else◌, contains, arith, u16, Bool-cases, ==_iff,
}
use emfe_plugins.Base.Maps.{insert, remove, contains-insert, contains-remove}
use emfe_plugins.Base.Text.{codes, same_text}
use emfe_plugins.Em8.Cpu.Disasm.{disassemble}
use emfe_plugins.Em8.Plugin.Instance.{Instance, StateInfo, StopReason, Result, notify_state_change}
use emfe_plugins.Em8.Plugin.Run.Trace.{
  Goes, here, onward, Ending, by_user, by_breakpoint, by_halt, by_watchpoint, by_step_out,
  emulation_loop-Goes,
}
use emfe_plugins.Em8.Plugin.Run.Ends.{emulation_loop-Untouched}
use emfe_plugins.Em8.Plugin.Run.{
  is_running, finish, start, step, step_over, step_out, on_user, on_breakpoint, on_halt,
  on_watchpoint, on_step_out, advance, clear_hit,
}

finish-some :
    (f : Instance → Instance) (o : Option Instance) (r : Result) (j : Instance)
    → finish f o ≡ some (r, j)
    → (j' : Instance) × (o ≡ some j') × (r ≡ Result.ok) × (j ≡ f j')
unfolding finish
finish-some f none r j e = ground arith
finish-some f (some j') r j e = (
  j',
  refl,
  sym (ap (λ x. x.0) (some-injective _ _ e)),
  sym (ap (λ x. x.1) (some-injective _ _ e)),
)

IsSame : Instance → Option (Result × Instance) → Type 0
IsSame i o =
    (r : Result) (j : Instance) (a : ℕ)
    → o ≡ some (r, j)
    → contains a j.enabled_breakpoints ≡ contains a i.enabled_breakpoints

IsSame-if :
    (i : Instance) (b : Bool) (x y : Option (Result × Instance))
    → (b ≡ true → IsSame i x)
    → (b ≡ false → IsSame i y)
    → IsSame i (if b then x else y)
IsSame-if i true x y f g = f refl
IsSame-if i false x y f g = g refl

IsSame-pair :
    (i : Instance) (p : Result × Instance)
    → p.1.enabled_breakpoints ≡ i.enabled_breakpoints
    → IsSame i (some p)
unfolding IsSame
IsSame-pair i p h r j a e =
    ap (contains a) (sym (ap (λ x. x.1.enabled_breakpoints) (some-injective _ _ e)) ∙ h)

step-enabled : (i : Instance) → (step i).1.enabled_breakpoints ≡ i.enabled_breakpoints
unfolding step notify_state_change advance
step-enabled i = ground arith

-- an address that was absent, inserted and removed again
contains-disarmed :
    (a pc : ℕ) (s : List ℕ)
    → contains pc s ≡ false
    → (not (a == pc) && contains a (insert pc s)) ≡ contains a s
contains-disarmed a pc s h = elim (Bool-cases (a == pc)) [
  | inl e ↦ rw (contains-insert a pc s, e, ap (λ x. contains x s) ((==_iff a pc).0 e), h) refl
  | inr e ↦ rw (contains-insert a pc s, e) refl
]

module _ (stop : ℕ → Bool) (fuel : ℕ) where
  IsSame-loop : (i : Instance) → IsSame i (finish (λ j. j) (start stop fuel i))
  unfolding IsSame
  IsSame-loop i r j a e =
      let (j', run, ok, final) = finish-some (λ x. x) _ r j e in
      ap (λ x. contains a x.enabled_breakpoints) final
      ∙ ap (contains a) (emulation_loop-Untouched stop fuel 0 _ j' run).1

  IsSame-armed :
      (i : Instance) (pc : ℕ)
      → contains pc i.enabled_breakpoints ≡ false
      → IsSame i (
          finish
            (λ j. record j { enabled_breakpoints = remove pc j.enabled_breakpoints })
            (start stop fuel (record i { enabled_breakpoints = insert pc i.enabled_breakpoints })))
  unfolding IsSame
  IsSame-armed i pc h r j a e =
      let (j', run, ok, final) =
        finish-some (λ x. record x { enabled_breakpoints = remove pc x.enabled_breakpoints }) _ r j
          e in
      ap (λ x. contains a x.enabled_breakpoints) final
      ∙ contains-remove a pc j'.enabled_breakpoints
      ∙ ap (λ s. not (a == pc) && contains a s) (emulation_loop-Untouched stop fuel 0 _ j' run).1
      ∙ contains-disarmed a pc i.enabled_breakpoints h

  step_over-IsSame : (i : Instance) → IsSame i (step_over stop fuel i)
  unfolding step_over
  step_over-IsSame i =
      let pc = u16 (i.cpu.pc + u16 (disassemble i.cpu.memory i.cpu.pc).length) in
      IsSame-if i (is_running i) _ _ (λ h. IsSame-pair i _ refl)
        (λ h.
          IsSame-if i (not (same_text (disassemble i.cpu.memory i.cpu.pc).mnemonic (codes "JSR"))) _
            _ (λ g. IsSame-pair i (step i) (step-enabled i))
            (λ g.
              IsSame-if i (contains pc i.enabled_breakpoints) _ _ (λ k. IsSame-loop i)
                (λ k. IsSame-armed i pc k)))

  -- When a step over returns, the same addresses are enabled as before: the breakpoint behind a call is
  -- gone, unless it was there already.
  pub step_over-enabled :
      (i : Instance) (r : Result) (j : Instance) (a : ℕ)
      → step_over stop fuel i ≡ some (r, j)
      → contains a j.enabled_breakpoints ≡ contains a i.enabled_breakpoints
  unfolding IsSame
  step_over-enabled i r j a e = step_over-IsSame i r j a e

pub last_reason : List StateInfo → StopReason
last_reason [] = StopReason.none
last_reason (info ∷ rest) = info.stop_reason

module _ (stop : ℕ → Bool) (target : ℕ) where
  Goes-target :
      {k l : ℕ} {i last : Instance}
      → i.step_out_target_depth ≡ some target
      → i.state_change_cb ≡ true
      → Goes stop k i l last
      → (last.step_out_target_depth ≡ some target) × (last.state_change_cb ≡ true)
  unfolding clear_hit advance
  Goes-target h c here = (h, c)
  Goes-target h c (onward o goes) =
      Goes-target (ap (λ x. x.step_out_target_depth) o.result ∙ h)
        (ap (λ x. x.state_change_cb) o.result ∙ c) goes

  Ending-depth :
      {k : ℕ} {i j : Instance}
      → i.step_out_target_depth ≡ some target
      → i.state_change_cb ≡ true
      → Ending stop k i j
      → last_reason j.notices ≡ StopReason.step
      → j.cpu.shadow_stack_top ≤ target
  unfolding on_user on_breakpoint on_halt on_watchpoint on_step_out notify_state_change last_reason
      advance clear_hit
  Ending-depth {k} {i} h c (by_user s) e = ground arith
  Ending-depth {k} {i} h c (by_breakpoint s) e = ground arith
  Ending-depth {k} {i} h c (by_halt b g) e = ground arith
  Ending-depth {k} {i} h c (by_watchpoint b g w s) e = ground arith
  Ending-depth {k} {i} h c (by_step_out b g w) e = ground arith

module _ (stop : ℕ → Bool) (fuel : ℕ) (i : Instance) where
  depart : Option (Result × Instance)
  depart =
      finish (λ x. record x { step_out_target_depth = none })
        (start stop fuel (record i { step_out_target_depth = some (i.cpu.shadow_stack_top - 1) }))

  step_out-depart :
      is_running i ≡ false → 0 < i.cpu.shadow_stack_top → step_out stop fuel i ≡ depart
  unfolding step_out depart
  step_out-depart idle deep = ground arith

  -- Let a step out start on a board that does not run, inside a call, with a state callback. When it
  -- returns, no target depth is left, and if its last notice gives a step as the reason, the call depth
  -- is below the one at the start.
  pub step_out-depth :
      (r : Result) (j : Instance)
      → is_running i ≡ false
      → 0 < i.cpu.shadow_stack_top
      → i.state_change_cb ≡ true
      → step_out stop fuel i ≡ some (r, j)
      → (j.step_out_target_depth ≡ none)
        × (last_reason j.notices ≡ StopReason.step
            → j.cpu.shadow_stack_top < i.cpu.shadow_stack_top)
  unfolding depart
  step_out-depth r j idle deep cb e =
      let (j', run, ok, final) =
        finish-some (λ x. record x { step_out_target_depth = none })
          (start stop fuel (record i { step_out_target_depth = some (i.cpu.shadow_stack_top - 1) }))
          r j (sym (step_out-depart idle deep) ∙ e) in
      let (l, last, goes, ending) = emulation_loop-Goes stop fuel 0 _ j' run in
      let (target, cb') = Goes-target stop (i.cpu.shadow_stack_top - 1) refl cb goes in
      (
        ap (λ x. x.step_out_target_depth) final,
        λ reason. omega (
          arith,
          ap (λ x. x.cpu.shadow_stack_top) final,
          Ending-depth stop (i.cpu.shadow_stack_top - 1) target cb' ending
              (ap (λ x. last_reason x.notices) (sym final) ∙ reason),
          deep,
        ),
      )
