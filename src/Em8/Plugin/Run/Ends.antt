-- ===== src/Em8/Plugin/Run/Ends.antt =====
-- How the EM8 plugin's emulation loop ends: it does when it is told to, in which state, and what it
-- leaves alone.
use emfe_plugins.Base.{
  ℕ, zero, suc, ◌+◌, ◌≡◌, ◌≢◌, ◌∙◌, ap, refl, inl, inr, Bool, true, false, some, if◌then◌else◌,
  arith,
}
use emfe_plugins.Em8.Plugin.Instance.{Instance, RunState, notify_state_change}
use emfe_plugins.Em8.Plugin.Run.Trace.{
  sum-cases, Onward, Goes, here, onward, Ending, by_user, by_breakpoint, by_halt, by_watchpoint,
  by_step_out, emulation_loop-Goes,
}
use emfe_plugins.Em8.Plugin.Run.{
  on_user, on_breakpoint, on_halt, on_watchpoint, on_step_out, advance, clear_hit, round,
  emulation_loop, emulation_loop-inl, emulation_loop-inr,
}

stop_ends : (b : Bool) (i next : Instance) → b ≡ true → round b i ≢ inr next
unfolding round
stop_ends true i next h e = ground arith
stop_ends false i next h e = ground (arith, h)

-- A stop request that is seen `n` rounds after round `k` ends the loop: from round `k` it returns
-- within `n + 1` rounds, whatever the program does.
pub emulation_loop_stops :
    (stop : ℕ → Bool) (n k : ℕ) (i : Instance)
    → stop (k + n) ≡ true
    → (j : Instance) × (emulation_loop stop (suc n) k i ≡ some j)
emulation_loop_stops stop zero k i h = elim (sum-cases (round (stop k) i)) [
  | inl (j, e) ↦ (j, emulation_loop-inl stop zero k i e)
  | inr (next, e) ↦ absurd (stop_ends (stop k) i next (ap stop (omega arith) ∙ h) e)
]
emulation_loop_stops stop (suc n) k i h = elim (sum-cases (round (stop k) i)) [
  | inl (j, e) ↦ (j, emulation_loop-inl stop (suc n) k i e)
  | inr (next, e) ↦
      let (j, r) = emulation_loop_stops stop n (suc k) next (ap stop (omega arith) ∙ h) in
      (j, emulation_loop-inr stop (suc n) k i e ∙ r)
]

-- what no round changes
record Untouched (i j : Instance) : Type 0 where
  breakpoints : j.breakpoints ≡ i.breakpoints
  enabled : j.enabled_breakpoints ≡ i.enabled_breakpoints
  watchpoints : j.watchpoints ≡ i.watchpoints

same : (i : Instance) → Untouched i i
same i = record { breakpoints = refl; enabled = refl; watchpoints = refl }

module _ (stop : ℕ → Bool) where
  Onward-Untouched :
      {k : ℕ} {i next j : Instance} → Onward stop k i next → Untouched next j → Untouched i j
  unfolding clear_hit advance
  Onward-Untouched o u = record {
    breakpoints = u.breakpoints ∙ ap (λ x. x.breakpoints) o.result;
    enabled = u.enabled ∙ ap (λ x. x.enabled_breakpoints) o.result;
    watchpoints = u.watchpoints ∙ ap (λ x. x.watchpoints) o.result;
  }

  Ending-Untouched : {k : ℕ} {i j : Instance} → Ending stop k i j → Untouched i j
  unfolding on_user on_breakpoint on_halt on_watchpoint on_step_out notify_state_change advance
  Ending-Untouched {k} {i} (by_user s) = record {
    breakpoints = refl;
    enabled = refl;
    watchpoints = refl;
  }
  Ending-Untouched _ = record { breakpoints = refl; enabled = refl; watchpoints = refl }

  Goes-Untouched :
      {k l : ℕ} {i last j : Instance} → Goes stop k i l last → Ending stop l last j → Untouched i j
  Goes-Untouched here ending = Ending-Untouched ending
  Goes-Untouched (onward o goes) ending = Onward-Untouched o (Goes-Untouched goes ending)

  -- When the loop returns, the breakpoints, the set of the enabled ones and the watchpoints are as they
  -- were.
  pub emulation_loop-Untouched :
      (fuel k : ℕ) (i j : Instance)
      → emulation_loop stop fuel k i ≡ some j
      → (j.breakpoints ≡ i.breakpoints)
        × (j.enabled_breakpoints ≡ i.enabled_breakpoints)
        × (j.watchpoints ≡ i.watchpoints)
  emulation_loop-Untouched fuel k i j e =
      let (l, last, goes, ending) = emulation_loop-Goes stop fuel k i j e in
      let u = Goes-Untouched goes ending in (u.breakpoints, u.enabled, u.watchpoints)

  Ending-state :
      {k : ℕ} {i j : Instance}
      → i.cpu.halted ≡ false
      → Ending stop k i j
      → j.state ≡ (if j.cpu.halted then RunState.halted else RunState.stopped)
  unfolding on_user on_breakpoint on_halt on_watchpoint on_step_out notify_state_change
  Ending-state h (by_user s) = rw (h) refl
  Ending-state h (by_breakpoint s) = rw (h) refl
  Ending-state h (by_halt b g) = rw (g) refl
  Ending-state h (by_watchpoint b g w s) = rw (g) refl
  Ending-state h (by_step_out b g w) = rw (g) refl

  Goes-unhalted :
      {k l : ℕ} {i last : Instance}
      → i.cpu.halted ≡ false
      → Goes stop k i l last
      → last.cpu.halted ≡ false
  unfolding clear_hit
  Goes-unhalted h here = h
  Goes-unhalted h (onward o goes) =
      Goes-unhalted (ap (λ x. x.cpu.halted) o.result ∙ o.unhalted) goes

  -- When the loop returns after a start with a CPU that is not halted, the state is halted if the CPU
  -- is, and stopped if it is not.
  pub emulation_loop-state :
      (fuel k : ℕ) (i j : Instance)
      → i.cpu.halted ≡ false
      → emulation_loop stop fuel k i ≡ some j
      → j.state ≡ (if j.cpu.halted then RunState.halted else RunState.stopped)
  emulation_loop-state fuel k i j h e =
      let (l, last, goes, ending) = emulation_loop-Goes stop fuel k i j e in
      Ending-state (Goes-unhalted h goes) ending
