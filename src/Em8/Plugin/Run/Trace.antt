-- ===== src/Em8/Plugin/Run/Trace.antt =====
-- The rounds of the EM8 plugin's emulation loop as a relation, which the loop follows.
use mathlib.Core.Option.{some-injective}
use mathlib.Core.Path.{subst}
use emfe_plugins.Base.{
  ℕ, zero, suc, ◌≡◌, ◌⊎◌, ◌∙◌, sym, refl, inl, inr, Bool, true, false, ◌&&◌, some, if◌then◌else◌,
  arith,
}
use emfe_plugins.Em8.Plugin.Instance.{Instance}
use emfe_plugins.Em8.Plugin.Run.{
  advance, breaks, watch_stops, clear_hit, on_user, on_breakpoint, on_halt, on_watchpoint,
  on_step_out, after, round, stepped_out, emulation_loop, emulation_loop-inl, emulation_loop-inr,
}

pub sum-cases : {A B : Type 0} (x : A ⊎ B) → ((a : A) × (x ≡ inl a)) ⊎ ((b : B) × (x ≡ inr b))
sum-cases (inl a) = inl (a, refl)
sum-cases (inr b) = inr (b, refl)

module _ (stop : ℕ → Bool) where
  -- Round `k` goes on.
  pub record Onward (k : ℕ) (i next : Instance) : Type 0 where
    pub unstopped : stop k ≡ false
    pub unbroken : breaks i ≡ false
    pub unhalted : (advance i).cpu.halted ≡ false
    pub unwatched : ((advance i).cpu.memory.watchpoint_hit && watch_stops (advance i)) ≡ false
    pub inside : stepped_out (advance i) ≡ false
    pub result : next ≡ clear_hit (advance i)

  -- the rounds from one to another
  pub data Goes : ℕ → Instance → ℕ → Instance → Type 0 where
    here : {k : ℕ} {i : Instance} → Goes k i k i
    onward :
        {k l : ℕ} {i next last : Instance}
        → Onward k i next
        → Goes (suc k) next l last
        → Goes k i l last

  -- Round `k` returns.
  pub data Ending (k : ℕ) (i : Instance) : Instance → Type 0 where
    by_user : stop k ≡ true → Ending k i (on_user i)
    by_breakpoint : breaks i ≡ true → Ending k i (on_breakpoint i)
    by_halt : breaks i ≡ false → (advance i).cpu.halted ≡ true → Ending k i (on_halt (advance i))
    by_watchpoint :
        breaks i ≡ false
        → (advance i).cpu.halted ≡ false
        → (advance i).cpu.memory.watchpoint_hit ≡ true
        → watch_stops (advance i) ≡ true
        → Ending k i (on_watchpoint (advance i))
    by_step_out :
        breaks i ≡ false
        → (advance i).cpu.halted ≡ false
        → stepped_out (advance i) ≡ true
        → Ending k i (on_step_out (advance i))

  -- the verdict of a round, as the relations say it
  Verdict : ℕ → Instance → Instance ⊎ Instance → Type 0
  Verdict k i (inl j) = Ending k i j
  Verdict k i (inr j) = Onward k i j

  Verdict-if :
      (k : ℕ) (i : Instance) (b : Bool) (x y : Instance ⊎ Instance)
      → (b ≡ true → Verdict k i x)
      → (b ≡ false → Verdict k i y)
      → Verdict k i (if b then x else y)
  Verdict-if k i true x y f g = f refl
  Verdict-if k i false x y f g = g refl

  both : (b c : Bool) → (b && c) ≡ true → (b ≡ true) × (c ≡ true)
  both b c h = ground arith

  verdict : (k : ℕ) (i : Instance) → Verdict k i (round (stop k) i)
  unfolding round after Verdict
  verdict k i =
      let a = advance i in
      Verdict-if k i (stop k) _ _ (λ s. by_user s)
        (λ s.
          Verdict-if k i (breaks i) _ _ (λ b. by_breakpoint b)
            (λ b.
              Verdict-if k i a.cpu.halted _ _ (λ h. by_halt b h)
                (λ h.
                  Verdict-if k i (a.cpu.memory.watchpoint_hit && watch_stops a) _ _
                    (λ w. by_watchpoint b h (both _ _ w).0 (both _ _ w).1)
                    (λ w.
                      Verdict-if k i (stepped_out a) _ _ (λ o. by_step_out b h o)
                        (λ o. record {
                          unstopped = s;
                          unbroken = b;
                          unhalted = h;
                          unwatched = w;
                          inside = o;
                          result = refl;
                        })))))

  -- When the loop returns, its result comes from rounds that each found no stop request, no breakpoint
  -- that stops, no halt, no watchpoint that stops and no target depth, followed by one round that found
  -- one of these and returned for it.
  pub emulation_loop-Goes :
      (fuel k : ℕ) (i j : Instance)
      → emulation_loop stop fuel k i ≡ some j
      → (l : ℕ) × (last : Instance) × (Goes k i l last) × (Ending l last j)
  unfolding Verdict
  emulation_loop-Goes zero k i j e = unfold emulation_loop in ground arith
  emulation_loop-Goes (suc fuel) k i j e = elim (sum-cases (round (stop k) i)) [
    | inl (j', r) ↦ (
      k,
      i,
      here,
      subst (Ending k i) (some-injective _ _ (sym (emulation_loop-inl stop fuel k i r) ∙ e))
          (subst (Verdict k i) r (verdict k i)),
    )
    | inr (next, r) ↦
        let (l, last, goes, ending) =
          emulation_loop-Goes fuel (suc k) next j (sym (emulation_loop-inr stop fuel k i r) ∙ e) in
        (l, last, onward (subst (Verdict k i) r (verdict k i)) goes, ending)
  ]
