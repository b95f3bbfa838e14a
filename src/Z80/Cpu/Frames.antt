-- ===== src/Z80/Cpu/Frames.antt =====
-- What the statements of the Z80's instructions leave alone: the counters, the interrupt inputs and
-- the debugger's state. A rule for each statement.
use emfe_plugins.Base.{
  ℕ, ◌+◌, ◌≤◌, ◌≡◌, refl, ◌∙◌, ap, Bool, true, false, ◌&&◌, leb, List, if◌then◌else◌, u64, arith,
}
use emfe_plugins.Z80.Cpu.State.{
  Cpu, Pair, af, put, put_high, put_low, M, ◌>>=◌, ◌>>◌, ret, gets, modify, load, store, a, f,
  set_a, set_f, set_pc, bump_r, count, when,
}

pub record Kept (s t : Cpu) : Type 0 where
  pub cycles : t.cycle_count ≡ s.cycle_count
  pub instructions : t.instruction_count ≡ s.instruction_count
  pub nmi : t.nmi_pending ≡ s.nmi_pending
  pub irq : t.irq_line ≡ s.irq_line
  pub enabled : t.enabled_breakpoints ≡ s.enabled_breakpoints
  pub disabled : t.disabled_breakpoints ≡ s.disabled_breakpoints
  pub step_mode : t.in_step_mode ≡ s.in_step_mode

pub Kept-refl : (s : Cpu) → Kept s s
Kept-refl s = ground arith

pub Kept-trans : {s t u : Cpu} → Kept s t → Kept t u → Kept s u
Kept-trans h k = record {
  cycles = k.cycles ∙ h.cycles;
  instructions = k.instructions ∙ h.instructions;
  nmi = k.nmi ∙ h.nmi;
  irq = k.irq ∙ h.irq;
  enabled = k.enabled ∙ h.enabled;
  disabled = k.disabled ∙ h.disabled;
  step_mode = k.step_mode ∙ h.step_mode;
}

-- the statement changes none of these
pub record Quiet {A : Type 0} (m : M A) : Type 0 where
  pub run : (s : Cpu) → Kept s (m s).1

-- the numbers of cycles that an instruction takes
pub data IsCycles : ℕ → Type 0 where
  in_range : (n : ℕ) → leb 4 n && leb n 23 ≡ true → IsCycles n

pub either-IsCycles : (b : Bool) (n k : ℕ) → IsCycles n → IsCycles k → IsCycles (if b then n else k)
either-IsCycles true n k h g = h
either-IsCycles false n k h g = g

pub cycles_bounds : {n : ℕ} → IsCycles n → (4 ≤ n) × (n ≤ 23)
cycles_bounds (in_range n h) = ground arith

-- the statement counts one instruction and the cycles that it returns, and changes nothing else of
-- these
pub record Counts (s : Cpu) (n : ℕ) (t : Cpu) : Type 0 where
  pub counted : t.cycle_count ≡ u64 (s.cycle_count + n)
  pub instruction : t.instruction_count ≡ u64 (s.instruction_count + 1)
  pub nmi : t.nmi_pending ≡ s.nmi_pending
  pub irq : t.irq_line ≡ s.irq_line
  pub enabled : t.enabled_breakpoints ≡ s.enabled_breakpoints
  pub disabled : t.disabled_breakpoints ≡ s.disabled_breakpoints
  pub step_mode : t.in_step_mode ≡ s.in_step_mode
  pub in_range : IsCycles n

pub record Counted (m : M ℕ) : Type 0 where
  pub run : (s : Cpu) → Counts s (m s).0 (m s).1

pub Counts-after : {s t u : Cpu} {n : ℕ} → Kept s t → Counts t n u → Counts s n u
Counts-after {n} h k = record {
  counted = k.counted ∙ ap (λ c. u64 (c + n)) h.cycles;
  instruction = k.instruction ∙ ap (λ c. u64 (c + 1)) h.instructions;
  nmi = k.nmi ∙ h.nmi;
  irq = k.irq ∙ h.irq;
  enabled = k.enabled ∙ h.enabled;
  disabled = k.disabled ∙ h.disabled;
  step_mode = k.step_mode ∙ h.step_mode;
  in_range = k.in_range;
}

pub bind-Quiet :
    {A B : Type 0} {m : M A} {k : A → M B} → Quiet m → ((x : A) → Quiet (k x)) → Quiet (m >>= k)
bind-Quiet {m = m} h g = record {
  run = λ s. unfold ◌>>=◌ in Kept-trans (h.run s) ((g (m s).0).run (m s).1);
}

pub then-Quiet : {B : Type 0} {m : M (Unit {0})} {k : M B} → Quiet m → Quiet k → Quiet (m >> k)
then-Quiet {m = m} h g = record { run = λ s. unfold ◌>>◌ in Kept-trans (h.run s) (g.run (m s).1) }

pub bind-Counted :
    {A : Type 0} {m : M A} {k : A → M ℕ} → Quiet m → ((x : A) → Counted (k x)) → Counted (m >>= k)
bind-Counted {m = m} h g = record {
  run = λ s. unfold ◌>>=◌ in Counts-after (h.run s) ((g (m s).0).run (m s).1);
}

pub then-Counted : {m : M (Unit {0})} {k : M ℕ} → Quiet m → Counted k → Counted (m >> k)
then-Counted {m = m} h g = record {
  run = λ s. unfold ◌>>◌ in Counts-after (h.run s) (g.run (m s).1);
}

pub if-Quiet : {A : Type 0} (b : Bool) {m k : M A} → Quiet m → Quiet k → Quiet (if b then m else k)
if-Quiet true h g = h
if-Quiet false h g = g

pub if-Counted : (b : Bool) {m k : M ℕ} → Counted m → Counted k → Counted (if b then m else k)
if-Counted true h g = h
if-Counted false h g = g

pub count-Counted : (n : ℕ) → IsCycles n → Counted (count n)
count-Counted n h = record { run = λ s. unfold count in ground (arith, h) }

pub ret-Quiet : {A : Type 0} (x : A) → Quiet (ret x)
ret-Quiet x = record { run = λ s. unfold ret in Kept-refl s }

pub gets-Quiet : {A : Type 0} (g : Cpu → A) → Quiet (gets g)
gets-Quiet g = record { run = λ s. unfold gets in Kept-refl s }

pub load-Quiet : (p : Pair) → Quiet (load p)
load-Quiet p = record { run = λ s. unfold load in Kept-refl s }

pub a-Quiet : Quiet a
a-Quiet = record { run = λ s. unfold a in Kept-refl s }

pub f-Quiet : Quiet f
f-Quiet = record { run = λ s. unfold f in Kept-refl s }

pub put-Kept : (p : Pair) (v : ℕ) (s : Cpu) → Kept s (put p v s)
unfolding put
put-Kept af v s = ground arith
put-Kept _ v s = ground arith

pub store-Quiet : (p : Pair) (v : ℕ) → Quiet (store p v)
store-Quiet p v = record { run = λ s. unfold store in put-Kept p v s }

pub put_high-Kept : (p : Pair) (v : ℕ) (s : Cpu) → Kept s (put_high p v s)
put_high-Kept p v s = unfold put_high in put-Kept p _ s

pub put_low-Kept : (p : Pair) (v : ℕ) (s : Cpu) → Kept s (put_low p v s)
put_low-Kept p v s = unfold put_low in put-Kept p _ s

pub set_a-Quiet : (v : ℕ) → Quiet (set_a v)
set_a-Quiet v = record { run = λ s. unfold set_a in put_high-Kept af v s }

pub set_f-Quiet : (v : ℕ) → Quiet (set_f v)
set_f-Quiet v = record { run = λ s. unfold set_f in put_low-Kept af v s }

pub set_pc-Quiet : (v : ℕ) → Quiet (set_pc v)
set_pc-Quiet v = record { run = λ s. unfold set_pc in ground arith }

pub bump_r-Quiet : Quiet bump_r
bump_r-Quiet = record { run = λ s. unfold bump_r in ground arith }

pub when-Quiet : (b : Bool) {m : M (Unit {0})} → Quiet m → Quiet (when b m)
unfolding when
when-Quiet true h = record { run = h.run }
when-Quiet false h = record { run = Kept-refl }

pub modify-Quiet : (g : Cpu → Cpu) → ((s : Cpu) → Kept s (g s)) → Quiet (modify g)
modify-Quiet g h = record { run = λ s. unfold modify in h s }

pub put_high-Quiet : (p : Pair) (v : ℕ) → Quiet (modify (put_high p v))
put_high-Quiet p v = modify-Quiet _ (put_high-Kept p v)

pub ruleset frame_rules = (
  bind-Quiet, then-Quiet, bind-Counted, then-Counted, if-Quiet, if-Counted, count-Counted,
  ret-Quiet, gets-Quiet, load-Quiet, a-Quiet, f-Quiet, store-Quiet, set_a-Quiet, set_f-Quiet,
  set_pc-Quiet, bump_r-Quiet, when-Quiet, put_high-Quiet, in_range, either-IsCycles, refl,
)
