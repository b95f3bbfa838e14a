-- ===== src/Z80/Cpu/Stays.antt =====
-- What the Z80's statements do to the PC: nothing, but for the fetches and the jumps.
use emfe_plugins.Base.{
  ℕ, zero, suc, ◌+◌, ◌≡◌, refl, ◌∙◌, ap, Bool, true, false, if◌then◌else◌, u16, arith,
}
use emfe_plugins.Z80.Cpu.State.{
  Cpu, Pair, af, put, put_high, put_low, M, ◌>>=◌, ◌>>◌, ret, gets, modify, load, store, a, f,
  set_a, set_f, bump_r, count, when,
}
use emfe_plugins.Z80.Cpu.Bus.{
  read_byte, write_byte, read_word, write_word, read_io, write_io, push16, pop16,
}

pub record Still {A : Type 0} (m : M A) : Type 0 where
  pub run : (s : Cpu) → (m s).1.pc ≡ s.pc

pub bind-Still :
    {A B : Type 0} {m : M A} {k : A → M B} → Still m → ((x : A) → Still (k x)) → Still (m >>= k)
bind-Still {m = m} h g = record { run = λ s. unfold ◌>>=◌ in (g (m s).0).run (m s).1 ∙ h.run s }

pub then-Still : {B : Type 0} {m : M (Unit {0})} {k : M B} → Still m → Still k → Still (m >> k)
then-Still {m = m} h g = record { run = λ s. unfold ◌>>◌ in g.run (m s).1 ∙ h.run s }

pub if-Still : {A : Type 0} (b : Bool) {m k : M A} → Still m → Still k → Still (if b then m else k)
if-Still true h g = h
if-Still false h g = g

pub when-Still : (b : Bool) {m : M (Unit {0})} → Still m → Still (when b m)
unfolding when
when-Still true h = record { run = h.run }
when-Still false h = record { run = λ s. refl }

pub modify-Still : (g : Cpu → Cpu) → ((s : Cpu) → (g s).pc ≡ s.pc) → Still (modify g)
modify-Still g h = record { run = λ s. unfold modify in h s }

pub pc-put : (p : Pair) (v : ℕ) (s : Cpu) → (put p v s).pc ≡ s.pc
unfolding put
pc-put af v s = refl
pc-put _ v s = refl

pub pc-put_high : (p : Pair) (v : ℕ) (s : Cpu) → (put_high p v s).pc ≡ s.pc
pc-put_high p v s = unfold put_high in pc-put p _ s

pub put_high-Still : (p : Pair) (v : ℕ) → Still (modify (put_high p v))
put_high-Still p v = modify-Still _ (pc-put_high p v)

pub pc-put_low : (p : Pair) (v : ℕ) (s : Cpu) → (put_low p v s).pc ≡ s.pc
pc-put_low p v s = unfold put_low in pc-put p _ s

pub ret-Still : {A : Type 0} (x : A) → Still (ret x)
ret-Still x = record { run = λ s. unfold ret in refl }

pub gets-Still : {A : Type 0} (g : Cpu → A) → Still (gets g)
gets-Still g = record { run = λ s. unfold gets in refl }

pub load-Still : (p : Pair) → Still (load p)
load-Still p = record { run = λ s. unfold load in refl }

pub a-Still : Still a
a-Still = record { run = λ s. unfold a in refl }

pub f-Still : Still f
f-Still = record { run = λ s. unfold f in refl }

pub bump_r-Still : Still bump_r
bump_r-Still = record { run = λ s. unfold bump_r in refl }

pub count-Still : (n : ℕ) → Still (count n)
count-Still n = record { run = λ s. unfold count in refl }

pub read_byte-Still : (addr : ℕ) → Still (read_byte addr)
read_byte-Still addr = record { run = λ s. unfold read_byte in refl }

pub write_byte-Still : (addr v : ℕ) → Still (write_byte addr v)
write_byte-Still addr v = record { run = λ s. unfold write_byte in refl }

pub read_word-Still : (addr : ℕ) → Still (read_word addr)
read_word-Still addr = record { run = λ s. unfold read_word in refl }

pub write_word-Still : (addr v : ℕ) → Still (write_word addr v)
write_word-Still addr v = record { run = λ s. unfold write_word in refl }

pub read_io-Still : (port : ℕ) → Still (read_io port)
read_io-Still port = record { run = λ s. unfold read_io in refl }

pub write_io-Still : (port v : ℕ) → Still (write_io port v)
write_io-Still port v = record { run = λ s. unfold write_io in refl }

pub push16-Still : (v : ℕ) → Still (push16 v)
push16-Still v = record { run = λ s. unfold push16 in refl }

pub pop16-Still : Still pop16
pop16-Still = record { run = λ s. unfold pop16 in refl }

pub store-Still : (p : Pair) (v : ℕ) → Still (store p v)
store-Still p v = record { run = λ s. unfold store in pc-put p v s }

pub set_a-Still : (v : ℕ) → Still (set_a v)
set_a-Still v = record { run = λ s. unfold set_a in pc-put_high af v s }

pub set_f-Still : (v : ℕ) → Still (set_f v)
set_f-Still v = record { run = λ s. unfold set_f in pc-put_low af v s }

pub ruleset still_rules = (
  bind-Still, then-Still, if-Still, when-Still, ret-Still, gets-Still, load-Still, a-Still, f-Still,
  bump_r-Still, count-Still, read_byte-Still, write_byte-Still, read_word-Still, write_word-Still,
  read_io-Still, write_io-Still, push16-Still, pop16-Still, store-Still, set_a-Still, set_f-Still,
  refl,
)
