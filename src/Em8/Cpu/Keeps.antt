-- ===== src/Em8/Cpu/Keeps.antt =====
-- The widths of the EM8's registers as an invariant, and a rule for each statement.
use emfe_plugins.Base.{ℕ, ◌≤◌, ◌<◌, Bool, arith}
use emfe_plugins.Em8.Memory.{Memory}
use emfe_plugins.Em8.Memory.Valid
use emfe_plugins.Em8.Cpu.State.{
  Flag, Cpu, M, ret, ◌>>=◌, ◌>>◌, set_flag, set_nz, gets, set_a, set_x, set_y, set_sp, set_pc,
  set_fl, halt, put_flag, nz,
}
use emfe_plugins.Em8.Cpu.Bus.{read_byte, write_byte}
use emfe_plugins.Em8.Cpu.Alu.{do_add, do_sub, do_cmp}
use emfe_plugins.Em8.Cpu.Flags.{set_flag-lt}

pub record IsValid (s : Cpu) : Type 0 where
  pub a_in : s.a < 256
  pub x_in : s.x < 256
  pub y_in : s.y < 256
  pub sp_in : s.sp < 256
  pub pc_in : s.pc < 65536
  pub fl_in : s.fl < 256
  pub top_in : s.shadow_stack_top ≤ 256
  pub memory_ok : Valid.IsValid s.memory

-- From a valid CPU the statement `m` returns a value with `P` and leaves a valid CPU.
pub record Keeps {A : Type 0} (P : A → Type 0) (m : M A) : Type 0 where
  pub run : (s : Cpu) → IsValid s → P (m s).0 × IsValid (m s).1

abbrev pub IsByte : ℕ → Type 0
IsByte v = v < 256

abbrev pub IsWord : ℕ → Type 0
IsWord v = v < 65536

abbrev pub Any : {A : Type 0} → A → Type 0
Any v = Unit

pub ret-Keeps : {A : Type 0} {P : A → Type 0} (x : A) → P x → Keeps P (ret x)
ret-Keeps x h = record { run = λ s v. unfold ret in (h, v) }

bind-Keeps :
    {A B : Type 0} {P : A → Type 0} {Q : B → Type 0} {m : M A} {f : A → M B}
    → Keeps P m
    → ((x : A) → P x → Keeps Q (f x))
    → Keeps Q (m >>= f)
bind-Keeps {m = m} h k = record {
  run = λ s v. unfold ◌>>=◌ in (k (m s).0 (h.run s v).0).run (m s).1 (h.run s v).1;
}

-- the rule at the three kinds of values that a statement gives
pub bind_byte :
    {B : Type 0} {Q : B → Type 0} {m : M ℕ} {f : ℕ → M B}
    → Keeps IsByte m
    → ((x : ℕ) → IsByte x → Keeps Q (f x))
    → Keeps Q (m >>= f)
bind_byte h k = bind-Keeps h k

pub bind_word :
    {B : Type 0} {Q : B → Type 0} {m : M ℕ} {f : ℕ → M B}
    → Keeps IsWord m
    → ((x : ℕ) → IsWord x → Keeps Q (f x))
    → Keeps Q (m >>= f)
bind_word h k = bind-Keeps h k

pub bind_value :
    {B : Type 0} {Q : B → Type 0} {m : M Bool} {f : Bool → M B}
    → Keeps Any m
    → ((x : Bool) → Keeps Q (f x))
    → Keeps Q (m >>= f)
bind_value h k = bind-Keeps h (λ x _. k x)

pub then-Keeps :
    {B : Type 0} {Q : B → Type 0} {m : M (Unit {0})} {k : M B}
    → Keeps Any m
    → Keeps Q k
    → Keeps Q (m >> k)
then-Keeps {m = m} h k = record { run = λ s v. unfold ◌>>◌ in k.run (m s).1 (h.run s v).1 }

pub read_byte-Keeps : (addr : ℕ) → Keeps IsByte (read_byte addr)
read_byte-Keeps addr = record {
  run = λ s v.
      unfold read_byte in
      (
        Valid.read-lt addr v.memory_ok,
        record {
          a_in = v.a_in;
          x_in = v.x_in;
          y_in = v.y_in;
          sp_in = v.sp_in;
          pc_in = v.pc_in;
          fl_in = v.fl_in;
          top_in = v.top_in;
          memory_ok = Valid.read-IsValid addr v.memory_ok;
        },
      );
}

pub with_memory :
    {s : Cpu} (m : Memory) → IsValid s → Valid.IsValid m → IsValid (record s { memory = m })
with_memory m v h = record {
  a_in = v.a_in;
  x_in = v.x_in;
  y_in = v.y_in;
  sp_in = v.sp_in;
  pc_in = v.pc_in;
  fl_in = v.fl_in;
  top_in = v.top_in;
  memory_ok = h;
}

pub gets-Keeps :
    {A : Type 0} {P : A → Type 0} (f : Cpu → A)
    → ((s : Cpu) → IsValid s → P (f s))
    → Keeps P (gets f)
gets-Keeps f h = record { run = λ s v. unfold gets in (h s v, v) }

-- a statement without a value, by what it does to the state
pub step-Keeps :
    (f : Cpu → Cpu) → ((s : Cpu) → IsValid s → IsValid (f s)) → Keeps Any (λ s. (tt, f s))
step-Keeps f h = record { run = λ s v. (tt, h s v) }

pub write_byte-Keeps : (addr val : ℕ) → IsByte val → Keeps Any (write_byte addr val)
unfolding write_byte
write_byte-Keeps addr val h =
    step-Keeps _ (λ s v. with_memory _ v (Valid.write-IsValid addr v.memory_ok val h))

pub set_a-Keeps : (val : ℕ) → IsByte val → Keeps Any (set_a val)
unfolding set_a
set_a-Keeps val h = step-Keeps _ (λ s v. ground (arith, v.memory_ok))

pub set_x-Keeps : (val : ℕ) → IsByte val → Keeps Any (set_x val)
unfolding set_x
set_x-Keeps val h = step-Keeps _ (λ s v. ground (arith, v.memory_ok))

pub set_y-Keeps : (val : ℕ) → IsByte val → Keeps Any (set_y val)
unfolding set_y
set_y-Keeps val h = step-Keeps _ (λ s v. ground (arith, v.memory_ok))

pub set_sp-Keeps : (val : ℕ) → IsByte val → Keeps Any (set_sp val)
unfolding set_sp
set_sp-Keeps val h = step-Keeps _ (λ s v. ground (arith, v.memory_ok))

pub set_pc-Keeps : (val : ℕ) → IsWord val → Keeps Any (set_pc val)
unfolding set_pc
set_pc-Keeps val h = step-Keeps _ (λ s v. ground (arith, v.memory_ok))

pub set_fl-Keeps : (val : ℕ) → IsByte val → Keeps Any (set_fl val)
unfolding set_fl
set_fl-Keeps val h = step-Keeps _ (λ s v. ground (arith, v.memory_ok))

pub halt-Keeps : Keeps Any halt
unfolding halt
halt-Keeps = step-Keeps _ (λ s v. ground (arith, v.memory_ok))

set_flag-IsValid : (f : Flag) (on : Bool) {s : Cpu} → IsValid s → IsValid (set_flag f on s)
set_flag-IsValid f on {s} v =
    let small : (set_flag f on s).fl < 256 = set_flag-lt f on s v.fl_in in
    unfold set_flag in
    record {
      a_in = v.a_in;
      x_in = v.x_in;
      y_in = v.y_in;
      sp_in = v.sp_in;
      pc_in = v.pc_in;
      fl_in = small;
      top_in = v.top_in;
      memory_ok = v.memory_ok;
    }

set_nz-IsValid : (val : ℕ) {s : Cpu} → IsValid s → IsValid (set_nz val s)
unfolding set_nz
set_nz-IsValid val v = set_flag-IsValid _ _ (set_flag-IsValid _ _ v)

with_a : {s : Cpu} (val : ℕ) → IsByte val → IsValid s → IsValid (record s { a = val })
with_a val h v = ground (arith, v.memory_ok)

pub put_flag-Keeps : (f : Flag) (on : Bool) → Keeps Any (put_flag f on)
unfolding put_flag
put_flag-Keeps f on = step-Keeps _ (λ s v. set_flag-IsValid f on v)

pub nz-Keeps : (val : ℕ) → Keeps Any (nz val)
unfolding nz
nz-Keeps val = step-Keeps _ (λ s v. set_nz-IsValid val v)

pub do_add-Keeps : (val : ℕ) → Keeps Any (do_add val)
unfolding do_add
do_add-Keeps val =
    step-Keeps _ λ s v.
      set_nz-IsValid _ (with_a _ (omega arith) (set_flag-IsValid _ _ (set_flag-IsValid _ _ v)))

pub do_sub-Keeps : (val : ℕ) → Keeps Any (do_sub val)
unfolding do_sub
do_sub-Keeps val =
    step-Keeps _ λ s v.
      set_nz-IsValid _ (with_a _ (omega arith) (set_flag-IsValid _ _ (set_flag-IsValid _ _ v)))

pub do_cmp-Keeps : (reg val : ℕ) → Keeps Any (do_cmp reg val)
unfolding do_cmp
do_cmp-Keeps reg val =
    step-Keeps _ λ s v. set_flag-IsValid _ _ (set_flag-IsValid _ _ (set_flag-IsValid _ _ v))
