-- ===== src/Em8/Cpu/State.antt =====
-- em8/src/Em8Cpu.h: the registers and the flags, and the monad of the CPU's methods.
use emfe_plugins.Base.{ℕ, Bool, true, false, not, bit_and, bit_or, ◌==◌, if◌then◌else◌, not8}
use emfe_plugins.Em8.Memory.{Memory}

-- The constants `FLAG_C` to `FLAG_N` are the masks of the flags.
pub data Flag : Type 0 where
  c z i b v n : Flag

abbrev pub mask : Flag → ℕ
mask c = 0x01
mask z = 0x02
mask i = 0x04
mask b = 0x10
mask v = 0x40
mask n = 0x80

pub record Cpu : Type 0 where
  pub a : ℕ
  pub x : ℕ
  pub y : ℕ
  pub sp : ℕ
  pub pc : ℕ
  pub fl : ℕ
  pub halted : Bool
  pub cycle_count : ℕ
  pub instruction_count : ℕ
  pub nmi_pending : Bool
  pub irq_line : Bool
  pub shadow_stack : ℕ → ℕ
  pub shadow_stack_top : ℕ
  pub memory : Memory

-- the object as it is constructed
abbrev pub init : Memory → Cpu
init m = record {
  a = 0;
  x = 0;
  y = 0;
  sp = 0xff;
  pc = 0;
  fl = 0x04;
  halted = false;
  cycle_count = 0;
  instruction_count = 0;
  nmi_pending = false;
  irq_line = false;
  shadow_stack = λ k. 0;
  shadow_stack_top = 0;
  memory = m;
}

unfoldable pub get_flag : Flag → Cpu → Bool
get_flag f s = not (bit_and s.fl (mask f) == 0)

unfoldable pub set_flag : Flag → Bool → Cpu → Cpu
set_flag f on s = record s {
  fl = if on then bit_or s.fl (mask f) else bit_and s.fl (not8 (mask f));
}

-- `SetNZ`
unfoldable pub set_nz : ℕ → Cpu → Cpu
set_nz val s = set_flag n (not (bit_and val 0x80 == 0)) (set_flag z (val == 0) s)

-- A method, and a sequence of statements.
abbrev pub M : Type 0 → Type 0
M A = Cpu → A × Cpu

unfoldable pub ret : {A : Type 0} → A → M A
ret x s = (x, s)

infixl 5 ◌>>=◌ ◌>>◌
unfoldable pub ◌>>=◌ : {A B : Type 0} → M A → (A → M B) → M B
◌>>=◌ m f s = let (x, s') = m s in f x s'

unfoldable pub ◌>>◌ : {B : Type 0} → M (Unit {0}) → M B → M B
◌>>◌ m k s = k (m s).1

-- the statements that the instructions are made of
unfoldable pub gets : {A : Type 0} → (Cpu → A) → M A
gets f s = (f s, s)

unfoldable pub set_a : ℕ → M (Unit {0})
set_a val s = (tt, record s { a = val })

unfoldable pub set_x : ℕ → M (Unit {0})
set_x val s = (tt, record s { x = val })

unfoldable pub set_y : ℕ → M (Unit {0})
set_y val s = (tt, record s { y = val })

unfoldable pub set_sp : ℕ → M (Unit {0})
set_sp val s = (tt, record s { sp = val })

unfoldable pub set_pc : ℕ → M (Unit {0})
set_pc val s = (tt, record s { pc = val })

unfoldable pub set_fl : ℕ → M (Unit {0})
set_fl val s = (tt, record s { fl = val })

unfoldable pub halt : M (Unit {0})
halt s = (tt, record s { halted = true })

unfoldable pub put_flag : Flag → Bool → M (Unit {0})
put_flag f on s = (tt, set_flag f on s)

unfoldable pub nz : ℕ → M (Unit {0})
nz val s = (tt, set_nz val s)
