-- ===== src/Z80/Cpu/State.antt =====
-- z80/src/Z80Cpu.h: the registers and their halves, the flags, and the monad of the CPU's methods.
use emfe_plugins.Base.{
  ℕ, ◌+◌, ◌*◌, ◌/◌, Bool, false, not, List, [], bit_and, bit_or, ◌==◌, if◌then◌else◌, u8, u16, u64,
}
use emfe_plugins.Z80.Memory.{Memory}

pub record Cpu : Type 0 where
  pub af : ℕ
  pub bc : ℕ
  pub de : ℕ
  pub hl : ℕ
  -- `AF_` to `HL_`, the shadow set
  pub af_shadow : ℕ
  pub bc_shadow : ℕ
  pub de_shadow : ℕ
  pub hl_shadow : ℕ
  pub ix : ℕ
  pub iy : ℕ
  pub sp : ℕ
  pub pc : ℕ
  pub i : ℕ
  pub r : ℕ
  pub iff1 : Bool
  pub iff2 : Bool
  pub im : ℕ
  pub halted : Bool
  pub cycle_count : ℕ
  pub instruction_count : ℕ
  pub nmi_pending : Bool
  pub irq_line : Bool
  pub ei_delay_pending : Bool
  pub enabled_breakpoints : List ℕ
  pub disabled_breakpoints : List ℕ
  pub in_step_mode : Bool
  pub memory : Memory

-- the object as it is constructed
abbrev pub init : Memory → Cpu
init m = record {
  af = 0;
  bc = 0;
  de = 0;
  hl = 0;
  af_shadow = 0;
  bc_shadow = 0;
  de_shadow = 0;
  hl_shadow = 0;
  ix = 0;
  iy = 0;
  sp = 0;
  pc = 0;
  i = 0;
  r = 0;
  iff1 = false;
  iff2 = false;
  im = 0;
  halted = false;
  cycle_count = 0;
  instruction_count = 0;
  nmi_pending = false;
  irq_line = false;
  ei_delay_pending = false;
  enabled_breakpoints = [];
  disabled_breakpoints = [];
  in_step_mode = false;
  memory = m;
}

-- The breakpoints, the step mode and the memory stay.
unfoldable pub reset : Cpu → Cpu
reset s = record (init s.memory) {
  enabled_breakpoints = s.enabled_breakpoints;
  disabled_breakpoints = s.disabled_breakpoints;
  in_step_mode = s.in_step_mode;
}

-- the 16-bit registers that instructions name, a pointer to one among them
pub data Pair : Type 0 where
  af bc de hl ix iy sp : Pair

unfoldable pub get : Pair → Cpu → ℕ
get af s = s.af
get bc s = s.bc
get de s = s.de
get hl s = s.hl
get ix s = s.ix
get iy s = s.iy
get sp s = s.sp

unfoldable pub put : Pair → ℕ → Cpu → Cpu
put af v s = record s { af = v }
put bc v s = record s { bc = v }
put de v s = record s { de = v }
put hl v s = record s { hl = v }
put ix v s = record s { ix = v }
put iy v s = record s { iy = v }
put sp v s = record s { sp = v }

-- `A()`, `B()`, `D()` and `H()`, and `ixyH` of an index register
unfoldable pub high : Pair → Cpu → ℕ
high p s = u8 (get p s / 256)

-- `F()`, `C()`, `E()` and `L()`, and `ixyL`
unfoldable pub low : Pair → Cpu → ℕ
low p s = u8 (bit_and (get p s) 0xFF)

-- `SetA` and the like
unfoldable pub put_high : Pair → ℕ → Cpu → Cpu
put_high p v s = put p (u16 (bit_or (bit_and (get p s) 0x00FF) (v * 256))) s

-- `SetF` and the like
unfoldable pub put_low : Pair → ℕ → Cpu → Cpu
put_low p v s = put p (u16 (bit_or (bit_and (get p s) 0xFF00) v)) s

-- the masks `F_S` to `F_C`
abbrev pub f_s : ℕ
f_s = 0x80

abbrev pub f_z : ℕ
f_z = 0x40

abbrev pub f_y : ℕ
f_y = 0x20

abbrev pub f_h : ℕ
f_h = 0x10

abbrev pub f_x : ℕ
f_x = 0x08

abbrev pub f_pv : ℕ
f_pv = 0x04

abbrev pub f_n : ℕ
f_n = 0x02

abbrev pub f_c : ℕ
f_c = 0x01

-- `(v & mask) != 0`
abbrev pub has : ℕ → ℕ → Bool
has v mask = not (bit_and v mask == 0)

-- `if (on) f |= mask;`
abbrev pub mark : Bool → ℕ → ℕ → ℕ
mark on mask f = if on then bit_or f mask else f

-- A method, and a sequence of statements.
abbrev pub M : Type 0 → Type 0
M A = Cpu → A × Cpu

infixl 5 ◌>>=◌ ◌>>◌
unfoldable pub ◌>>=◌ : {A B : Type 0} → M A → (A → M B) → M B
◌>>=◌ m f s = let (x, s') = m s in f x s'

unfoldable pub ◌>>◌ : {B : Type 0} → M (Unit {0}) → M B → M B
◌>>◌ m k s = k (m s).1

unfoldable pub ret : {A : Type 0} → A → M A
ret x s = (x, s)

unfoldable pub gets : {A : Type 0} → (Cpu → A) → M A
gets f s = (f s, s)

unfoldable pub modify : (Cpu → Cpu) → M (Unit {0})
modify f s = (tt, f s)

unfoldable pub load : Pair → M ℕ
load p s = (get p s, s)

unfoldable pub store : Pair → ℕ → M (Unit {0})
store p v s = (tt, put p v s)

unfoldable pub a : M ℕ
a s = (high af s, s)

unfoldable pub f : M ℕ
f s = (low af s, s)

unfoldable pub set_a : ℕ → M (Unit {0})
set_a v s = (tt, put_high af v s)

unfoldable pub set_f : ℕ → M (Unit {0})
set_f v s = (tt, put_low af v s)

unfoldable pub set_pc : ℕ → M (Unit {0})
set_pc v s = (tt, record s { pc = v })

-- `CycleCount += cycles; InstructionCount++; return cycles;`
unfoldable pub count : ℕ → M ℕ
count cycles s = (
  cycles,
  record s {
    cycle_count = u64 (s.cycle_count + cycles);
    instruction_count = u64 (s.instruction_count + 1);
  },
)

-- `R = (R & 0x80) | ((R + 1) & 0x7F)`
unfoldable pub bump_r : M (Unit {0})
bump_r s = (tt, record s { r = u8 (bit_or (bit_and s.r 0x80) (bit_and (s.r + 1) 0x7F)) })

-- A part of an instruction whose statement is chosen by a test.
unfoldable pub when : Bool → M (Unit {0}) → M (Unit {0})
when b m s = if b then m s else (tt, s)
