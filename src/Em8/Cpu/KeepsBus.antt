-- ===== src/Em8/Cpu/KeepsBus.antt =====
-- The rules for the EM8's bus accesses, its stack and its addressing modes.
use emfe_plugins.Base.{ℕ, ◌+◌, arith, u8, u16, word}
use emfe_plugins.Em8.Memory.Valid
use emfe_plugins.Em8.Cpu.State.{Cpu, gets}
use emfe_plugins.Em8.Cpu.Bus.{
  fetch_byte, fetch_word, push8, pull8, push16, pull16, addr_zpg, addr_zpg_x, addr_abs, addr_abs_x,
  addr_ind,
}
use emfe_plugins.Em8.Cpu.Keeps.{
  IsValid, Keeps, IsByte, IsWord, Any, ret-Keeps, bind_byte, bind_word, bind_value, then-Keeps,
  read_byte-Keeps, gets-Keeps, step-Keeps, with_memory, write_byte-Keeps, do_add-Keeps,
  do_sub-Keeps, do_cmp-Keeps, put_flag-Keeps, nz-Keeps, set_a-Keeps, set_x-Keeps, set_y-Keeps,
  set_sp-Keeps, set_pc-Keeps, set_fl-Keeps, halt-Keeps,
}

with_pc : {s : Cpu} (val : ℕ) → IsWord val → IsValid s → IsValid (record s { pc = val })
with_pc val h v = ground (arith, v.memory_ok)

with_sp : {s : Cpu} (val : ℕ) → IsByte val → IsValid s → IsValid (record s { sp = val })
with_sp val h v = ground (arith, v.memory_ok)

pub fetch_byte-Keeps : Keeps IsByte fetch_byte
unfolding fetch_byte
fetch_byte-Keeps = record {
  run = λ s v. (read_byte-Keeps s.pc).run _ (with_pc (u16 (s.pc + 1)) (omega arith) v);
}

pub push8-Keeps : (val : ℕ) → IsByte val → Keeps Any (push8 val)
unfolding push8
push8-Keeps val h = step-Keeps _ λ s v.
    with_sp _ (omega arith)
      (with_memory _ v (Valid.write-IsValid (0x0100 + s.sp) v.memory_ok val h))

pub pull8-Keeps : Keeps IsByte pull8
unfolding pull8
pull8-Keeps = record {
  run = λ s v.
      (read_byte-Keeps (0x0100 + u8 (s.sp + 1))).run _ (with_sp (u8 (s.sp + 1)) (omega arith) v);
}

pub word-lt : (hi lo : ℕ) → IsWord (word hi lo)
word-lt hi lo = omega arith

pub u8-lt : (k : ℕ) → IsByte (u8 k)
u8-lt k = omega arith

pub u16-lt : (k : ℕ) → IsWord (u16 k)
u16-lt k = omega arith

pub ruleset bus_rules = (
  ret-Keeps, bind_byte, bind_word, bind_value, then-Keeps, fetch_byte-Keeps, read_byte-Keeps,
  push8-Keeps, pull8-Keeps, word-lt, u8-lt, u16-lt,
)

pub fetch_word-Keeps : Keeps IsWord fetch_word
unfolding fetch_word
fetch_word-Keeps = search bus_rules depth 8

pub pull16-Keeps : Keeps IsWord pull16
unfolding pull16
pull16-Keeps = search bus_rules depth 8

pub push16-Keeps : (val : ℕ) → Keeps Any (push16 val)
unfolding push16
push16-Keeps val = search bus_rules depth 8

pub gets_x-Keeps : Keeps IsByte (gets (λ s. s.x))
gets_x-Keeps = gets-Keeps _ (λ s v. v.x_in)

pub addr_zpg-Keeps : Keeps IsByte addr_zpg
unfolding addr_zpg
addr_zpg-Keeps = fetch_byte-Keeps

pub addr_zpg_x-Keeps : Keeps IsByte addr_zpg_x
unfolding addr_zpg_x
addr_zpg_x-Keeps = search (bus_rules, gets_x-Keeps) depth 8

pub addr_abs-Keeps : Keeps IsWord addr_abs
unfolding addr_abs
addr_abs-Keeps = fetch_word-Keeps

pub addr_abs_x-Keeps : Keeps IsWord addr_abs_x
unfolding addr_abs_x
addr_abs_x-Keeps = search (bus_rules, fetch_word-Keeps, gets_x-Keeps) depth 8

pub addr_ind-Keeps : Keeps IsWord addr_ind
unfolding addr_ind
addr_ind-Keeps = search bus_rules depth 10

pub ruleset statement_rules = (
  bus_rules, fetch_word-Keeps, pull16-Keeps, push16-Keeps, addr_zpg-Keeps, addr_zpg_x-Keeps,
  addr_abs-Keeps, addr_abs_x-Keeps, addr_ind-Keeps, write_byte-Keeps, do_add-Keeps, do_sub-Keeps,
  do_cmp-Keeps, put_flag-Keeps, nz-Keeps, set_a-Keeps, set_x-Keeps, set_y-Keeps, set_sp-Keeps,
  set_pc-Keeps, set_fl-Keeps, halt-Keeps, gets_x-Keeps,
)
