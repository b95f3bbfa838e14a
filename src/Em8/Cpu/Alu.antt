-- ===== src/Em8/Cpu/Alu.antt =====
-- em8/src/Em8Cpu.cpp: `DoAdd`, `DoSub` and `DoCmp`. `~` of an `int` is taken on its 32 bits.
use emfe_plugins.Base.{
  ℕ, ◌+◌, ◌-◌, not, bit_and, bit_xor, ltb, leb, ◌==◌, if◌then◌else◌, u8, u16, not8, not32,
}
use emfe_plugins.Em8.Cpu.State.{c, z, v, n, Cpu, M, get_flag, set_flag, set_nz}

unfoldable pub carry : Cpu → ℕ
carry s = if get_flag c s then 1 else 0

unfoldable pub do_add : ℕ → M (Unit {0})
do_add val s =
    let sum = u16 (s.a + val + carry s) in
    let overflow =
      not (bit_and (bit_and (not32 (bit_xor s.a val)) (bit_xor s.a (u8 sum))) 0x80 == 0) in
    let flagged = set_flag v overflow (set_flag c (ltb 0xff sum) s) in
    (tt, set_nz (u8 sum) (record flagged { a = u8 sum }))

unfoldable pub do_sub : ℕ → M (Unit {0})
do_sub val s =
    let diff = u16 (s.a + not8 val + carry s) in
    let overflow = not (bit_and (bit_and (bit_xor s.a val) (bit_xor s.a (u8 diff))) 0x80 == 0) in
    let flagged = set_flag v overflow (set_flag c (ltb 0xff diff) s) in
    (tt, set_nz (u8 diff) (record flagged { a = u8 diff }))

unfoldable pub do_cmp : ℕ → ℕ → M (Unit {0})
do_cmp reg val s =
    let diff = u16 (reg + 65536 - val) in
    let compared = set_flag z (reg == val) (set_flag c (leb val reg) s) in
    (tt, set_flag n (not (bit_and (u8 diff) 0x80 == 0)) compared)
