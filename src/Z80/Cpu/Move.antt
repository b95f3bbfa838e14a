-- ===== src/Z80/Cpu/Move.antt =====
-- z80/src/Z80Cpu.cpp, `ExecuteOne`: the loads, the 16-bit and 8-bit arithmetic, the stack and the
-- exchanges. Each takes the opcode that its test let through.
use emfe_plugins.Base.{ℕ, ◌+◌, ◌/◌, ◌||◌, bit_and, ◌==◌, if◌then◌else◌, u8, u16}
use emfe_plugins.Z80.Cpu.State.{
  Pair, bc, de, hl, sp, M, ◌>>=◌, ◌>>◌, modify, load, store, a, f, set_a, set_f, count,
}
use emfe_plugins.Z80.Cpu.Bus.{
  read_byte, write_byte, read_word, write_word, fetch_byte, fetch_word, reg8_read, reg8_write,
  push16, pop16,
}
use emfe_plugins.Z80.Cpu.Alu.{alu, inc_flags, dec_flags}
use emfe_plugins.Z80.Cpu.Pairs.{add_pair16}

-- `switch (pp)` on the bits 4 and 5, with what stands at 2 and 3
unfoldable pub pair_of : Pair → Pair → ℕ → Pair
pair_of third fourth opcode =
    let pp = bit_and (opcode / 16) 0x03 in
    if pp == 0 then bc else if pp == 1 then de else if pp == 2 then third else fourth

-- the bits 3 to 5 and 0 to 2
abbrev pub dst_of : ℕ → ℕ
dst_of opcode = bit_and (opcode / 8) 0x07

abbrev pub src_of : ℕ → ℕ
src_of opcode = bit_and opcode 0x07

unfoldable pub ld_rr_nn : ℕ → M ℕ
ld_rr_nn opcode = do nn ← fetch_word; store (pair_of hl sp opcode) nn; count 10

unfoldable pub add_hl_rr : ℕ → M ℕ
add_hl_rr opcode = do
  x ← load hl
  y ← load (pair_of hl sp opcode)
  sum ← add_pair16 x y
  store hl sum
  count 11

unfoldable pub inc_rr : ℕ → M ℕ
inc_rr opcode = do
  x ← load (pair_of hl sp opcode)
  store (pair_of hl sp opcode) (u16 (x + 1))
  count 6

unfoldable pub dec_rr : ℕ → M ℕ
dec_rr opcode = do
  x ← load (pair_of hl sp opcode)
  store (pair_of hl sp opcode) (u16 (x + 65535))
  count 6

-- the flags behind the written result of `INC r` and `DEC r`
unfoldable pub set_inc_flags : ℕ → M (Unit {0})
set_inc_flags orig = do fl ← f; set_f (inc_flags orig fl)

unfoldable pub set_dec_flags : ℕ → M (Unit {0})
set_dec_flags orig = do fl ← f; set_f (dec_flags orig fl)

unfoldable pub inc_r : ℕ → M ℕ
inc_r opcode = do
  orig ← reg8_read (dst_of opcode)
  reg8_write (dst_of opcode) (u8 (orig + 1))
  set_inc_flags orig
  count (if dst_of opcode == 6 then 11 else 4)

unfoldable pub dec_r : ℕ → M ℕ
dec_r opcode = do
  orig ← reg8_read (dst_of opcode)
  reg8_write (dst_of opcode) (u8 (orig + 255))
  set_dec_flags orig
  count (if dst_of opcode == 6 then 11 else 4)

unfoldable pub ld_at_pair_a : Pair → M ℕ
ld_at_pair_a p = do addr ← load p; x ← a; write_byte addr x; count 7

unfoldable pub ld_a_at_pair : Pair → M ℕ
ld_a_at_pair p = do addr ← load p; v ← read_byte addr; set_a v; count 7

-- LD (nn), HL and LD HL, (nn), and the like of an index register
unfoldable pub ld_at_nn : Pair → ℕ → M ℕ
ld_at_nn p cycles = do nn ← fetch_word; v ← load p; write_word nn v; count cycles

unfoldable pub ld_from_nn : Pair → ℕ → M ℕ
ld_from_nn p cycles = do nn ← fetch_word; v ← read_word nn; store p v; count cycles

unfoldable pub ld_at_nn_a : M ℕ
ld_at_nn_a = do nn ← fetch_word; x ← a; write_byte nn x; count 13

unfoldable pub ld_a_from_nn : M ℕ
ld_a_from_nn = do nn ← fetch_word; v ← read_byte nn; set_a v; count 13

unfoldable pub ld_r_n : ℕ → M ℕ
ld_r_n opcode = do
  imm ← fetch_byte
  reg8_write (dst_of opcode) imm
  count (if dst_of opcode == 6 then 10 else 7)

unfoldable pub ld_r_r : ℕ → M ℕ
ld_r_r opcode = do
  v ← reg8_read (src_of opcode)
  reg8_write (dst_of opcode) v
  count (if src_of opcode == 6 || dst_of opcode == 6 then 7 else 4)

unfoldable pub alu_r : ℕ → M ℕ
alu_r opcode = do
  val ← reg8_read (src_of opcode)
  alu (dst_of opcode) val
  count (if src_of opcode == 6 then 7 else 4)

unfoldable pub alu_n : ℕ → M ℕ
alu_n opcode = do val ← fetch_byte; alu (dst_of opcode) val; count 7

-- PUSH and POP, with the cycles of a plain or an index register
unfoldable pub push_rr : Pair → ℕ → M ℕ
push_rr p cycles = do v ← load p; push16 v; count cycles

unfoldable pub pop_rr : Pair → ℕ → M ℕ
pop_rr p cycles = do v ← pop16; store p v; count cycles

-- LD SP, HL and LD SP, IXY
unfoldable pub ld_sp : Pair → ℕ → M ℕ
ld_sp p cycles = do v ← load p; store sp v; count cycles

unfoldable pub ex_af : M ℕ
ex_af = do modify (λ s. record s { af = s.af_shadow; af_shadow = s.af }); count 4

unfoldable pub exx : M ℕ
exx = do
  modify λ s. record s {
    bc = s.bc_shadow;
    bc_shadow = s.bc;
    de = s.de_shadow;
    de_shadow = s.de;
    hl = s.hl_shadow;
    hl_shadow = s.hl;
  }
  count 4

unfoldable pub ex_de_hl : M ℕ
ex_de_hl = do modify (λ s. record s { de = s.hl; hl = s.de }); count 4

unfoldable pub ex_sp_hl : M ℕ
ex_sp_hl = do top ← load sp; v ← read_word top; x ← load hl; write_word top x; store hl v; count 19
