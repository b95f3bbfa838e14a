-- ===== src/Z80/Cpu/Bus.antt =====
-- z80/src/Z80Cpu.cpp: instruction fetch, the registers by their code, and the stack.
use emfe_plugins.Base.{ℕ, ◌+◌, ◌*◌, bit_or, ◌==◌, if◌then◌else◌, u16, add_offset}
use emfe_plugins.Z80.Memory
use emfe_plugins.Z80.Cpu.State.{
  Pair, af, bc, de, hl, get, high, low, put_high, put_low, M, ◌>>=◌, ret, gets,
}

-- the bus accesses
unfoldable pub read_byte : ℕ → M ℕ
read_byte addr s = let (v, m) = Memory.read_byte addr s.memory in (v, record s { memory = m })

unfoldable pub write_byte : ℕ → ℕ → M (Unit {0})
write_byte addr v s = (tt, record s { memory = Memory.write_byte addr v s.memory })

unfoldable pub read_word : ℕ → M ℕ
read_word addr s = (Memory.read_word addr s.memory, s)

unfoldable pub write_word : ℕ → ℕ → M (Unit {0})
write_word addr v s = (tt, record s { memory = Memory.write_word addr v s.memory })

unfoldable pub read_io : ℕ → M ℕ
read_io port s = let (v, m) = Memory.read_io port s.memory in (v, record s { memory = m })

unfoldable pub write_io : ℕ → ℕ → M (Unit {0})
write_io port v s = (tt, record s { memory = Memory.write_io port v s.memory })

unfoldable pub fetch_byte : M ℕ
fetch_byte s =
    let (v, m) = Memory.read_byte s.pc s.memory in (v, record s { memory = m; pc = u16 (s.pc + 1) })

unfoldable pub fetch_word : M ℕ
fetch_word = do lo ← fetch_byte; hi ← fetch_byte; ret (u16 (bit_or lo (hi * 256)))

-- where a code of 3 bits leads: to a half of a pair, or to the memory at HL
pub data Operand : Type 0 where
  high_of low_of : Pair → Operand
  at_hl : Operand

unfoldable pub operand : ℕ → Operand
operand code =
    if code == 0
    then Operand.high_of bc
    else if code == 1
    then Operand.low_of bc
    else if code == 2
    then Operand.high_of de
    else if code == 3
    then Operand.low_of de
    else if code == 4
    then Operand.high_of hl
    else if code == 5
    then Operand.low_of hl
    else if code == 6
    then Operand.at_hl
    else Operand.high_of af

unfoldable pub read_operand : Operand → M ℕ
read_operand (Operand.high_of p) = gets (high p)
read_operand (Operand.low_of p) = gets (low p)
read_operand Operand.at_hl = do addr ← gets (get hl); read_byte addr

unfoldable pub write_operand : Operand → ℕ → M (Unit {0})
write_operand (Operand.high_of p) v s = (tt, put_high p v s)
write_operand (Operand.low_of p) v s = (tt, put_low p v s)
write_operand Operand.at_hl v s = write_byte (get hl s) v s

-- `Reg8Read` and `Reg8Write`, at a code below 8
unfoldable pub reg8_read : ℕ → M ℕ
unfolding operand read_operand
reg8_read code = read_operand (operand code)

unfoldable pub reg8_write : ℕ → ℕ → M (Unit {0})
unfolding operand write_operand
reg8_write code v = write_operand (operand code) v

unfoldable pub push16 : ℕ → M (Unit {0})
push16 val s =
    let s' = record s { sp = u16 (s.sp + 65534) } in
    (tt, record s' { memory = Memory.write_word s'.sp val s'.memory })

unfoldable pub pop16 : M ℕ
pop16 s = (Memory.read_word s.sp s.memory, record s { sp = u16 (s.sp + 2) })

-- `PC = static_cast<uint16_t>(PC + e)` for the `int8_t e` of the byte `b`
unfoldable pub jump_by : ℕ → M (Unit {0})
jump_by b s = (tt, record s { pc = add_offset s.pc b })
