-- ===== src/Z80/Tests.antt =====
-- The Z80's theorems at concrete boards, and runs of the model.
use emfe_plugins.Base.{
  ℕ, zero, suc, ◌+◌, ◌-◌, ◌*◌, ◌%◌, ◌≡◌, List, [], ◌∷◌, refl, true, false, some, ◌≤◌, ltb, leb,
  ◌==◌, if◌then◌else◌, u16, bit_or, length, arith,
}
use emfe_plugins.Z80.Uart
use emfe_plugins.Z80.Uart.Queue
use emfe_plugins.Z80.Uart.Refine
use emfe_plugins.Z80.Disk
use emfe_plugins.Z80.Disk.{Disk, Ram}
use emfe_plugins.Z80.Disk.Transfer
use emfe_plugins.Z80.Disk.Registers
use emfe_plugins.Z80.Memory
use emfe_plugins.Z80.Memory.{Memory}
use emfe_plugins.Z80.Cpu.State
use emfe_plugins.Z80.Cpu.State.{
  Cpu, Pair, af, high, low, f_c, has, ◌>>=◌, ◌>>◌, bump_r, modify, count,
}
use emfe_plugins.Z80.Cpu.Alu.{alu, of_bool}
use emfe_plugins.Z80.Cpu.Accumulator.{op_daa}
use emfe_plugins.Z80.Cpu.Rotate.{rot_rl, rot_rr}
use emfe_plugins.Z80.Cpu.Halves.{with_a_f}
use emfe_plugins.Z80.Cpu.Arithmetic
use emfe_plugins.Z80.Cpu.Arithmetic.{taken}
use emfe_plugins.Z80.Cpu.Decimal
use emfe_plugins.Z80.Cpu.Decimal.{bcd}
use emfe_plugins.Z80.Cpu.Rotations
use emfe_plugins.Z80.Cpu.Returns
use emfe_plugins.Z80.Cpu.Schedule
use emfe_plugins.Z80.Cpu.Schedule.{steps, raised, later}
use emfe_plugins.Z80.Cpu.BlockMove
use emfe_plugins.Z80.Cpu.Outcome
use emfe_plugins.Z80.Cpu.Index
use emfe_plugins.Z80.Cpu.Travels
use emfe_plugins.Z80.Cpu.Straight
use emfe_plugins.Z80.Disasm.Indexed
use emfe_plugins.Z80.Disasm.Decode
use emfe_plugins.Z80.Disasm.Reads
use emfe_plugins.Z80.Disasm.Agree
use emfe_plugins.Base.Text.{codes, hex_byte}
use emfe_plugins.Z80.Cpu.Control.{call_nn, ret_pc, ei, nop}
use emfe_plugins.Z80.Cpu.Bus.{fetch_byte}
use emfe_plugins.Z80.Cpu.Extended.{retn}
use emfe_plugins.Z80.Cpu.Interrupts.{accept_nmi, accept_irq}
use emfe_plugins.Z80.Cpu.Execute.{execute_one, execute_instruction, as_int, decode, perform}

empty_uart-IsValid : Refine.IsValid Uart.init
empty_uart-IsValid = record { tail_in = omega arith; count_in = omega arith; head_at = refl }

abbrev console_ops : List Queue.Op
console_ops =
    Queue.Op.receive 65
    ∷ Queue.Op.input 0xFF
    ∷ Queue.Op.input 0xFE
    ∷ Queue.Op.output 0xFE 66
    ∷ Queue.Op.reset
    ∷ Queue.Op.input 0xFF
    ∷ []

session-refines_example :
    (let (rs, u) = Refine.session console_ops Uart.init in (rs, Refine.port u))
    ≡ Queue.session 8 console_ops (Refine.port Uart.init)
session-refines_example = Refine.session-refines console_ops empty_uart-IsValid

abbrev zeros : ℕ → List ℕ
zeros zero = []
zeros (suc n) = 0 ∷ zeros n

-- two sectors, the second selected, and a buffer that goes round the end of the RAM
abbrev drive : Disk
drive = record {
  image = zeros 256;
  write_protect = false;
  lba = 1;
  buf_ptr = 0xFFC0;
  error_sticky = false;
}

drive-IsValid : Transfer.IsValid drive
drive-IsValid = record { lba_in = omega arith; buf_ptr_in = omega arith }

abbrev pattern_ram : Ram
pattern_ram addr = addr % 256

sector_roundtrip_example :
    let d' = record (Disk.execute_command 2 drive pattern_ram).0 { buf_ptr = 0x8000 } in
    (Disk.execute_command 1 d' (λ a. 0)).1 0x8010 ≡ (
      if ltb (Transfer.behind_buffer d' 0x8010) 128
      then pattern_ram ((drive.buf_ptr + Transfer.behind_buffer d' 0x8010) % 65536)
      else 0)
sector_roundtrip_example =
    Transfer.sector_roundtrip drive pattern_ram (λ a. 0) 0x8000 0x8010 drive-IsValid refl refl
      (omega arith) (omega arith)

write_io-IsValid_example :
    Transfer.IsValid (Disk.write_io 0xF1 0x12 drive pattern_ram).0
    × (length (Disk.write_io 0xF1 0x12 drive pattern_ram).0.image ≡ length drive.image)
write_io-IsValid_example =
    Registers.write_io-IsValid 0xF1 0x12 drive pattern_ram drive-IsValid (omega arith)

-- a board with a program at 0 and a stack at 0x8000
abbrev program : List ℕ → ℕ → ℕ
program [] addr = 0
program (b ∷ bs) addr = if addr == 0 then b else program bs (addr - 1)

abbrev board : List ℕ → Cpu
board code = record (State.init (record Memory.init { ram = program code })) { sp = 0x8000 }

-- A of 0x45 and a carry
abbrev adding : Cpu
adding = record (board []) { af = 0x4501 }

alu-Sum_example :
    let s' = (alu 1 0x55 adding).1 in
    Arithmetic.Sum (high af adding) 0x55 (taken true adding) (high af s') (low af s')
    × (s' ≡ with_a_f (high af s') (low af s') adding)
alu-Sum_example = Arithmetic.alu-Sum true 0x55 adding (omega arith) (omega arith)

alu-Difference_example :
    let s' = (alu 3 0x55 adding).1 in
    Arithmetic.Difference (high af adding) 0x55 (taken true adding) (high af s') (low af s')
    × (s' ≡ with_a_f (high af s') (low af s') adding)
alu-Difference_example = Arithmetic.alu-Difference true 0x55 adding (omega arith) (omega arith)

op_daa-alu_sum_example :
    let total = 45 + 55 + of_bool (taken true adding) in
    let s' = (op_daa (alu 1 (bcd 55) adding).1).1 in
    (high af s' ≡ bcd (total % 100)) × (has (low af s') f_c ≡ leb 100 total)
op_daa-alu_sum_example =
    Decimal.op_daa-alu_sum true 45 55 adding (omega arith) digits (omega arith) (omega arith)
  where
    digits : high af adding ≡ bcd 45
    digits = unfold State.high State.get in refl

op_daa-alu_difference_example :
    let by = of_bool (taken true adding) in
    let s' = (op_daa (alu 3 (bcd 55) adding).1).1 in
    (high af s' ≡ bcd ((45 + 200 - 55 - by) % 100)) × (has (low af s') f_c ≡ ltb 45 (55 + by))
op_daa-alu_difference_example =
    Decimal.op_daa-alu_difference true 45 55 adding (omega arith) digits (omega arith) (omega arith)
  where
    digits : high af adding ≡ bcd 45
    digits = unfold State.high State.get in refl

rot_rr-rot_rl_example :
    let (left, s1) = rot_rl 0x96 adding in
    let (back, s2) = rot_rr left s1 in
    let (right, t1) = rot_rr 0x96 adding in
    let (forth, t2) = rot_rl right t1 in
    (back ≡ 0x96)
    × (has (low af s2) f_c ≡ has (low af adding) f_c)
    × (forth ≡ 0x96)
    × (has (low af t2) f_c ≡ has (low af adding) f_c)
rot_rr-rot_rl_example = Rotations.rot_rr-rot_rl 0x96 adding (omega arith) (omega arith)

-- the operand of a call, at the PC
abbrev calling : Cpu
calling = board (0x34 ∷ 0x12 ∷ [])

ret_pc-call_nn_example :
    let called = (call_nn calling).1 in
    let back = (ret_pc called).1 in
    (called.pc ≡ u16 (bit_or (program (0x34 ∷ 0x12 ∷ []) 0) (program (0x34 ∷ 0x12 ∷ []) 1 * 256)))
    × (called.sp ≡ u16 (0x8000 + 65534))
    × (back.pc ≡ u16 (0 + 2))
    × (back.sp ≡ 0x8000)
ret_pc-call_nn_example = Returns.ret_pc-call_nn calling (omega arith) (omega arith)

retn-accept_nmi_example :
    let taken = (accept_nmi calling).1 in
    let back = (retn taken).1 in
    (taken.pc ≡ 0x0066)
    × (taken.iff1 ≡ false)
    × (taken.halted ≡ false)
    × (back.pc ≡ 0)
    × (back.sp ≡ 0x8000)
    × (back.iff1 ≡ false)
retn-accept_nmi_example = Returns.retn-accept_nmi calling (omega arith) (omega arith)

abbrev mode_2 : Cpu
mode_2 = record calling { im = 2; i = 0x20; halted = true; iff1 = true }

retn-accept_irq_example :
    let taken = (accept_irq mode_2).1 in
    let back = (retn taken).1 in
    (taken.pc
      ≡ (if 2 == 2 then Memory.read_word (u16 (bit_or (0x20 * 256) 0xFF)) taken.memory else 0x0038))
    × (taken.iff1 ≡ false)
    × (taken.iff2 ≡ false)
    × (taken.halted ≡ false)
    × (back.pc ≡ 0)
    × (back.sp ≡ 0x8000)
    × (back.iff1 ≡ false)
retn-accept_irq_example = Returns.retn-accept_irq mode_2 (omega arith) (omega arith)

program-IsRam : Outcome.IsRam (program (0xFB ∷ 0x00 ∷ []))
program-IsRam addr = ground arith

abbrev enabling : Cpu
enabling = board (0xFB ∷ 0x00 ∷ [])

enabling-IsReady : Schedule.IsReady enabling
enabling-IsReady = record {
  awake = refl;
  no_nmi = refl;
  no_step_mode = refl;
  no_breakpoints = refl;
}

execute_one-Outcome_example :
    Outcome.Outcome enabling (execute_one enabling).0 (execute_one enabling).1
execute_one-Outcome_example = Outcome.execute_one-Outcome enabling program-IsRam

ei_delay_example :
    (execute_one (raised enabling)
      ≡ as_int (execute_instruction (record (raised enabling) { ei_delay_pending = false })))
    × (execute_one (later enabling) ≡ as_int (accept_irq (later enabling)))
ei_delay_example =
    Schedule.ei_delay enabling enabling-IsReady program-IsRam refl refl still_on no_delay
  where
    still_on : (later enabling).iff1 ≡ true
    still_on =
        unfold execute_one execute_instruction ◌>>=◌ ◌>>◌ fetch_byte Memory.read_byte bump_r decode
          perform ei nop modify count in
        refl

    no_delay : (later enabling).ei_delay_pending ≡ false
    no_delay =
        unfold execute_one execute_instruction ◌>>=◌ ◌>>◌ fetch_byte Memory.read_byte bump_r decode
          perform ei nop modify count in
        refl

abbrev waiting : Cpu
waiting = record (board []) { halted = true; iff1 = true; pc = 7 }

steps-halted_example :
    let t = steps 5 waiting in
    (t.halted ≡ true)
    × (t.pc ≡ 7)
    × (t.memory ≡ waiting.memory)
    × (t.iff1 ≡ true)
    × (execute_one (record t { irq_line = true })
        ≡ as_int (accept_irq (record t { irq_line = true })))
steps-halted_example = Schedule.steps-halted 4 waiting asleep
  where
    asleep : Schedule.Waits waiting
    asleep = record {
      asleep = refl;
      no_nmi = refl;
      no_irq = refl;
      no_step_mode = refl;
      no_breakpoints = refl;
    }

-- LDIR of three bytes, the second block over the first
abbrev moving : Cpu
moving = record (board (0xED ∷ 0xB0 ∷ 7 ∷ 8 ∷ 9 ∷ [])) { hl = 2; de = 3; bc = 3 }

moving-IsRam : Outcome.IsRam (program (0xED ∷ 0xB0 ∷ 7 ∷ 8 ∷ 9 ∷ []))
moving-IsRam addr = ground arith

steps-ldir_example :
    let t = steps 3 moving in
    (t.memory.ram ≡ BlockMove.copy true 3 2 3 (program (0xED ∷ 0xB0 ∷ 7 ∷ 8 ∷ 9 ∷ [])))
    × (t.bc ≡ 0)
    × (t.pc ≡ u16 (0 + 2))
steps-ldir_example =
    BlockMove.steps-ldir true 2 moving at moving-IsRam (omega arith) refl (omega arith)
      (omega arith)
  where
    at : BlockMove.AtMove true moving
    at = record {
      ready = record { awake = refl; no_nmi = refl; no_step_mode = refl; no_breakpoints = refl };
      no_irq = refl;
      pc_in = omega arith;
      prefix = refl;
      suffix = refl;
    }

-- LD (IX+5), 42
abbrev storing : Cpu
storing = board (0xDD ∷ 0x36 ∷ 0x05 ∷ 0x2A ∷ [])

storing-IsRam : Outcome.IsRam (program (0xDD ∷ 0x36 ∷ 0x05 ∷ 0x2A ∷ []))
storing-IsRam addr = ground arith

storing-IsReady : Schedule.IsReady storing
storing-IsReady = record { awake = refl; no_nmi = refl; no_step_mode = refl; no_breakpoints = refl }

decode-execute_one_example :
    (execute_one storing).1.pc ≡ u16 (0 + (Decode.decode storing.memory 0).0.length)
decode-execute_one_example =
    Agree.decode-execute_one storing 3 storing-IsReady refl storing-IsRam (omega arith) at
  where
    at : Straight.span 0xDD 0x36 ≡ some 3
    at = unfold Straight.span Straight.more Travels.after_index Index.decode in refl

decode-raw_of_example :
    let d = Decode.decode storing.memory 2 in
    (d.0.raw_bytes ≡ Reads.raw_of storing.memory.ram 2 d.0.length)
    × (1 ≤ d.0.length)
    × (d.0.length ≤ 4)
    × (d.1.ram ≡ storing.memory.ram)
decode-raw_of_example = Agree.decode-raw_of storing.memory 2 storing-IsRam (omega arith)

-- the texts of that instruction
storing_text :
    let d = (Decode.decode storing.memory 0).0 in
    (d.mnemonic ≡ codes "LD")
    × (d.operands ≡ codes "(IX+5), $2A")
    × (d.raw_bytes ≡ codes "DD 36 05 2A")
    × (d.length ≡ 4)
unfolding Decode.decode Indexed.decode_dd_fd Memory.read_byte hex_byte
storing_text = (refl, refl, refl, refl)
