-- ===== src/Em8/Tests.antt =====
-- The EM8's theorems at concrete boards, and runs of the model.
use emfe_plugins.Base.{
  ℕ, ◌+◌, ◌-◌, ◌<◌, ◌≤◌, ◌≡◌, ◌⊎◌, ◌↔◌, List, [], ◌∷◌, ◌++◌, refl, true, false, update, arith, u16,
  not8, bit_and,
}
use emfe_plugins.Base.Signed.{pos, ◌+ℤ◌, ◌-ℤ◌, signed8}
use emfe_plugins.Base.Text.{codes, hex_word}
use emfe_plugins.Em8.Uart
use emfe_plugins.Em8.Uart.Queue
use emfe_plugins.Em8.Uart.Refine
use emfe_plugins.Em8.Timer
use emfe_plugins.Em8.Timer.{Timer}
use emfe_plugins.Em8.Timer.Count
use emfe_plugins.Em8.Timer.Registers
use emfe_plugins.Em8.Memory
use emfe_plugins.Em8.Memory.{Memory}
use emfe_plugins.Em8.Memory.Access
use emfe_plugins.Em8.Memory.Valid
use emfe_plugins.Em8.Cpu.State
use emfe_plugins.Em8.Cpu.State.{Cpu, Flag, mask, ret, ◌>>=◌, ◌>>◌, get_flag, set_flag}
use emfe_plugins.Em8.Cpu.Alu.{do_add, do_sub, carry}
use emfe_plugins.Em8.Cpu.Arithmetic
use emfe_plugins.Em8.Cpu.Keeps
use emfe_plugins.Em8.Cpu.Widths
use emfe_plugins.Em8.Cpu.Calls
use emfe_plugins.Em8.Cpu.Handlers
use emfe_plugins.Em8.Cpu.Advance.{is_sequential}
use emfe_plugins.Em8.Cpu.Agree
use emfe_plugins.Em8.Cpu.Control.{execute_jump, is_taken}
use emfe_plugins.Em8.Cpu.Opcode.{jsr_abs, rts, rti, bne, undefined, decode}
use emfe_plugins.Em8.Cpu.Execute.{execute_one}
use emfe_plugins.Em8.Cpu.Interrupts.{enter, check_interrupts}
use emfe_plugins.Em8.Cpu.Disasm.{disassemble}

empty_uart-IsValid : Refine.IsValid Uart.init
empty_uart-IsValid = record { tail_in = omega arith; count_in = omega arith; head_at = refl }

abbrev port_ops : List Queue.Op
port_ops =
    Queue.Op.receive 65
    ∷ Queue.Op.receive 66
    ∷ Queue.Op.read 0
    ∷ Queue.Op.write 2 1
    ∷ Queue.Op.poll_irq
    ∷ Queue.Op.reset
    ∷ Queue.Op.read 1
    ∷ []

run-refines_example :
    (let (rs, u) = Refine.run port_ops Uart.init in (rs, Refine.port u))
    ≡ Queue.run 8 port_ops (Refine.port Uart.init)
run-refines_example = Refine.run-refines port_ops empty_uart-IsValid

abbrev periodic : Timer
periodic = record { reload = 4; counter = 2; cr = 3; overflow = false }

abbrev one_shot : Timer
one_shot = record { reload = 4; counter = 2; cr = 1; overflow = false }

periodic-IsValid : Registers.IsValid periodic
periodic-IsValid = record { reload_in = omega arith; counter_in = omega arith; cr_in = omega arith }

abbrev reloaded : Timer
reloaded = Timer.write 1 0x12 (Timer.write 0 0x34 periodic)

-- a board with its UART, an armed address and a byte in the RAM
abbrev board : Memory
board = record Memory.init {
  uart_attached = true;
  bytes = update (λ a. 0) 0x300 7;
  read_watchpoints = 0x300 ∷ [];
  write_watchpoints = 0x301 ∷ [];
}

board-unmapped : (a : ℕ) → a < 0xf000 → ¬ (Access.IsMapped board a)
board-unmapped a h = ground arith

board-IsMapped : Access.IsMapped board 0xf002
board-IsMapped = ground arith

-- a program: ADD #200, BNE *-2, and an undefined opcode
abbrev program : Memory
program = record Memory.init {
  bytes = update (update (update (update (λ a. 0) 0x200 0x10) 0x201 0xc8) 0x202 0x51) 0x203 0xfc;
}

abbrev cpu : Cpu
cpu = record (State.init program) { a = 100; pc = 0x200; fl = 1 }

do_add-Result_example :
    Arithmetic.Result
      (100 + 200 + carry cpu)
      (signed8 100 +ℤ signed8 200 +ℤ pos (carry cpu))
      cpu
      (do_add 200 cpu).1
do_add-Result_example = Arithmetic.do_add-Result 200 cpu (omega arith) (omega arith)

do_sub-Result_example :
    Arithmetic.Result
      (100 + 256 - (200 + (1 - carry cpu)))
      (signed8 100 -ℤ signed8 200 -ℤ pos (1 - carry cpu))
      cpu
      (do_sub 200 cpu).1
do_sub-Result_example = Arithmetic.do_sub-Result 200 cpu (omega arith) (omega arith)

abbrev called : Cpu
called = (execute_jump jsr_abs cpu).1

rts-jsr_example :
    ((execute_jump rts called).1.pc ≡ 0x202)
    × ((execute_jump rts called).1.sp ≡ 0xff)
    × ((execute_jump rts called).1.shadow_stack_top ≡ 0)
rts-jsr_example = Calls.rts-jsr cpu called (omega arith) (omega arith) refl refl refl refl

abbrev interrupted : Cpu
interrupted = record cpu { nmi_pending = true }

abbrev handling : Cpu
handling = (check_interrupts interrupted).1

taken_nmi : (check_interrupts interrupted).0 ≡ 7
unfolding check_interrupts enter ret ◌>>=◌ ◌>>◌
taken_nmi = refl

rti-check_interrupts_example :
    ((execute_jump rti handling).1.pc ≡ 0x200)
    × ((execute_jump rti handling).1.sp ≡ 0xff)
    × ((execute_jump rti handling).1.fl ≡ bit_and 1 (not8 (mask Flag.b)))
rti-check_interrupts_example =
    Handlers.rti-check_interrupts interrupted handling (omega arith) (omega arith) taken_nmi refl
      refl refl refl

program-IsValid : Valid.IsValid program
program-IsValid = record {
  bytes_in = λ a. ground arith;
  indices = empty_uart-IsValid;
  fifo_in = λ k. omega arith;
  cr_in = omega arith;
  timer = record { reload_in = omega arith; counter_in = omega arith; cr_in = omega arith };
}

cpu-IsValid : Keeps.IsValid cpu
cpu-IsValid = record {
  a_in = omega arith;
  x_in = omega arith;
  y_in = omega arith;
  sp_in = omega arith;
  pc_in = omega arith;
  fl_in = omega arith;
  top_in = omega arith;
  memory_ok = program-IsValid;
}

execute_one-IsValid_example :
    Keeps.IsValid (execute_one cpu).1
    × ((false ≡ true) × ((execute_one cpu).0 ≡ 0)
        ⊎ (false ≡ false) × (2 ≤ (execute_one cpu).0) × ((execute_one cpu).0 ≤ 7))
execute_one-IsValid_example = Widths.execute_one-IsValid cpu-IsValid

program-unmapped : (a : ℕ) → ¬ (Access.IsMapped program a)
program-unmapped a = ground arith

length-execute_one_example :
    (execute_one cpu).1.pc ≡ u16 (0x200 + (disassemble program 0x200).length)
unfolding decode is_sequential
length-execute_one_example =
    Agree.length-execute_one cpu refl (omega arith) (omega arith) (program-unmapped 0x200) refl

disassemble-decode_example :
    ((disassemble program 0x203).mnemonic ≡ codes "???") ↔ (decode 0xfc ≡ undefined)
disassemble-decode_example = Agree.disassemble-decode program 0x203 (omega arith)

abbrev lost : Cpu
lost = record cpu { pc = 0x300 }

undefined-execute_one_example :
    ((execute_one lost).1.halted ≡ true)
    × ((execute_one lost).1.pc ≡ 0x300)
    × ((execute_one lost).1.instruction_count ≡ 1)
unfolding decode
undefined-execute_one_example =
    Agree.undefined-execute_one lost refl (omega arith) (program-unmapped 0x300) refl

abbrev branching : Cpu
branching = record cpu { pc = 0x202 }

branch-target_example :
    (disassemble program 0x202).operands ≡ codes "$" ++ hex_word (execute_one branching).1.pc
unfolding decode is_taken get_flag
branch-target_example =
    Agree.branch-target bne branching refl (omega arith) (omega arith) (program-unmapped 0x202)
      (program-unmapped 0x203) refl refl
