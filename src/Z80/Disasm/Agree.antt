-- ===== src/Z80/Disasm/Agree.antt =====
-- The Z80 disassembler against its description and against the CPU.
use emfe_plugins.Base.{
  ℕ, suc, ◌+◌, ◌<◌, ◌≤◌, ◌≡◌, refl, sym, ◌∙◌, ap, List, some, ◌==◌, u16, if_both, arith, false,
  ◌&&◌, not,
}
use emfe_plugins.Z80.Memory
use emfe_plugins.Z80.Memory.{Memory}
use emfe_plugins.Z80.Cpu.State.{Cpu}
use emfe_plugins.Z80.Cpu.Execute
use emfe_plugins.Z80.Cpu.Outcome.{IsRam}
use emfe_plugins.Z80.Cpu.Schedule.{IsReady, execute_one-waits}
use emfe_plugins.Z80.Cpu.Straight.{span, pc-execute_instruction}
use emfe_plugins.Z80.Disasm.{Reader, fetch, Form}
use emfe_plugins.Z80.Disasm.Plain.{decode_plain}
use emfe_plugins.Z80.Disasm.Extended.{decode_ed}
use emfe_plugins.Z80.Disasm.Indexed.{decode_dd_fd}
use emfe_plugins.Z80.Disasm.Decode.{decoded, decode_text, start, decode}
use emfe_plugins.Z80.Disasm.Reads.{
  raw_of, Shows, fetch-value, fetch-Reads, form_size, form_text-Reads,
}
use emfe_plugins.Z80.Disasm.Sizes.{size_of, size_of_bounds, size_of-span}

-- a reader that shows the first `n` bytes from `addr` on
record Ends (ram : ℕ → ℕ) (addr n : ℕ) (r : Reader) : Type 0 where
  shows : Shows ram addr r
  size : r.length ≡ n

decoded-Ends :
    (form : ℕ → Form) (ram : ℕ → ℕ) (addr : ℕ) (r : Reader) (op n : ℕ)
    → Shows ram addr r
    → (fetch r).0 ≡ op
    → n ≡ suc (r.length + form_size (form op))
    → Ends ram addr n (decoded form r).1
unfolding decoded
decoded-Ends form ram addr r op n h e k =
    let f = form_text-Reads (form (fetch r).0) in
    let one = fetch-Reads.fetched r in
    let others = f.fetched (fetch r).1 in
    let sizes = ap (λ b. form_size (form b)) e in
    record {
      shows = f.shows ram addr (fetch r).1 (fetch-Reads.shows ram addr r h);
      size = omega arith;
    }

start-Shows : (m : Memory) (addr : ℕ) → IsRam m.ram → addr < 65536 → Shows m.ram addr (start m addr)
unfolding raw_of Memory.read_byte Memory.check_watchpoint
start-Shows m addr bytes lt = record {
  in_bytes = bytes;
  ram_same = refl;
  behind = omega arith;
  shown = refl;
}

decode_text-Ends :
    (m : Memory) (addr : ℕ)
    → IsRam m.ram
    → addr < 65536
    → Ends m.ram addr
        (size_of (m.ram addr) (m.ram (u16 (addr + 1))))
        (decode_text (m.ram addr) (start m addr)).1
unfolding decode_text size_of
decode_text-Ends m addr bytes lt =
    let shown = start-Shows m addr bytes lt in
    let next = fetch-Reads.shows m.ram addr (start m addr) shown in
    let first : (fetch (start m addr)).0 ≡ m.ram addr =
      unfold fetch Memory.read_byte Memory.check_watchpoint in refl in
    if_both P (m.ram addr == 0xCB)
      (λ _. record { shows = fetch-Reads.shows m.ram addr _ next; size = unfold fetch in refl })
      λ _.
        if_both P (m.ram addr == 0xDD) (λ _. prefixed (decode_dd_fd "IX" "$DD"))
          λ _.
            if_both P (m.ram addr == 0xFD) (λ _. prefixed (decode_dd_fd "IY" "$FD"))
              λ _.
                if_both P (m.ram addr == 0xED) (λ _. prefixed decode_ed)
                  λ _.
                    decoded-Ends decode_plain m.ram addr (start m addr) (m.ram addr) _ shown first
                      (omega arith)
  where
    P : (List ℕ × List ℕ) × Reader → ℕ → Type 0
    P d n = Ends m.ram addr n d.1

    second :
        Shows m.ram addr (fetch (start m addr)).1
        → (fetch (fetch (start m addr)).1).0 ≡ m.ram (u16 (addr + 1))
    second shown = unfold fetch in fetch-value m.ram addr (fetch (start m addr)).1 shown

    resize : (k : ℕ) → 2 + k ≡ suc ((fetch (start m addr)).1.length + k)
    resize k = unfold fetch in omega arith

    prefixed :
        (form : ℕ → Form)
        → Ends m.ram addr
            (2 + form_size (form (m.ram (u16 (addr + 1)))))
            (decoded form (fetch (start m addr)).1).1
    prefixed form =
        let shown = fetch-Reads.shows m.ram addr (start m addr) (start-Shows m addr bytes lt) in
        decoded-Ends form m.ram addr (fetch (start m addr)).1 (m.ram (u16 (addr + 1))) _ shown
          (second shown) (resize (form_size (form (m.ram (u16 (addr + 1))))))

-- For a RAM of bytes and an address of 16 bits, `Decode` shows 1 to 4 bytes, which are the bytes from the address on, around the end of the memory
-- too, in hexadecimal with a space between two, and the length is their number. The RAM stays as it
-- is.
pub decode-raw_of :
    (m : Memory) (addr : ℕ)
    → IsRam m.ram
    → addr < 65536
    → ((decode m addr).0.raw_bytes ≡ raw_of m.ram addr (decode m addr).0.length)
      × (1 ≤ (decode m addr).0.length)
      × ((decode m addr).0.length ≤ 4)
      × ((decode m addr).1.ram ≡ m.ram)
unfolding decode Memory.read_byte Memory.check_watchpoint
decode-raw_of m addr bytes lt =
    let e = decode_text-Ends m addr bytes lt in
    let short = size_of_bounds _ _ (bytes addr) (bytes (u16 (addr + 1))) in
    (e.shows.shown, ground (arith, e.size, short), ground (arith, e.size, short), e.shows.ram_same)

decode-execute_instruction :
    (s : Cpu) (n : ℕ)
    → IsRam s.memory.ram
    → s.pc < 65536
    → span (s.memory.ram s.pc) (s.memory.ram (u16 (s.pc + 1))) ≡ some n
    → (Execute.execute_instruction s).1.pc ≡ u16 (s.pc + (decode s.memory s.pc).0.length)
unfolding decode Memory.read_byte Memory.check_watchpoint
decode-execute_instruction s n bytes lt h =
    let e = decode_text-Ends s.memory s.pc bytes lt in
    let fit = size_of-span _ _ n (bytes s.pc) (bytes (u16 (s.pc + 1))) h in
    pc-execute_instruction s n h ∙ ap (λ k. u16 (s.pc + k)) (sym (e.size ∙ fit))

-- The length that `Decode` gives an instruction is the distance that `ExecuteOne` moves the PC, for
-- every instruction of the four pages that goes straight on: that is no jump, call or return, no
-- block instruction that repeats, and no prefix that the opcode behind it ignores. The RAM is one of
-- bytes, the PC has 16 bits, and the CPU is not halted or stepping, and has no enabled breakpoint
-- and no interrupt to take.
pub decode-execute_one :
    (s : Cpu) (n : ℕ)
    → IsReady s
    → s.irq_line && s.iff1 && not s.ei_delay_pending ≡ false
    → IsRam s.memory.ram
    → s.pc < 65536
    → span (s.memory.ram s.pc) (s.memory.ram (u16 (s.pc + 1))) ≡ some n
    → (Execute.execute_one s).1.pc ≡ u16 (s.pc + (decode s.memory s.pc).0.length)
decode-execute_one s n ready quiet bytes lt h =
    ap (λ r. r.1.pc) (execute_one-waits s ready quiet)
    ∙ decode-execute_instruction (record s { ei_delay_pending = false }) n bytes lt h
