-- ===== src/Z80/Cpu/Straight.antt =====
-- Where the Z80's instructions leave the PC that go straight on.
use emfe_plugins.Base.{
  ℕ, suc, ◌+◌, ◌≡◌, refl, ◌∙◌, ap, Option, none, some, ◌==◌, if◌then◌else◌, u16, if_cases, arith,
}
use emfe_plugins.Z80.Memory
use emfe_plugins.Z80.Cpu.State.{Cpu, Pair, ix, iy, M, ◌>>=◌, ◌>>◌, bump_r}
use emfe_plugins.Z80.Cpu.Bus.{fetch_byte}
use emfe_plugins.Z80.Cpu.Index
use emfe_plugins.Z80.Cpu.Extended
use emfe_plugins.Z80.Cpu.Execute
use emfe_plugins.Z80.Cpu.StaysBus.{ahead, ahead_lem}
use emfe_plugins.Z80.Cpu.Travels.{
  after_index, after_extended, after_opcode, Travels, anywhere, straight, index-Travels,
  extended-Travels, opcode-Travels,
}

land :
    {o : Option ℕ} {m : M ℕ}
    → Travels o m
    → (u : Cpu) (n : ℕ) → o ≡ some n
    → (m u).1.pc ≡ ahead n u.pc
land anywhere u n e = cc
land (straight h) u n e = h.run u ∙ ap (λ k. ahead k u.pc) (ground arith)

-- one byte more than in a page's own count
unfoldable pub more : Option ℕ → Option ℕ
more none = none
more (some k) = some (suc k)

land_more :
    {o : Option ℕ} {m : M ℕ}
    → Travels o m
    → (u : Cpu) (pc n : ℕ) → more o ≡ some n
    → u.pc ≡ u16 (pc + 1)
    → (m u).1.pc ≡ ahead n pc
unfolding more ahead
land_more anywhere u pc n e h = cc
land_more (straight {k} g) u pc n e h =
    (let q : suc k ≡ n = ground arith in g.run u ∙ ap (ahead k) h ∙ ap (λ j. ahead j pc) q)

-- The bytes behind the first one of the instruction that starts with these two, where it goes
-- straight on: it is no jump, no call, no return and no repeated block instruction, and no prefix
-- without an effect on the opcode behind it.
unfoldable pub span : ℕ → ℕ → Option ℕ
unfolding more after_index after_extended after_opcode
span first second =
    if first == 0xDD
    then more (after_index (Index.decode second))
    else if first == 0xFD
    then more (after_index (Index.decode second))
    else if first == 0xED
    then more (after_extended (Extended.decode second))
    else after_opcode (Execute.decode first)

prefixed-land :
    (p : Pair) (t : Cpu) (n : ℕ)
    → more (after_index (Index.decode (t.memory.ram t.pc))) ≡ some n
    → (Index.execute_with_index p t).1.pc ≡ ahead n t.pc
unfolding Index.execute_with_index ◌>>=◌ ◌>>◌ fetch_byte bump_r Memory.read_byte
    Memory.check_watchpoint
prefixed-land p t n e = land_more (index-Travels p _ _) _ t.pc n e refl

extended-land :
    (t : Cpu) (n : ℕ)
    → more (after_extended (Extended.decode (t.memory.ram t.pc))) ≡ some n
    → (Extended.execute_ed_prefix t).1.pc ≡ ahead n t.pc
unfolding Extended.execute_ed_prefix ◌>>=◌ ◌>>◌ fetch_byte bump_r Memory.read_byte
    Memory.check_watchpoint
extended-land t n e = land_more (extended-Travels _ _) _ t.pc n e refl

-- the case of an opcode, behind it
perform-land :
    (pc op : ℕ) (t : Cpu) (n : ℕ)
    → span op (t.memory.ram t.pc) ≡ some n
    → (Execute.perform pc op (Execute.decode op) t).1.pc ≡ ahead n t.pc
unfolding span Execute.perform Execute.decode
perform-land pc op t n =
    if_cases P (op == 0xDD)
      (λ e h. (let q : op ≡ 0xDD = ground arith in rw q (prefixed-land ix t n h)))
      λ dd.
        if_cases P (op == 0xFD)
          (λ e h. (let q : op ≡ 0xFD = ground arith in rw q (prefixed-land iy t n h)))
          λ fd.
            if_cases P (op == 0xED)
              (λ e h. (let q : op ≡ 0xED = ground arith in rw q (extended-land t n h)))
              λ ed h. land (opcode-Travels pc op _) t n h
  where
    P : Option ℕ → Type 0
    P o = o ≡ some n → (Execute.perform pc op (Execute.decode op) t).1.pc ≡ ahead n t.pc

-- An instruction that goes straight on ends behind its bytes.
pub pc-execute_instruction :
    (s : Cpu) (n : ℕ)
    → span (s.memory.ram s.pc) (s.memory.ram (u16 (s.pc + 1))) ≡ some n
    → (Execute.execute_instruction s).1.pc ≡ u16 (s.pc + suc n)
unfolding Execute.execute_instruction ◌>>=◌ ◌>>◌ fetch_byte bump_r Memory.read_byte
    Memory.check_watchpoint ahead
pc-execute_instruction s n h = perform-land s.pc (s.memory.ram s.pc) _ n h ∙ ahead_lem n s.pc
