-- ===== src/Em8/Plugin/Listing.antt =====
-- em8/src/plugin_em8.cpp: `emfe_disassemble_one` and `emfe_disassemble_range`, as the lines that
-- they write.
use mathlib.Core.Path.{subst}
use emfe_plugins.Base.{
  ℕ, zero, suc, ◌+◌, ◌<◌, ◌≤◌, ◌≡◌, List, [], ◌∷◌, if◌then◌else◌, ltb, u16, arith, Bool-cases, inl,
  inr, sym,
}
use emfe_plugins.Em8.Memory.{Memory}
use emfe_plugins.Em8.Cpu.Disasm.{DisasmResult, disassemble, length-disassemble_bounds}

-- `EmfeDisasmLine`
pub record Line : Type 0 where
  pub address : ℕ
  pub text : DisasmResult

unfoldable pub disassemble_one : ℕ → Memory → Line
disassemble_one address m = record { address = address; text = disassemble m (u16 address) }

-- the loop, with room for `n` more lines
unfoldable pub range_from : ℕ → ℕ → ℕ → Memory → List Line
range_from zero addr end m = []
range_from (suc n) addr end m =
    let first : Line = record { address = addr; text = disassemble m addr } in
    let more = range_from n (u16 (addr + (disassemble m addr).length)) end m in
    if ltb addr end then first ∷ more else []

unfoldable pub disassemble_range : ℕ → ℕ → ℕ → Memory → List Line
unfolding range_from
disassemble_range start_address end_address max_lines m =
    range_from max_lines (u16 start_address) (u16 end_address) m

-- A listing from `addr` to `end` with room for `n` lines: each line has the disassembly at its
-- address, of 1 to 3 bytes, the next one starts behind these bytes, and the listing is over when the
-- room or the range is.
pub data Listed (m : Memory) (end : ℕ) : ℕ → ℕ → List Line → Type 0 where
  full : {addr : ℕ} → Listed m end 0 addr []
  over : {n addr : ℕ} → end ≤ addr → Listed m end n addr []
  line :
      {n addr : ℕ} {rest : List Line}
      → addr < end
      → 1 ≤ (disassemble m addr).length
      → (disassemble m addr).length ≤ 3
      → Listed m end n (addr + (disassemble m addr).length) rest
      → Listed m end (suc n) addr (record { address = addr; text = disassemble m addr } ∷ rest)

range_from-Listed :
    (n addr end : ℕ) (m : Memory) → end ≤ 0xfffd → Listed m end n addr (range_from n addr end m)
unfolding range_from
range_from-Listed zero addr end m small = full
range_from-Listed (suc n) addr end m small = elim (Bool-cases (ltb addr end)) [
  | inl h ↦
      let size = (disassemble m addr).length in
      let bounds = length-disassemble_bounds m addr in
      let next : u16 (addr + size) ≡ addr + size = ground (arith, bounds, h) in
      rw h (
        line (ground (arith, h)) bounds.0 bounds.1 (
          subst (λ a. Listed m end n (addr + size) (range_from n a end m)) (sym next)
            (range_from-Listed n (addr + size) end m small)))
  | inr h ↦ rw h (over (ground arith))
]

-- A range that ends at $FFFD or below is listed without a gap and without overlap: the first line is
-- at the start address, each line has the disassembly at its address, each next one starts behind
-- the bytes of the one before, all of them before the end address, and the listing goes on until the
-- end address is reached or the caller's room is used up. Both addresses are cut to 16 bits.
pub disassemble_range-Listed :
    (start_address end_address max_lines : ℕ) (m : Memory)
    → u16 end_address ≤ 0xfffd
    → Listed m
        (u16 end_address)
        max_lines
        (u16 start_address)
        (disassemble_range start_address end_address max_lines m)
unfolding disassemble_range
disassemble_range-Listed start_address end_address max_lines m small =
    range_from-Listed max_lines (u16 start_address) (u16 end_address) m small
