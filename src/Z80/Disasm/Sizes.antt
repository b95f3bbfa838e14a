-- ===== src/Z80/Disasm/Sizes.antt =====
-- How many bytes an instruction has for the Z80 disassembler, by its first two, and for the CPU.
use emfe_plugins.Base.{
  ℕ, suc, ◌+◌, ◌<◌, ◌≤◌, ◌≡◌, refl, Bool, true, false, ◌&&◌, Option, none, some, leb, ◌==◌,
  if◌then◌else◌, if_both, all_below, all_below_sound, if_cases, arith,
}
use emfe_plugins.Z80.Cpu.Index
use emfe_plugins.Z80.Cpu.Extended
use emfe_plugins.Z80.Cpu.Execute
use emfe_plugins.Z80.Cpu.Travels.{after_index, after_extended, after_opcode}
use emfe_plugins.Z80.Cpu.Straight.{more, span}
use emfe_plugins.Z80.Disasm.{Form}
use emfe_plugins.Z80.Disasm.Plain.{decode_plain}
use emfe_plugins.Z80.Disasm.Extended.{decode_ed}
use emfe_plugins.Z80.Disasm.Indexed.{decode_dd_fd}
use emfe_plugins.Z80.Disasm.Reads.{form_size}

-- the number of bytes of the instruction that starts with these two
unfoldable pub size_of : ℕ → ℕ → ℕ
unfolding form_size decode_dd_fd decode_ed decode_plain
size_of first second =
    if first == 0xCB
    then 2
    else if first == 0xDD
    then 2 + form_size (decode_dd_fd "IX" "$DD" second)
    else if first == 0xFD
    then 2 + form_size (decode_dd_fd "IY" "$FD" second)
    else if first == 0xED
    then 2 + form_size (decode_ed second)
    else 1 + form_size (decode_plain first)

-- what the executor fetches is what the disassembler shows
abbrev fits : Option ℕ → ℕ → Bool
fits none n = true
fits (some k) n = k == n

-- The two agree on an opcode, and the disassembler fetches no more than two bytes behind it.
abbrev agrees : (ℕ → Option ℕ) → (ℕ → Form) → ℕ → Bool
agrees after form op = fits (after op) (form_size (form op)) && leb (form_size (form op)) 2

abbrev after_ixy : ℕ → Option ℕ
after_ixy op = after_index (Index.decode op)

abbrev after_ed : ℕ → Option ℕ
after_ed op = after_extended (Extended.decode op)

-- The prefix CB is not a case of `decodePlain`.
abbrev after_plain : ℕ → Option ℕ
after_plain op = if op == 0xCB then none else after_opcode (Execute.decode op)

ix_table : all_below 256 (agrees after_ixy (decode_dd_fd "IX" "$DD")) ≡ true
unfolding all_below form_size decode_dd_fd after_index Index.decode
ix_table = refl

iy_table : all_below 256 (agrees after_ixy (decode_dd_fd "IY" "$FD")) ≡ true
unfolding all_below form_size decode_dd_fd after_index Index.decode
iy_table = refl

ed_table : all_below 256 (agrees after_ed decode_ed) ≡ true
unfolding all_below form_size decode_ed after_extended Extended.decode
ed_table = refl

plain_table : all_below 256 (agrees after_plain decode_plain) ≡ true
unfolding all_below form_size decode_plain after_opcode Execute.decode
plain_table = refl

both : (a b : Bool) → a && b ≡ true → (a ≡ true) × (b ≡ true)
both a b h = ground arith

table_row :
    (after : ℕ → Option ℕ) (form : ℕ → Form) (op : ℕ)
    → all_below 256 (agrees after form) ≡ true
    → op < 256
    → (fits (after op) (form_size (form op)) ≡ true) × (form_size (form op) ≤ 2)
table_row after form op table lt =
    let h =
      both (fits (after op) (form_size (form op))) (leb (form_size (form op)) 2)
        (all_below_sound 256 (agrees after form) op table lt) in
    (h.0, ground (arith, h.1))

fits_page : (o : Option ℕ) (k n : ℕ) → fits o k ≡ true → more o ≡ some n → 2 + k ≡ suc n
unfolding more
fits_page none k n f h = cc
fits_page (some j) k n f h = ground arith

fits_opcode : (o : Option ℕ) (k n : ℕ) → fits o k ≡ true → o ≡ some n → 1 + k ≡ suc n
fits_opcode none k n f h = cc
fits_opcode (some j) k n f h = ground arith

same_fit :
    (o : Option ℕ) (n : ℕ) (b : Bool)
    → b ≡ false
    → fits (if b then none else o) n ≡ true
    → fits o n ≡ true
same_fit o n true e h = cc
same_fit o n false e h = h

span_cb : (first second : ℕ) → first ≡ 0xCB → span first second ≡ some 1
unfolding span after_opcode Execute.decode
span_cb first second e = rw e refl

pub size_of-span :
    (first second n : ℕ)
    → first < 256
    → second < 256
    → span first second ≡ some n
    → size_of first second ≡ suc n
unfolding span size_of
size_of-span first second n one two =
    if_cases (λ k. span first second ≡ some n → k ≡ suc n) (first == 0xCB)
      (λ e h. (let c = span_cb first second (ground arith) in ground arith))
      λ cb.
        if_both (λ k o. o ≡ some n → k ≡ suc n) (first == 0xDD)
          (λ _.
            fits_page _ _ n (table_row after_ixy (decode_dd_fd "IX" "$DD") second ix_table two).0)
          λ _.
            if_both (λ k o. o ≡ some n → k ≡ suc n) (first == 0xFD)
              (λ _.
                fits_page _ _ n
                  (table_row after_ixy (decode_dd_fd "IY" "$FD") second iy_table two).0)
              λ _.
                if_both (λ k o. o ≡ some n → k ≡ suc n) (first == 0xED)
                  (λ _. fits_page _ _ n (table_row after_ed decode_ed second ed_table two).0)
                  λ _. fits_opcode _ _ n (plain_fits cb)
  where
    plain_fits :
        (first == 0xCB) ≡ false
        → fits (after_opcode (Execute.decode first)) (form_size (decode_plain first)) ≡ true
    plain_fits cb =
        same_fit _ _ (first == 0xCB) cb (table_row after_plain decode_plain first plain_table one).0

pub size_of_bounds :
    (first second : ℕ)
    → first < 256
    → second < 256
    → (1 ≤ size_of first second) × (size_of first second ≤ 4)
unfolding size_of
size_of_bounds first second one two =
    if_cases P (first == 0xCB) (λ _. ground arith)
      λ _.
        if_cases P (first == 0xDD)
          (λ _. page (table_row after_ixy (decode_dd_fd "IX" "$DD") second ix_table two).1)
          λ _.
            if_cases P (first == 0xFD)
              (λ _. page (table_row after_ixy (decode_dd_fd "IY" "$FD") second iy_table two).1)
              λ _.
                if_cases P (first == 0xED)
                  (λ _. page (table_row after_ed decode_ed second ed_table two).1)
                  λ _. plain (table_row after_plain decode_plain first plain_table one).1
  where
    P : ℕ → Type 0
    P n = (1 ≤ n) × (n ≤ 4)

    page : {n : ℕ} → n ≤ 2 → P (2 + n)
    page h = ground arith

    plain : {n : ℕ} → n ≤ 2 → P (1 + n)
    plain h = ground arith
