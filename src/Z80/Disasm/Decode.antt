-- ===== src/Z80/Disasm/Decode.antt =====
-- z80/src/Z80Disasm.cpp: `Z80Disasm::Decode`.
use emfe_plugins.Base.{ℕ, List, [], ◌==◌, if◌then◌else◌, bit_and}
use emfe_plugins.Base.Text.{codes}
use emfe_plugins.Z80.Memory
use emfe_plugins.Z80.Memory.{Memory}
use emfe_plugins.Z80.Disasm.{Result, Reader, fetch, Form, form_text, decode_cb, k_reg8}
use emfe_plugins.Z80.Disasm.Plain.{decode_plain}
use emfe_plugins.Z80.Disasm.Extended.{decode_ed}
use emfe_plugins.Z80.Disasm.Indexed.{decode_dd_fd}

-- a decoder: it fetches its opcode, and then what its case needs
unfoldable pub decoded : (ℕ → Form) → Reader → (List ℕ × List ℕ) × Reader
unfolding fetch form_text
decoded form r = let (op, r') = fetch r in form_text (form op) r'

unfoldable pub decode_text : ℕ → Reader → (List ℕ × List ℕ) × Reader
unfolding decoded decode_plain decode_ed decode_dd_fd decode_cb k_reg8
decode_text first r =
    if first == 0xCB
    then (let (cb, r') = fetch (fetch r).1 in (decode_cb cb (codes (k_reg8 (bit_and cb 0x07))), r'))
    else if first == 0xDD
    then decoded (decode_dd_fd "IX" "$DD") (fetch r).1
    else if first == 0xFD
    then decoded (decode_dd_fd "IY" "$FD") (fetch r).1
    else if first == 0xED
    then decoded decode_ed (fetch r).1
    else decoded decode_plain r

-- The peek at the first byte is a read too.
abbrev pub start : Memory → ℕ → Reader
start m addr = record { mem = (Memory.read_byte addr m).1; pc = addr; length = 0; raw = [] }

unfoldable pub decode : Memory → ℕ → Result × Memory
unfolding decode_text
decode m addr =
    let (t, r) = decode_text (Memory.read_byte addr m).0 (start m addr) in
    (record { mnemonic = t.0; operands = t.1; raw_bytes = r.raw; length = r.length }, r.mem)
