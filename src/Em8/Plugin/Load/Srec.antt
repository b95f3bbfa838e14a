-- ===== src/Em8/Plugin/Load/Srec.antt =====
-- em8/src/plugin_em8.cpp: `emfe_load_srec`. Behind the end of a line the model reads NUL
-- characters, where the source reads past the string: the two agree on a line that has the bytes
-- which its byte count announces.
use emfe_plugins.Base.{
  ℕ, zero, suc, ◌+◌, ◌-◌, ◌*◌, ◌&&◌, ◌||◌, not, List, [], ◌∷◌, Option, none, some, bit_or, ltb, leb,
  ◌==◌, if◌then◌else◌, u8, u16, word, length,
}
use emfe_plugins.Em8.Memory
use emfe_plugins.Em8.Memory.{Memory}
use emfe_plugins.Em8.Plugin.Number.{Text, peek, rest}
use emfe_plugins.Em8.Plugin.Instance.{Instance, Result}
use emfe_plugins.Em8.Plugin.Run.{is_running}

unfoldable pub nibble : ℕ → ℕ
nibble c =
    if leb 48 c && leb c 57
    then c - 48
    else if leb 65 c && leb c 70
    then 10 + c - 65
    else if leb 97 c && leb c 102
    then 10 + c - 97
    else 0

unfoldable pub parse_hex_byte : Text → ℕ
unfolding nibble
parse_hex_byte p = u8 (bit_or (nibble (peek p) * 16) (nibble (peek (rest p))))

-- the locals of the call, and the memory
pub record Progress : Type 0 where
  pub memory : Memory
  pub min_addr : ℕ
  pub max_addr : ℕ
  pub entry_point : Option ℕ

-- `minAddr` and `maxAddr` are `uint16_t`
unfoldable pub store_byte : ℕ → ℕ → Progress → Progress
store_byte addr data_byte g = record g {
  memory = Memory.poke addr data_byte g.memory;
  min_addr = if ltb addr g.min_addr then addr else g.min_addr;
  max_addr = if leb g.max_addr addr then u16 (addr + 1) else g.max_addr;
}

-- the loop over the data of an S1 record, with `n` bytes left
unfoldable pub data_loop : ℕ → ℕ → Text → Progress → Progress
data_loop zero addr p g = g
data_loop (suc n) addr p g =
    data_loop n (u16 (addr + 1)) (rest (rest p)) (store_byte addr (parse_hex_byte p) g)

-- one round of the loop over the lines
unfoldable pub load_line : Text → Progress → Progress
load_line line g =
    let rec_type = peek (rest line) in
    let p = rest (rest line) in
    let byte_count = parse_hex_byte p in
    let q = rest (rest p) in
    let addr = word (parse_hex_byte q) (parse_hex_byte (rest (rest q))) in
    if ltb (length line) 4 || not (peek line == 83)
    then g
    else if rec_type == 49
    then data_loop (byte_count - 3) addr (rest (rest (rest (rest q)))) g
    else if rec_type == 57
    then record g { entry_point = some addr }
    else g

unfoldable pub load_lines : List Text → Progress → Progress
load_lines [] g = g
load_lines (line ∷ lines) g = load_lines lines (load_line line g)

srec_pc : Progress → ℕ → ℕ
srec_pc g pc = elim g.entry_point [
  | some entry ↦ entry
  | none ↦ if leb g.min_addr g.max_addr then g.min_addr else pc
]

load_text : List Text → Instance → Instance
unfolding srec_pc
load_text lines i =
    let g =
      load_lines lines
        (record { memory = i.cpu.memory; min_addr = 0xffff; max_addr = 0; entry_point = none }) in
    record i {
      cpu = record i.cpu { memory = g.memory; pc = srec_pc g i.cpu.pc; sp = 0xff };
      program_start_address = g.min_addr;
      program_end_address = g.max_addr;
    }

unfoldable pub load_srec : Option (List Text) → Instance → Result × Instance
unfolding load_text
load_srec none i = if is_running i then (Result.err_state, i) else (Result.err_io, i)
load_srec (some lines) i =
    if is_running i then (Result.err_state, i) else (Result.ok, load_text lines i)
