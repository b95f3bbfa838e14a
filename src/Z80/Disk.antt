-- ===== src/Z80/Disk.antt =====
-- z80/src/Z80DiskDevice.h and Z80DiskDevice.cpp: the sector device at the ports 0xF0 to 0xF7. The
-- pointer `Memory` is used for its array `Ram` only, which a method takes and returns.
pub mod Transfer
pub mod Registers
use emfe_plugins.Base.{
  ℕ, zero, suc, ◌+◌, ◌*◌, ◌/◌, Bool, true, false, not, List, [], bit_and, bit_or, ltb, ◌==◌,
  if◌then◌else◌, u16, u32, update, length, get_or, set,
}

-- `Z80Memory::Ram`, and its two accessors without side effects
abbrev pub Ram : Type 0
Ram = ℕ → ℕ

abbrev pub peek : ℕ → Ram → ℕ
peek addr ram = ram addr

abbrev pub poke : ℕ → ℕ → Ram → Ram
poke addr val ram = update ram addr val

pub record Disk : Type 0 where
  pub image : List ℕ
  pub write_protect : Bool
  pub lba : ℕ
  pub buf_ptr : ℕ
  pub error_sticky : Bool

-- the object as it is constructed
abbrev pub init : Disk
init = record { image = []; write_protect = false; lba = 0; buf_ptr = 0; error_sticky = false }

abbrev pub sector_bytes : ℕ
sector_bytes = 128

unfoldable pub set_image : List ℕ → Bool → Disk → Disk
set_image bytes protect d = record d {
  image = bytes;
  write_protect = protect;
  lba = 0;
  buf_ptr = 0;
  error_sticky = false;
}

unfoldable pub reset : Disk → Disk
reset d = record d { lba = 0; buf_ptr = 0; error_sticky = false }

unfoldable pub has_image : Disk → Bool
has_image d = not (length d.image == 0)

unfoldable pub peek_image_byte : ℕ → Disk → ℕ
peek_image_byte offset d = if ltb offset (length d.image) then get_or d.image offset 0 else 0

unfoldable pub poke_image_byte : ℕ → ℕ → Disk → Disk
poke_image_byte offset value d =
    if ltb offset (length d.image) then record d { image = set d.image offset value } else d

-- the status register
unfoldable pub status : Disk → ℕ
unfolding has_image
status d =
    let ready : ℕ = 0x01 in
    let loaded = if has_image d then bit_or ready 0x08 else ready in
    let locked = if d.write_protect then bit_or loaded 0x04 else loaded in
    if d.error_sticky then bit_or locked 0x02 else locked

unfoldable pub read_io : ℕ → Disk → ℕ
unfolding status
read_io port d =
    if port == 0xF0
    then bit_and d.lba 0xFF
    else if port == 0xF1
    then bit_and (d.lba / 256) 0xFF
    else if port == 0xF2
    then bit_and (d.lba / 65536) 0xFF
    else if port == 0xF3
    then bit_and d.buf_ptr 0xFF
    else if port == 0xF4
    then bit_and (d.buf_ptr / 256) 0xFF
    else if port == 0xF5
    then 0xFF
    else if port == 0xF6
    then status d
    else if port == 0xF7
    then 0
    else 0xFF

-- The loop of the read command from its round `i` on, with `n` rounds to go: the image at `off + i`
-- goes to the address `m_bufPtr + i`, which wraps at 16 bits.
unfoldable pub read_loop : ℕ → ℕ → ℕ → Disk → Ram → Ram
read_loop zero i off d ram = ram
read_loop (suc n) i off d ram =
    read_loop n (i + 1) off d
      (poke (u16 (bit_and (d.buf_ptr + i) 0xFFFF)) (get_or d.image (off + i) 0) ram)

-- the loop of the write command
unfoldable pub write_loop : ℕ → ℕ → ℕ → Ram → Disk → Disk
write_loop zero i off ram d = d
write_loop (suc n) i off ram d =
    write_loop n (i + 1) off ram
      (record d { image = set d.image (off + i) (peek (u16 (bit_and (d.buf_ptr + i) 0xFFFF)) ram) })

abbrev pub failed : Disk → Disk
failed d = record d { error_sticky = true }

-- `uint32_t off = m_lba * k_sectorBytes` and the test behind it
abbrev pub offset : Disk → ℕ
offset d = u32 (d.lba * sector_bytes)

abbrev pub past_end : Disk → Bool
past_end d = ltb (length d.image) (u32 (offset d + sector_bytes))

unfoldable pub command_read : Disk → Ram → Disk × Ram
unfolding has_image
command_read d ram =
    if not (has_image d)
    then (failed d, ram)
    else if past_end d
    then (failed d, ram)
    else (d, read_loop sector_bytes 0 (offset d) d ram)

unfoldable pub command_write : Disk → Ram → Disk × Ram
unfolding has_image
command_write d ram =
    if not (has_image d)
    then (failed d, ram)
    else if d.write_protect
    then (failed d, ram)
    else if past_end d
    then (failed d, ram)
    else (write_loop sector_bytes 0 (offset d) ram d, ram)

unfoldable pub execute_command : ℕ → Disk → Ram → Disk × Ram
unfolding command_read command_write
execute_command cmd d ram =
    if cmd == 0x00
    then (record d { error_sticky = false }, ram)
    else if cmd == 0x01
    then command_read d ram
    else if cmd == 0x02
    then command_write d ram
    else (failed d, ram)

unfoldable pub write_io : ℕ → ℕ → Disk → Ram → Disk × Ram
unfolding execute_command
write_io port val d ram =
    if port == 0xF0
    then (record d { lba = bit_or (bit_and d.lba 0xFFFF00) val }, ram)
    else if port == 0xF1
    then (record d { lba = bit_or (bit_and d.lba 0xFF00FF) (val * 256) }, ram)
    else if port == 0xF2
    then (record d { lba = bit_or (bit_and d.lba 0x00FFFF) (val * 65536) }, ram)
    else if port == 0xF3
    then (record d { buf_ptr = u16 (bit_or (bit_and d.buf_ptr 0xFF00) val) }, ram)
    else if port == 0xF4
    then (record d { buf_ptr = u16 (bit_or (bit_and d.buf_ptr 0x00FF) (val * 256)) }, ram)
    else if port == 0xF5
    then execute_command val d ram
    else (d, ram)
