-- ===== src/Z80/Disk/Transfer.antt =====
-- What the Z80's sector device moves between its image and the RAM.
use emfe_plugins.Base.{
  ℕ, zero, suc, ◌+◌, ◌*◌, ◌-◌, ◌%◌, ◌≤◌, ◌<◌, ◌≡◌, ◌≢◌, ◌∙◌, refl, ap, Bool, true, false, not, ◌&&◌,
  ltb, leb, ◌==◌, if◌then◌else◌, bit_and, u16, length, get_or, set, length-set, get_or-set_self,
  get_or-set_ne, arith,
}
use native.Mathlib.Decide.{ℕ_discrete, dec_lt}
use emfe_plugins.Base.Masks.{bit_and_mask}
use emfe_plugins.Z80.Disk
use emfe_plugins.Z80.Disk.{
  Disk, Ram, read_loop, write_loop, execute_command, command_read, command_write, has_image, failed,
  sector_bytes,
}

-- the address of the byte `i` of the sector buffer
abbrev pub buffer_at : Disk → ℕ → ℕ
buffer_at d i = (d.buf_ptr + i) % 65536

buffer_address : (d : Disk) (i : ℕ) → u16 (bit_and (d.buf_ptr + i) 0xFFFF) ≡ buffer_at d i
buffer_address d i = ground (arith, bit_and_mask 16 (d.buf_ptr + i))

-- The read loop leaves every address that it does not reach.
read_loop-outside :
    (n i off : ℕ) (d : Disk) (ram : Ram) (addr : ℕ)
    → ((j : ℕ) → i ≤ j → j < i + n → buffer_at d j ≢ addr)
    → read_loop n i off d ram addr ≡ ram addr
unfolding read_loop
read_loop-outside zero i off d ram addr misses = refl
read_loop-outside (suc n) i off d ram addr misses =
    let apart = misses i (omega arith) (omega arith) in
    read_loop-outside n (i + 1) off d _ addr (λ j h g. misses j (omega arith) (omega arith))
    ∙ ground (arith, buffer_address d i)

read_loop-inside :
    (n i off : ℕ) (d : Disk) (ram : Ram) (j : ℕ)
    → i ≤ j
    → j < i + n
    → i + n ≤ 65536
    → read_loop n i off d ram (buffer_at d j) ≡ get_or d.image (off + j) 0
unfolding read_loop
read_loop-inside zero i off d ram j h g w = absurd (omega arith)
read_loop-inside (suc n) i off d ram j h g w = elim (ℕ_discrete i j) [
  | yes e ↦
      read_loop-outside n (i + 1) off d _ (buffer_at d j) (λ k p q. omega arith)
      ∙ ground (arith, buffer_address d i, ap (λ t. get_or d.image (off + t) 0) e)
  | no p ↦ read_loop-inside n (i + 1) off d _ j (omega arith) (omega arith) (omega arith)
]

-- What the write loop makes of the image.
pub write_loop-rest :
    (n i off : ℕ) (ram : Ram) (d : Disk)
    → let d' = write_loop n i off ram d in
      (length d'.image ≡ length d.image)
      × (d'.lba ≡ d.lba)
      × (d'.buf_ptr ≡ d.buf_ptr)
      × (d'.write_protect ≡ d.write_protect)
      × (d'.error_sticky ≡ d.error_sticky)
unfolding write_loop
write_loop-rest zero i off ram d = (refl, refl, refl, refl, refl)
write_loop-rest (suc n) i off ram d =
    let value = ram (u16 (bit_and (d.buf_ptr + i) 0xFFFF)) in
    let later =
      write_loop-rest n (i + 1) off ram (record d { image = set d.image (off + i) value }) in
    (later.0 ∙ length-set d.image (off + i) value, later.1, later.2, later.3, later.4)

write_loop-outside :
    (n i off : ℕ) (ram : Ram) (d : Disk) (k : ℕ)
    → ((j : ℕ) → i ≤ j → j < i + n → off + j ≢ k)
    → get_or (write_loop n i off ram d).image k 0 ≡ get_or d.image k 0
unfolding write_loop
write_loop-outside zero i off ram d k misses = refl
write_loop-outside (suc n) i off ram d k misses =
    write_loop-outside n (i + 1) off ram _ k (λ j h g. misses j (omega arith) (omega arith))
    ∙ get_or-set_ne d.image (off + i) k _ 0 (misses i (omega arith) (omega arith))

write_loop-inside :
    (n i off : ℕ) (ram : Ram) (d : Disk) (j : ℕ)
    → i ≤ j
    → j < i + n
    → off + i + n ≤ length d.image
    → get_or (write_loop n i off ram d).image (off + j) 0 ≡ ram (buffer_at d j)
unfolding write_loop
write_loop-inside zero i off ram d j h g w = absurd (omega arith)
write_loop-inside (suc n) i off ram d j h g w = elim (ℕ_discrete i j) [
  | yes e ↦
      write_loop-outside n (i + 1) off ram _ (off + j) (λ k p q. omega arith)
      ∙ ap
          (λ t.
            get_or (set d.image (off + t) (ram (u16 (bit_and (d.buf_ptr + t) 0xFFFF)))) (off + j) 0)
          e
      ∙ get_or-set_self d.image (off + j) _ 0 (omega arith)
      ∙ ap ram (buffer_address d j)
  | no p ↦
      write_loop-inside n (i + 1) off ram _ j (omega arith) (omega arith)
        (omega (arith, length-set d.image (off + i) (ram (u16 (bit_and (d.buf_ptr + i) 0xFFFF)))))
]

-- the sector registers in their widths
pub record IsValid (d : Disk) : Type 0 where
  pub lba_in : d.lba < 16777216
  pub buf_ptr_in : d.buf_ptr < 65536

-- the image has the whole sector
abbrev pub in_image : Disk → Bool
in_image d = leb (d.lba * 128 + 128) (length d.image)

pub execute_command-outcome :
    (cmd : ℕ) (d : Disk) (ram : Ram)
    → IsValid d
    → execute_command cmd d ram ≡ (
        if cmd == 0
        then (record d { error_sticky = false }, ram)
        else if cmd == 1 && in_image d
        then (d, read_loop 128 0 (d.lba * 128) d ram)
        else if cmd == 2 && not d.write_protect && in_image d
        then (write_loop 128 0 (d.lba * 128) ram d, ram)
        else (record d { error_sticky = true }, ram))
unfolding execute_command command_read command_write has_image
execute_command-outcome cmd d ram v = ground (arith, offset_exact)
  where
    offset_exact : Disk.offset d ≡ d.lba * 128
    offset_exact = omega (arith, v.lba_in)

read-succeeds :
    (d : Disk) (ram : Ram)
    → IsValid d
    → in_image d ≡ true
    → execute_command 1 d ram ≡ (d, read_loop 128 0 (d.lba * 128) d ram)
read-succeeds d ram v has = execute_command-outcome 1 d ram v ∙ ground (arith, has)

write-succeeds :
    (d : Disk) (ram : Ram)
    → IsValid d
    → in_image d ≡ true
    → d.write_protect ≡ false
    → execute_command 2 d ram ≡ (write_loop 128 0 (d.lba * 128) ram d, ram)
write-succeeds d ram v has writable = execute_command-outcome 2 d ram v ∙ ground (arith, has)

-- how far an address is behind the sector buffer's start, going round the memory
abbrev pub behind_buffer : Disk → ℕ → ℕ
behind_buffer d addr = (addr + 65536 - d.buf_ptr) % 65536

-- the RAM behind a read of a sector that the image has
pub read-ram :
    (d : Disk) (ram : Ram) (addr : ℕ)
    → IsValid d
    → in_image d ≡ true
    → addr < 65536
    → (execute_command 1 d ram).1 addr ≡ (
        if ltb (behind_buffer d addr) 128
        then get_or d.image (d.lba * 128 + behind_buffer d addr) 0
        else ram addr)
read-ram d ram addr v has h =
    ap (λ r. r.1 addr) (read-succeeds d ram v has) ∙ elim (dec_lt (behind_buffer d addr) 128) [
      | yes p ↦
          ap (λ t. read_loop 128 0 (d.lba * 128) d ram t) here
          ∙ read_loop-inside 128 0 (d.lba * 128) d ram (behind_buffer d addr) (omega arith) p
              (omega arith)
          ∙ ground arith
      | no p ↦
          read_loop-outside 128 0 (d.lba * 128) d ram addr (λ j h g. omega (arith, v.buf_ptr_in))
          ∙ ground arith
    ]
  where
    here : addr ≡ buffer_at d (behind_buffer d addr)
    here = omega (arith, v.buf_ptr_in)

-- A sector that is written from one buffer and read into another is the same: behind the two
-- commands the RAM holds, at every address of the second buffer, the byte that the first buffer had
-- at that place, and every other address as before the read.
pub sector_roundtrip :
    (d : Disk) (ram later : Ram) (buffer addr : ℕ)
    → IsValid d
    → in_image d ≡ true
    → d.write_protect ≡ false
    → buffer < 65536
    → addr < 65536
    → let d' = record (execute_command 2 d ram).0 { buf_ptr = buffer } in
      (execute_command 1 d' later).1 addr ≡ (
        if ltb (behind_buffer d' addr) 128
        then ram ((d.buf_ptr + behind_buffer d' addr) % 65536)
        else later addr)
sector_roundtrip d ram later buffer addr v has writable h g =
    read-ram d' later addr (record { lba_in = rw lba_is v.lba_in; buf_ptr_in = h })
      (rw (lba_is, length_is) has) g
    ∙ elim (dec_lt (behind_buffer d' addr) 128) [
      | yes p ↦ ground (arith, lba_is, stored p)
      | no p ↦ ground arith
    ]
  where
    written : (execute_command 2 d ram).0 ≡ write_loop 128 0 (d.lba * 128) ram d
    written = ap (λ r. r.0) (write-succeeds d ram v has writable)

    d' : Disk
    d' = record (execute_command 2 d ram).0 { buf_ptr = buffer }

    lba_is : (execute_command 2 d ram).0.lba ≡ d.lba
    lba_is = ap (λ x. x.lba) written ∙ (write_loop-rest 128 0 (d.lba * 128) ram d).1

    length_is : length (execute_command 2 d ram).0.image ≡ length d.image
    length_is = ap (λ x. length x.image) written ∙ (write_loop-rest 128 0 (d.lba * 128) ram d).0

    room : (x : Disk) → in_image x ≡ true → x.lba * 128 + 0 + 128 ≤ length x.image
    room x fits = ground arith

    stored :
        behind_buffer d' addr < 128
        → get_or (execute_command 2 d ram).0.image (d.lba * 128 + behind_buffer d' addr) 0
          ≡ ram ((d.buf_ptr + behind_buffer d' addr) % 65536)
    stored p =
        ap (λ x. get_or x.image (d.lba * 128 + behind_buffer d' addr) 0) written
        ∙ write_loop-inside 128 0 (d.lba * 128) ram d (behind_buffer d' addr) (omega arith) p
            (room d has)
