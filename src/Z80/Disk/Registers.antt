-- ===== src/Z80/Disk/Registers.antt =====
-- The registers of the Z80's sector device: widths, and what the guest reads back.
use emfe_plugins.Base.{
  ℕ, ◌+◌, ◌*◌, ◌/◌, ◌%◌, ◌<◌, ◌≡◌, ◌∙◌, ap, bit_and, bit_or, u16, length, arith,
}
use emfe_plugins.Base.Masks.{
  bit_and_mask, bit_and_shifted, bit_or_fields, bit_or_fields_right, bit_or_shifted, bit_and_split,
}
use emfe_plugins.Z80.Disk.{Disk, Ram, read_io, write_io}
use emfe_plugins.Z80.Disk.Transfer.{IsValid, execute_command-outcome, write_loop-rest}

-- the bytes of a number of 24 bits, changed one at a time
with_low : (w v : ℕ) → w < 16777216 → v < 256 → bit_or (bit_and w 0xFFFF00) v ≡ w / 256 * 256 + v
with_low w v h g =
    ground
      (arith, bit_and_shifted 8 w 65535, bit_and_mask 16 (w / 256), bit_or_fields 8 (w / 256) v)

with_top : (w v : ℕ) → v < 256 → bit_or (bit_and w 0x00FFFF) (v * 65536) ≡ v * 65536 + w % 65536
with_top w v g = ground (arith, bit_and_mask 16 w, bit_or_fields_right 16 v (w % 65536))

mask_middle : (w : ℕ) → w < 16777216 → bit_and w 0xFF00FF ≡ w / 65536 * 65536 + w % 256
mask_middle w h =
    ground
      (arith, bit_and_split 16 w 255 255, bit_and_mask 8 (w / 65536), bit_and_mask 8 (w % 65536))

with_middle :
    (w v : ℕ)
    → w < 16777216
    → v < 256
    → bit_or (bit_and w 0xFF00FF) (v * 256) ≡ w / 65536 * 65536 + v * 256 + w % 256
with_middle w v h g =
    let high : (w / 65536 * 65536 + w % 256) / 256 ≡ w / 65536 * 256 = omega arith in
    ap (λ t. bit_or t (v * 256)) (mask_middle w h)
    ∙ bit_or_shifted 8 (w / 65536 * 65536 + w % 256) v
    ∙ ap (λ t. bit_or t v * 256 + (w / 65536 * 65536 + w % 256) % 256) high
    ∙ omega (arith, bit_or_fields 8 (w / 65536) v)

mask_high : (w : ℕ) → w < 65536 → bit_and w 0xFF00 ≡ w / 256 * 256
mask_high w h = bit_and_shifted 8 w 255 ∙ ap (λ t. t * 256) (bit_and_mask 8 (w / 256) ∙ omega arith)

buffer_low : (w v : ℕ) → w < 65536 → v < 256 → u16 (bit_or (bit_and w 0xFF00) v) ≡ w / 256 * 256 + v
buffer_low w v h g = ground (arith, mask_high w h, bit_or_fields 8 (w / 256) v)

buffer_high : (w v : ℕ) → v < 256 → u16 (bit_or (bit_and w 0x00FF) (v * 256)) ≡ v * 256 + w % 256
buffer_high w v g = ground (arith, bit_and_mask 8 w, bit_or_fields_right 8 v (w % 256))

-- A write of a byte to any port keeps the sector registers in their widths and the image's size.
pub write_io-IsValid :
    (port val : ℕ) (d : Disk) (ram : Ram)
    → IsValid d
    → val < 256
    → IsValid (write_io port val d ram).0
      × (length (write_io port val d ram).0.image ≡ length d.image)
unfolding write_io
write_io-IsValid port val d ram v h = ground (
  arith,
  with_low d.lba val v.lba_in h,
  with_middle d.lba val v.lba_in h,
  with_top d.lba val h,
  execute_command-outcome val d ram v,
  write_loop-rest 128 0 (d.lba * 128) ram d,
)

-- The three bytes of a sector number, written in any state, are the sector number and are read
-- back, and so are the two bytes of the buffer's address.
pub address_roundtrip :
    (b0 b1 b2 p0 p1 : ℕ) (d : Disk) (ram : Ram)
    → IsValid d
    → (b0 < 256) × (b1 < 256) × (b2 < 256) × (p0 < 256) × (p1 < 256)
    → let d1 = (write_io 0xF0 b0 d ram).0 in
      let d2 = (write_io 0xF1 b1 d1 ram).0 in
      let d3 = (write_io 0xF2 b2 d2 ram).0 in
      let d4 = (write_io 0xF3 p0 d3 ram).0 in
      let d5 = (write_io 0xF4 p1 d4 ram).0 in
      (d5.lba ≡ b0 + 256 * b1 + 65536 * b2)
      × (d5.buf_ptr ≡ p0 + 256 * p1)
      × (read_io 0xF0 d5 ≡ b0)
      × (read_io 0xF1 d5 ≡ b1)
      × (read_io 0xF2 d5 ≡ b2)
      × (read_io 0xF3 d5 ≡ p0)
      × (read_io 0xF4 d5 ≡ p1)
unfolding write_io read_io
address_roundtrip b0 b1 b2 p0 p1 d ram v h =
    let d1 = (write_io 0xF0 b0 d ram).0 in
    let d2 = (write_io 0xF1 b1 d1 ram).0 in
    let d3 = (write_io 0xF2 b2 d2 ram).0 in
    let d4 = (write_io 0xF3 p0 d3 ram).0 in
    let d5 = (write_io 0xF4 p1 d4 ram).0 in
    let low = with_low d.lba b0 v.lba_in h.0 in
    let middle =
      with_middle (bit_or (bit_and d.lba 0xFFFF00) b0) b1 (omega (arith, low, v.lba_in)) h.1 in
    let top =
      with_top (bit_or (bit_and (bit_or (bit_and d.lba 0xFFFF00) b0) 0xFF00FF) (b1 * 256)) b2 h.2 in
    let first = buffer_low d.buf_ptr p0 v.buf_ptr_in h.3 in
    let second = buffer_high (u16 (bit_or (bit_and d.buf_ptr 0xFF00) p0)) p1 h.4 in
    let lba_is : d5.lba ≡ b0 + 256 * b1 + 65536 * b2 = top ∙ omega (arith, low, middle, v.lba_in) in
    let ptr_is : d5.buf_ptr ≡ p0 + 256 * p1 = second ∙ omega (arith, first, v.buf_ptr_in) in
    (
      lba_is,
      ptr_is,
      ap (λ t. bit_and t 0xFF) lba_is ∙ bit_and_mask 8 _ ∙ omega arith,
      ap (λ t. bit_and (t / 256) 0xFF) lba_is ∙ bit_and_mask 8 _ ∙ omega arith,
      ap (λ t. bit_and (t / 65536) 0xFF) lba_is ∙ bit_and_mask 8 _ ∙ omega arith,
      ap (λ t. bit_and t 0xFF) ptr_is ∙ bit_and_mask 8 _ ∙ omega arith,
      ap (λ t. bit_and (t / 256) 0xFF) ptr_is ∙ bit_and_mask 8 _ ∙ omega arith,
    )
