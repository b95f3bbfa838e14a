-- ===== src/Z80/Memory/Words.antt =====
-- The Z80's words in memory, and its watchpoints.
use emfe_plugins.Base.{
  ℕ, ◌+◌, ◌*◌, ◌/◌, ◌%◌, ◌<◌, ◌≡◌, refl, ap, Bool, true, false, not, ◌&&◌, ◌||◌, List, [], ◌∷◌,
  bit_and, bit_or, ltb, leb, ◌==◌, if◌then◌else◌, u8, u16, arith, update,
}
use emfe_plugins.Base.Masks.{bit_and_mask, bit_or_fields_right}
use emfe_plugins.Z80.Memory
use emfe_plugins.Z80.Memory.{Memory, Watchpoint, read_word, write_word, read_byte, write_byte}

-- the two bytes of a word, joined again
pub word_bytes :
    (v : ℕ) → v < 65536 → u16 (bit_or (u8 (bit_and v 0xFF)) (u8 (bit_and (v / 256) 0xFF) * 256)) ≡ v
word_bytes v h =
    ground
      (arith, bit_and_mask 8 v, bit_and_mask 8 (v / 256), bit_or_fields_right 8 (v / 256) (v % 256))

-- A word that is written is read back, also where it wraps at the end of the memory.
pub read_word-write_word :
    (addr v : ℕ) (m : Memory) → addr < 65536 → v < 65536 → read_word addr (write_word addr v m) ≡ v
unfolding read_word write_word
read_word-write_word addr v m h g = ground (arith, word_bytes v g)

-- whether an access is one that a watchpoint waits for
abbrev pub covers : ℕ → Bool → Watchpoint → Bool
covers addr is_write w =
    w.enabled
    && leb w.addr addr
    && ltb addr (w.addr + w.size)
    && not (if is_write then w.kind == 0 else w.kind == 1)

abbrev pub any_covers : ℕ → Bool → List Watchpoint → Bool
any_covers addr is_write [] = false
any_covers addr is_write (w ∷ ws) = covers addr is_write w || any_covers addr is_write ws

check_loop-any :
    (addr : ℕ) (is_write : Bool) (ws : List Watchpoint) (hit : Bool)
    → Memory.check_loop addr is_write ws hit ≡ any_covers addr is_write ws || hit
unfolding Memory.check_loop
check_loop-any addr is_write [] hit = refl
check_loop-any addr is_write (w ∷ ws) hit = ground (arith, check_loop-any addr is_write ws hit)

-- A byte access raises the flag exactly if some enabled watchpoint covers its address and waits for
-- its kind of access, and keeps a raised flag; it leaves the watchpoints and the devices, a read
-- the RAM, and a write all of the RAM but its cell. A word access never raises the flag.
pub access-watchpoint_hit :
    (addr v : ℕ) (m : Memory)
    → ((read_byte addr m).1
        ≡ record m { watchpoint_hit = any_covers addr false m.watchpoints || m.watchpoint_hit })
      × (write_byte addr v m ≡ record m {
        ram = update m.ram addr v;
        watchpoint_hit = any_covers addr true m.watchpoints || m.watchpoint_hit;
      })
      × ((write_word addr v m).watchpoint_hit ≡ m.watchpoint_hit)
unfolding read_byte write_byte write_word Memory.check_watchpoint
access-watchpoint_hit addr v m = (
  ap (λ h. record m { watchpoint_hit = h })
      (check_loop-any addr false m.watchpoints m.watchpoint_hit),
  ap (λ h. record m { ram = update m.ram addr v; watchpoint_hit = h })
      (check_loop-any addr true m.watchpoints m.watchpoint_hit),
  refl,
)
