-- ===== src/Em8/Plugin/Load/Record.antt =====
-- An S-record that is printed in hexadecimal, against what loading it does.
use emfe_plugins.Base.{
  ℕ, suc, ◌+◌, ◌-◌, ◌/◌, ◌%◌, ◌<◌, ◌≤◌, ◌≡◌, ◌∙◌, refl, ap, ap₂, true, ◌&&◌, List, [], ◌∷◌, ◌++◌,
  append_assoc, ltb, leb, ◌==◌, if◌then◌else◌, u16, word, length, arith, all_below, all_below_sound,
  ==_iff, get_or, min, max,
}
use emfe_plugins.Base.Masks.{bit_or_fields}
use emfe_plugins.Base.Text.{hex_byte, codes}
use emfe_plugins.Em8.Memory
use emfe_plugins.Em8.Memory.{Memory}
use emfe_plugins.Em8.Plugin.Number.{Text, rest}
use emfe_plugins.Em8.Plugin.Load.{get_or-head, get_or-tail}
use emfe_plugins.Em8.Plugin.Load.Srec.{Progress, parse_hex_byte, store_byte, data_loop, load_line}

-- an S1 record of some bytes, and their storing
hex_bytes : List ℕ → Text
hex_bytes [] = []
hex_bytes (b ∷ bytes) = hex_byte b ++ hex_bytes bytes

unfoldable pub s1_record : ℕ → List ℕ → ℕ → Text
unfolding hex_bytes
s1_record addr bytes checksum =
    codes "S1"
    ++ hex_byte (length bytes + 3)
    ++ hex_byte (addr / 256)
    ++ hex_byte (addr % 256)
    ++ hex_bytes bytes
    ++ hex_byte checksum

unfoldable pub store_bytes : ℕ → List ℕ → Progress → Progress
store_bytes addr [] g = g
store_bytes addr (b ∷ bytes) g = store_bytes (u16 (addr + 1)) bytes (store_byte addr b g)

all_bytes : all_below 256 (λ b. parse_hex_byte (hex_byte b) == b) ≡ true
unfolding all_below parse_hex_byte hex_byte
all_bytes = refl

parse_hex_byte-hex_byte : (b : ℕ) (t : Text) → b < 256 → parse_hex_byte (hex_byte b ++ t) ≡ b
unfolding parse_hex_byte hex_byte
parse_hex_byte-hex_byte b t h =
    unfold hex_byte in
    (==_iff _ b).0 (all_below_sound 256 (λ b. parse_hex_byte (hex_byte b) == b) b all_bytes h)

behind : (b : ℕ) (t : Text) → rest (rest (hex_byte b ++ t)) ≡ t
unfolding hex_byte
behind b t = refl

unfoldable pub AreBytes : List ℕ → Type 0
AreBytes [] = Unit
AreBytes (b ∷ bytes) = (b < 256) × AreBytes bytes

data_loop-suc :
    (n addr : ℕ) (p : Text) (g : Progress)
    → data_loop (suc n) addr p g
      ≡ data_loop n (u16 (addr + 1)) (rest (rest p)) (store_byte addr (parse_hex_byte p) g)
unfolding data_loop
data_loop-suc n addr p g = refl

data_loop-store_bytes :
    (addr : ℕ) (bytes : List ℕ) (t : Text) (g : Progress)
    → AreBytes bytes
    → data_loop (length bytes) addr (hex_bytes bytes ++ t) g ≡ store_bytes addr bytes g
unfolding store_bytes hex_bytes AreBytes
data_loop-store_bytes addr [] t g h = unfold data_loop in refl
data_loop-store_bytes addr (b ∷ bytes) t g (h, hs) =
    let more = hex_bytes bytes ++ t in
    ap (λ p. data_loop (suc (length bytes)) addr p g)
      (append_assoc (hex_byte b) (hex_bytes bytes) t)
    ∙ data_loop-suc (length bytes) addr (hex_byte b ++ more) g
    ∙ ap₂ (λ p v. data_loop (length bytes) (u16 (addr + 1)) p (store_byte addr v g)) (behind b more)
        (parse_hex_byte-hex_byte b more h)
    ∙ data_loop-store_bytes (u16 (addr + 1)) bytes t (store_byte addr b g) hs

word-halves : (a : ℕ) → a < 65536 → word (a / 256) (a % 256) ≡ a
word-halves a h = omega (arith, bit_or_fields 8 (a / 256) (a % 256))

load_line-s1 :
    (p : Text) (g : Progress)
    → 2 ≤ length p
    → let q = rest (rest p) in
      load_line (83 ∷ 49 ∷ p) g
      ≡ data_loop
          (parse_hex_byte p - 3)
          (word (parse_hex_byte q) (parse_hex_byte (rest (rest q))))
          (rest (rest (rest (rest q))))
          g
unfolding load_line
load_line-s1 p g h = ground arith

s1_record-length : (n : ℕ) (t : Text) → 2 ≤ length (hex_byte n ++ t)
unfolding hex_byte
s1_record-length n t = omega arith

load_line-store_bytes :
    (addr : ℕ) (bytes : List ℕ) (checksum : ℕ) (g : Progress)
    → addr < 65536
    → AreBytes bytes
    → length bytes < 253
    → load_line (s1_record addr bytes checksum) g ≡ store_bytes addr bytes g
unfolding s1_record load_line store_bytes hex_byte
load_line-store_bytes addr bytes checksum g h hs short =
    let n = length bytes + 3 in
    let t2 = hex_bytes bytes ++ hex_byte checksum in
    let t1 = hex_byte (addr % 256) ++ t2 in
    let t0 = hex_byte (addr / 256) ++ t1 in
    let gap : n - 3 ≡ length bytes = omega arith in
    load_line-s1 (hex_byte n ++ t0) g (s1_record-length n t0)
    ∙ rw
        (
          behind n t0,
          behind (addr / 256) t1,
          behind (addr % 256) t2,
          parse_hex_byte-hex_byte n t0 (omega arith),
          parse_hex_byte-hex_byte (addr / 256) t1 (omega arith),
          parse_hex_byte-hex_byte (addr % 256) t2 (omega arith),
          word-halves addr h,
          gap,
        )
        (data_loop-store_bytes addr bytes (hex_byte checksum) g hs)

store_bytes-bytes :
    (addr : ℕ) (bytes : List ℕ) (g : Progress) (a : ℕ)
    → addr + length bytes < 65536
    → (store_bytes addr bytes g).memory.bytes a ≡ (
        if leb addr a && ltb a (addr + length bytes)
        then get_or bytes (a - addr) 0
        else g.memory.bytes a)
unfolding store_bytes store_byte Memory.poke
store_bytes-bytes addr [] g a h = ground arith
store_bytes-bytes addr (b ∷ bytes) g a h =
    let next : u16 (addr + 1) ≡ addr + 1 = omega arith in
    ground (
      arith,
      next,
      store_bytes-bytes (u16 (addr + 1)) bytes (store_byte addr b g) a,
      get_or-head b bytes addr a,
      get_or-tail b bytes addr a,
    )

store_bytes-range :
    (addr : ℕ) (bytes : List ℕ) (g : Progress)
    → 0 < length bytes
    → addr + length bytes < 65536
    → ((store_bytes addr bytes g).min_addr ≡ min addr g.min_addr)
      × ((store_bytes addr bytes g).max_addr ≡ max g.max_addr (addr + length bytes))
      × ((store_bytes addr bytes g).entry_point ≡ g.entry_point)
unfolding store_bytes store_byte
store_bytes-range addr [] g n h = ground arith
store_bytes-range addr (b ∷ []) g n h = ground arith
store_bytes-range addr (b ∷ c ∷ bytes) g n h =
    let more = store_bytes-range (u16 (addr + 1)) (c ∷ bytes) (store_byte addr b g) in
    ground (arith, more)

-- Let an S1 record of 1 to 252 bytes, printed in hexadecimal with any checksum, end before $FFFF.
-- Loading it stores these bytes from its address on and leaves every other byte, and widens the
-- program's range by them: its start is the lower one and its end, behind the last byte, the higher
-- one. It gives no entry point.
pub load_line-s1_record :
    (addr : ℕ) (bytes : List ℕ) (checksum : ℕ) (g : Progress) (a : ℕ)
    → AreBytes bytes
    → 0 < length bytes
    → length bytes < 253
    → addr + length bytes < 65536
    → let t = load_line (s1_record addr bytes checksum) g in
      (t.memory.bytes a ≡ (
        if leb addr a && ltb a (addr + length bytes)
        then get_or bytes (a - addr) 0
        else g.memory.bytes a))
      × (t.min_addr ≡ min addr g.min_addr)
      × (t.max_addr ≡ max g.max_addr (addr + length bytes))
      × (t.entry_point ≡ g.entry_point)
load_line-s1_record addr bytes checksum g a hs filled short end =
    rw (load_line-store_bytes addr bytes checksum g (omega arith) hs short) (
      let range = store_bytes-range addr bytes g filled end in
      (store_bytes-bytes addr bytes g a end, range.0, range.1, range.2))
