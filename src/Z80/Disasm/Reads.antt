-- ===== src/Z80/Disasm/Reads.antt =====
-- How many bytes the decoders of the Z80 disassembler fetch, and which.
use emfe_plugins.Base.{
  ℕ, zero, suc, ◌+◌, ◌≡◌, ◌<◌, ◌/◌, ◌%◌, true, get_or, all_below, all_below_sound, refl, sym, ◌∙◌,
  ap, List, [], ◌∷◌, ◌++◌, u16, arith,
}
use emfe_plugins.Base.Text.{codes, hex_byte, same_text, same_text_sound}
use emfe_plugins.Z80.Memory
use emfe_plugins.Z80.Disasm.{
  Reader, append_raw, fetch, fetch_word, Piece, piece_text, pieces_text, Form, form_text,
}

-- the `n` bytes from `addr` on, around the end of the memory
unfoldable pub bytes_of : (ℕ → ℕ) → ℕ → ℕ → List ℕ
bytes_of ram addr zero = []
bytes_of ram addr (suc n) = bytes_of ram addr n ++ (ram (u16 (addr + n)) ∷ [])

-- a byte as two hexadecimal digits
abbrev digits : List ℕ
digits = codes "0123456789ABCDEF"

unfoldable pub two_digits : ℕ → List ℕ
two_digits b = get_or digits (b / 16) 0 ∷ get_or digits (b % 16) 0 ∷ []

digits_table : all_below 256 (λ b. same_text (two_digits b) (hex_byte b)) ≡ true
unfolding all_below two_digits hex_byte
digits_table = refl

two_digits-hex_byte : (b : ℕ) → b < 256 → two_digits b ≡ hex_byte b
two_digits-hex_byte b lt =
    same_text_sound _ _
      (all_below_sound 256 (λ b. same_text (two_digits b) (hex_byte b)) b digits_table lt)

-- bytes in hexadecimal, with a space between two
unfoldable pub separated : List ℕ → List ℕ
unfolding two_digits
separated [] = []
separated (b ∷ bytes) = b' ' ∷ two_digits b ++ separated bytes

unfoldable pub spaced : List ℕ → List ℕ
unfolding separated
spaced [] = []
spaced (b ∷ bytes) = two_digits b ++ separated bytes

unfoldable pub raw_of : (ℕ → ℕ) → ℕ → ℕ → List ℕ
unfolding bytes_of spaced
raw_of ram addr n = spaced (bytes_of ram addr n)

separated-append :
    (bytes : List ℕ) (b : ℕ)
    → separated (bytes ++ (b ∷ [])) ≡ separated bytes ++ (b' ' ∷ two_digits b)
unfolding separated
separated-append [] b = refl
separated-append (a ∷ bytes) b = ap (λ t. b' ' ∷ two_digits a ++ t) (separated-append bytes b)

-- `fetch` appends the space where the text has something in it already.
spaced-append :
    (bytes : List ℕ) (b : ℕ) → b < 256 → spaced (bytes ++ (b ∷ [])) ≡ append_raw (spaced bytes) b
unfolding spaced append_raw
spaced-append [] b lt = two_digits-hex_byte b lt
spaced-append (a ∷ bytes) b lt =
    ap (λ t. two_digits a ++ t) (separated-append bytes b)
    ∙ ap (λ t. two_digits a ++ (separated bytes ++ (b' ' ∷ t))) (two_digits-hex_byte b lt)

-- The reader is behind the bytes that it has shown.
pub record Shows (ram : ℕ → ℕ) (addr : ℕ) (r : Reader) : Type 0 where
  pub in_bytes : (a : ℕ) → ram a < 256
  pub ram_same : r.mem.ram ≡ ram
  pub behind : r.pc ≡ u16 (addr + r.length)
  pub shown : r.raw ≡ raw_of ram addr r.length

-- a decoder that fetches `k` bytes
pub record Reads {X : Type 0} (k : ℕ) (d : Reader → X × Reader) : Type 0 where
  pub fetched : (r : Reader) → (d r).1.length ≡ r.length + k
  pub shows : (ram : ℕ → ℕ) (addr : ℕ) (r : Reader) → Shows ram addr r → Shows ram addr (d r).1

pub fetch-value :
    (ram : ℕ → ℕ) (addr : ℕ) (r : Reader)
    → Shows ram addr r
    → (fetch r).0 ≡ ram (u16 (addr + r.length))
unfolding fetch Memory.read_byte Memory.check_watchpoint
fetch-value ram addr r h = ap (λ g. g r.pc) h.ram_same ∙ ap ram h.behind

fetch-raw_of :
    (ram : ℕ → ℕ) (addr : ℕ) (r : Reader)
    → Shows ram addr r
    → append_raw r.raw (fetch r).0
      ≡ append_raw (raw_of ram addr r.length) (ram (u16 (addr + r.length)))
fetch-raw_of ram addr r h =
    ap (λ t. append_raw t (fetch r).0) h.shown
    ∙ ap (append_raw (raw_of ram addr r.length)) (fetch-value ram addr r h)

pub fetch-Reads : Reads 1 fetch
fetch-Reads = record {
  fetched = λ r. unfold fetch in omega arith;
  shows = λ ram addr r h. record {
    in_bytes = h.in_bytes;
    ram_same = unfold fetch Memory.read_byte Memory.check_watchpoint in h.ram_same;
    behind = unfold fetch in step addr r.length r.pc h.behind;
    shown =
        unfold fetch raw_of bytes_of in
        fetch-raw_of ram addr r h
        ∙ sym (spaced-append (bytes_of ram addr r.length) _ (h.in_bytes _));
  };
}
  where
    step : (addr n pc : ℕ) → pc ≡ u16 (addr + n) → u16 (pc + 1) ≡ u16 (addr + suc n)
    step addr n pc e = omega arith

pub fetch_word-Reads : Reads 2 fetch_word
fetch_word-Reads = record {
  fetched = λ r. unfold fetch_word fetch in omega arith;
  shows = λ ram addr r h.
      unfold fetch_word in fetch-Reads.shows ram addr (fetch r).1 (fetch-Reads.shows ram addr r h);
}

-- the bytes that a piece, a list of them and a case fetch
unfoldable pub piece_size : Piece → ℕ
piece_size (Piece.lit s) = 0
piece_size (Piece.value v) = 0
piece_size Piece.imm8 = 1
piece_size Piece.indr8 = 1
piece_size Piece.imm16 = 2
piece_size Piece.ind16 = 2
piece_size Piece.disp = 1
piece_size Piece.rel = 1

unfoldable pub pieces_size : List Piece → ℕ
unfolding piece_size
pieces_size [] = 0
pieces_size (p ∷ ps) = piece_size p + pieces_size ps

unfoldable pub form_size : Form → ℕ
unfolding pieces_size
form_size (Form.row mnem ops) = pieces_size ops
form_size (Form.page_cb xy) = 2

piece_text-Reads : (p : Piece) → Reads (piece_size p) (piece_text p)
unfolding piece_size piece_text
piece_text-Reads (Piece.lit s) = record { fetched = λ r. omega arith; shows = λ ram addr r h. h }
piece_text-Reads (Piece.value v) = record { fetched = λ r. omega arith; shows = λ ram addr r h. h }
piece_text-Reads Piece.imm8 = record { fetched = fetch-Reads.fetched; shows = fetch-Reads.shows }
piece_text-Reads Piece.indr8 = record { fetched = fetch-Reads.fetched; shows = fetch-Reads.shows }
piece_text-Reads Piece.disp = record { fetched = fetch-Reads.fetched; shows = fetch-Reads.shows }
piece_text-Reads Piece.rel = record { fetched = fetch-Reads.fetched; shows = fetch-Reads.shows }
piece_text-Reads Piece.imm16 = record {
  fetched = fetch_word-Reads.fetched;
  shows = fetch_word-Reads.shows;
}
piece_text-Reads Piece.ind16 = record {
  fetched = fetch_word-Reads.fetched;
  shows = fetch_word-Reads.shows;
}

pieces_text-Reads : (ps : List Piece) → Reads (pieces_size ps) (pieces_text ps)
unfolding pieces_size pieces_text
pieces_text-Reads [] = record { fetched = λ r. omega arith; shows = λ ram addr r h. h }
pieces_text-Reads (p ∷ ps) =
    let one = piece_text-Reads p in
    let others = pieces_text-Reads ps in
    record {
      fetched =
          λ r. (let e = one.fetched r in let g = others.fetched (piece_text p r).1 in omega arith);
      shows = λ ram addr r h. others.shows ram addr (piece_text p r).1 (one.shows ram addr r h);
    }

pub form_text-Reads : (form : Form) → Reads (form_size form) (form_text form)
unfolding form_size form_text
form_text-Reads (Form.row mnem ops) =
    let h = pieces_text-Reads ops in record { fetched = h.fetched; shows = h.shows }
form_text-Reads (Form.page_cb xy) = record {
  fetched = λ r. unfold fetch in omega arith;
  shows = λ ram addr r h. fetch-Reads.shows ram addr (fetch r).1 (fetch-Reads.shows ram addr r h);
}
