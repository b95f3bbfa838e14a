-- ===== src/Em8/Plugin/Number.antt =====
-- The C library's `strtoul`, for an `unsigned long` of 64 bits, as `CondParser::parseNumber` of
-- em8/src/plugin_em8.cpp uses it. A text is the list of the characters' codes before the NUL.
use emfe_plugins.Base.{
  ℕ, ◌+◌, ◌-◌, ◌*◌, ◌%◌, Bool, ◌&&◌, ◌||◌, List, [], ◌∷◌, ltb, leb, ◌==◌, if◌then◌else◌, min,
}

abbrev pub Text : Type 0
Text = List ℕ

-- the character at the pointer, which is NUL at the end
abbrev pub peek : Text → ℕ
peek [] = 0
peek (c ∷ t) = c

-- the pointer moved on, at most to the end
abbrev pub rest : Text → Text
rest [] = []
rest (c ∷ t) = t

abbrev pub is_space : ℕ → Bool
is_space c = c == 32 || (leb 9 c && leb c 13)

-- the value of a digit, 99 for another character
abbrev pub digit : ℕ → ℕ
digit c =
    if leb 48 c && leb c 57
    then c - 48
    else if leb 65 c && leb c 90
    then c - 55
    else if leb 97 c && leb c 122
    then c - 87
    else 99

abbrev pub ulong_max : ℕ
ulong_max = 18446744073709551615

-- The digits from the pointer on, behind a number `acc`; a value out of range is cut to one above
-- the largest, and its digits are read all the same.
unfoldable pub digits : ℕ → ℕ → Text → ℕ × Text
digits base acc [] = (acc, [])
digits base acc (c ∷ t) =
    let more = digits base (min (ulong_max + 1) (acc * base + digit c)) t in
    if ltb (digit c) base then more else (acc, c ∷ t)

unfoldable pub skip_space : Text → Text
skip_space [] = []
skip_space (c ∷ t) = let more = skip_space t in if is_space c then more else c ∷ t

-- a prefix `0x` counts when a digit follows
unfoldable pub skip_prefix : ℕ → Text → Text
skip_prefix base t =
    if base == 16
      && (peek t == 48
          && ((peek (rest t) == 120 || peek (rest t) == 88)
              && ltb (digit (peek (rest (rest t)))) 16))
    then rest (rest t)
    else t

-- Without a digit nothing is consumed, and the value is 0.
unfoldable pub strtoul : ℕ → Text → ℕ × Text
strtoul base t =
    let start = skip_space t in
    let negative = peek start == 45 in
    let unsigned = if negative || peek start == 43 then rest start else start in
    let body = skip_prefix base unsigned in
    let (val, t') = digits base 0 body in
    if ltb (digit (peek body)) base
    then (
      (if ltb ulong_max val
          then ulong_max
          else if negative
          then (ulong_max + 1 - val) % (ulong_max + 1)
          else val),
      t',
    )
    else (0, t)
