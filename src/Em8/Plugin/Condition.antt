-- ===== src/Em8/Plugin/Condition.antt =====
-- em8/src/plugin_em8.cpp: `CondParser` and `EvaluateCondition`. A method takes the pointer `p` as
-- the text from it on, and gives its value with the pointer that it leaves.
pub mod Compare
use emfe_plugins.Base.{
  ℕ, zero, suc, Bool, true, not, ◌&&◌, ◌||◌, [], ◌∷◌, Option, none, some, bit_and, ltb, leb, ◌==◌,
  if◌then◌else◌, length, u32,
}
use emfe_plugins.Em8.Cpu.State.{Cpu}
use emfe_plugins.Em8.Plugin.Number.{Text, peek, rest, strtoul}

abbrev pub P : Type 0
P = Text → ℕ × Text

-- `skipWS`
unfoldable pub skip_ws : Text → Text
skip_ws [] = []
skip_ws (c ∷ t) = let more = skip_ws t in if c == 32 || c == 9 then more else c ∷ t

unfoldable pub is_word_char : ℕ → Bool
is_word_char c = leb 48 c && leb c 57 || leb 65 c && leb c 90 || leb 97 c && leb c 122 || c == 95

unfoldable pub parse_number : P
parse_number p =
    let t = skip_ws p in
    let next = peek (rest t) in
    let (hex, after_hex) = strtoul 16 (rest t) in
    let (hex2, after_hex2) = strtoul 16 (rest (rest t)) in
    let (dec, after_dec) = strtoul 10 t in
    if peek t == 36
    then (u32 hex, after_hex)
    else if peek t == 48 && (next == 120 || next == 88)
    then (u32 hex2, after_hex2)
    else (u32 dec, after_dec)

-- the test for a register's name of one letter, and of two
is_letter : ℕ → ℕ → Text → Bool
unfolding is_word_char
is_letter upper lower t = (peek t == upper || peek t == lower) && not (is_word_char (peek (rest t)))

is_pair : ℕ → ℕ → ℕ → ℕ → Text → Bool
unfolding is_word_char
is_pair upper1 lower1 upper2 lower2 t =
    (peek t == upper1 || peek t == lower1)
    && ((peek (rest t) == upper2 || peek (rest t) == lower2)
        && not (is_word_char (peek (rest (rest t)))))

-- `tryReg` behind its `skipWS`
unfoldable pub try_reg : Cpu → Text → Option (ℕ × Text)
unfolding is_letter is_pair
try_reg cpu t =
    if is_letter 65 97 t
    then some (cpu.a, rest t)
    else if is_letter 88 120 t
    then some (cpu.x, rest t)
    else if is_letter 89 121 t
    then some (cpu.y, rest t)
    else if is_pair 83 115 80 112 t
    then some (cpu.sp, rest (rest t))
    else if is_pair 80 112 67 99 t
    then some (cpu.pc, rest (rest t))
    else if is_pair 70 102 76 108 t
    then some (cpu.fl, rest (rest t))
    else none

abbrev of_bool : Bool → ℕ
of_bool b = if b then 1 else 0

-- `tryChar(')')`
close : ℕ × Text → ℕ × Text
close (val, t) = let t' = skip_ws t in (val, if peek t' == 41 then rest t' else t')

-- The five levels, over the `parse_or` that a parenthesis starts. A loop has `n` rounds left, and
-- each of its rounds consumes a character.
module _ (cpu : Cpu) (inner : P) where
  unfoldable pub parse_primary : P
  unfolding close
  parse_primary p =
      let t = skip_ws p in
      elim (try_reg cpu t) [
        | some found ↦ found
        | none ↦ if peek t == 40 then close (inner (rest t)) else parse_number t
      ]

  unfoldable pub bit_and_loop : ℕ → ℕ × Text → ℕ × Text
  bit_and_loop zero (left, p) = (left, p)
  bit_and_loop (suc n) (left, p) =
      let t = skip_ws p in
      let (right, t') = parse_primary (rest t) in
      let more = bit_and_loop n (bit_and left right, t') in
      if peek t == 38 && not (peek (rest t) == 38) then more else (left, t)

  unfoldable pub parse_bit_and : P
  parse_bit_and p = let (left, t) = parse_primary p in bit_and_loop (length t) (left, t)

  unfoldable pub compare_with : (ℕ → ℕ → Bool) → ℕ → Text → ℕ × Text
  compare_with test left t = let (right, t') = parse_bit_and t in (of_bool (test left right), t')

  -- what `parseCompare` does behind its first operand
  unfoldable pub compare_tail : ℕ × Text → ℕ × Text
  unfolding compare_with
  compare_tail (left, t0) =
      let t = skip_ws t0 in
      let equals = peek (rest t) == 61 in
      if peek t == 61 && equals
      then compare_with (λ l r. l == r) left (rest (rest t))
      else if peek t == 33 && equals
      then compare_with (λ l r. not (l == r)) left (rest (rest t))
      else if peek t == 60 && equals
      then compare_with leb left (rest (rest t))
      else if peek t == 62 && equals
      then compare_with (λ l r. leb r l) left (rest (rest t))
      else if peek t == 60
      then compare_with ltb left (rest t)
      else if peek t == 62
      then compare_with (λ l r. ltb r l) left (rest t)
      else (left, t)

  unfoldable pub parse_compare : P
  unfolding compare_tail
  parse_compare p = compare_tail (parse_bit_and p)

  unfoldable pub and_loop : ℕ → ℕ × Text → ℕ × Text
  and_loop zero (left, p) = (left, p)
  and_loop (suc n) (left, p) =
      let t = skip_ws p in
      let (right, t') = parse_compare (rest (rest t)) in
      let more = and_loop n (of_bool (not (left == 0) && not (right == 0)), t') in
      if peek t == 38 && peek (rest t) == 38 then more else (left, t)

  unfoldable pub parse_and : P
  parse_and p = let (left, t) = parse_compare p in and_loop (length t) (left, t)

  unfoldable pub or_loop : ℕ → ℕ × Text → ℕ × Text
  or_loop zero (left, p) = (left, p)
  or_loop (suc n) (left, p) =
      let t = skip_ws p in
      let (right, t') = parse_and (rest (rest t)) in
      let more = or_loop n (of_bool (not (left == 0) || not (right == 0)), t') in
      if peek t == 124 && peek (rest t) == 124 then more else (left, t)

  unfoldable pub or_level : P
  or_level p = let (left, t) = parse_and p in or_loop (length t) (left, t)

-- `parseOr` below at most `depth` open parentheses
unfoldable pub parse_or : Cpu → ℕ → P
parse_or cpu zero p = (0, p)
parse_or cpu (suc depth) p = or_level cpu (parse_or cpu depth) p

-- A text has no more open parentheses than characters.
unfoldable pub evaluate_condition : Cpu → Option Text → Bool
evaluate_condition cpu none = true
evaluate_condition cpu (some []) = true
evaluate_condition cpu (some (c ∷ t)) = not ((parse_or cpu (suc (suc (length t))) (c ∷ t)).0 == 0)
