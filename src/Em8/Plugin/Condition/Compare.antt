-- ===== src/Em8/Plugin/Condition/Compare.antt =====
-- What the comparisons of a breakpoint's condition mean.
use emfe_plugins.Base.{
  ℕ, ◌+◌, ◌<◌, ◌≡◌, ◌∙◌, refl, ap, ap₂, Bool, true, false, not, ◌&&◌, [], ◌∷◌, ◌++◌, some, ◌==◌,
  if◌then◌else◌, ltb, leb, all_below, all_below_sound, ==_iff, arith, u32,
}
use emfe_plugins.Base.Text.{codes, hex_byte}
use emfe_plugins.Em8.Cpu.State.{Cpu}
use emfe_plugins.Em8.Plugin.Number.{Text, digits, skip_space, skip_prefix, strtoul}
use emfe_plugins.Em8.Plugin.Condition.{
  skip_ws, is_word_char, parse_number, try_reg, parse_primary, bit_and_loop, parse_bit_and,
  compare_with, compare_tail, parse_compare, and_loop, parse_and, or_loop, or_level, parse_or,
  evaluate_condition,
}

pub data Register : Type 0 where
  a x y sp pc fl : Register

-- a letter in either case
abbrev letter : ℕ → Bool → ℕ
letter upper small = if small then upper + 32 else upper

-- the name of a register, its first and its second letter small or not
unfoldable pub register_name : Register → Bool → Bool → Text
register_name a s t = letter b'A' s ∷ []
register_name x s t = letter b'X' s ∷ []
register_name y s t = letter b'Y' s ∷ []
register_name sp s t = letter b'S' s ∷ letter b'P' t ∷ []
register_name pc s t = letter b'P' s ∷ letter b'C' t ∷ []
register_name fl s t = letter b'F' s ∷ letter b'L' t ∷ []

unfoldable pub register_value : Register → Cpu → ℕ
register_value a s = s.a
register_value x s = s.x
register_value y s = s.y
register_value sp s = s.sp
register_value pc s = s.pc
register_value fl s = s.fl

pub data Comparison : Type 0 where
  equal unequal at_most at_least below above : Comparison

unfoldable pub symbol : Comparison → Text
symbol equal = codes "=="
symbol unequal = codes "!="
symbol at_most = codes "<="
symbol at_least = codes ">="
symbol below = codes "<"
symbol above = codes ">"

unfoldable pub holds : Comparison → ℕ → ℕ → Bool
holds equal l r = l == r
holds unequal l r = not (l == r)
holds at_most l r = leb l r
holds at_least l r = leb r l
holds below l r = ltb l r
holds above l r = ltb r l

is_end : Text → Bool
is_end [] = true
is_end (c ∷ t) = false

is_end_iff : (t : Text) → is_end t ≡ true → t ≡ []
unfolding is_end
is_end_iff [] h = refl
is_end_iff (c ∷ t) h = ground arith

read_back : ℕ → Bool
unfolding is_end
read_back v = (strtoul 16 (hex_byte v)).0 == v && is_end (strtoul 16 (hex_byte v)).1

all_read_back : all_below 256 read_back ≡ true
unfolding all_below read_back strtoul digits skip_space skip_prefix hex_byte
all_read_back = refl

strtoul-hex_byte :
    (v : ℕ) → v < 256 → ((strtoul 16 (hex_byte v)).0 ≡ v) × ((strtoul 16 (hex_byte v)).1 ≡ [])
unfolding read_back
strtoul-hex_byte v h =
    let found = all_below_sound 256 read_back v all_read_back h in
    (ground (arith, ==_iff (strtoul 16 (hex_byte v)).0 v), is_end_iff _ (ground arith))

module _ (cpu : Cpu) (inner : Text → ℕ × Text) where
  parse_primary-number :
      (v : ℕ) → v < 256 → parse_primary cpu inner (codes "$" ++ hex_byte v) ≡ (v, [])
  unfolding parse_primary parse_number skip_ws try_reg
  parse_primary-number v h =
      let (e, f) = strtoul-hex_byte v h in
      ap₂ (λ n t. (u32 n, t)) e f ∙ ap (λ n. (n, [])) (omega arith)

  parse_bit_and-number :
      (v : ℕ) → v < 256 → parse_bit_and cpu inner (codes "$" ++ hex_byte v) ≡ (v, [])
  unfolding parse_bit_and bit_and_loop
  parse_bit_and-number v h = rw (parse_primary-number v h) refl

  parse_bit_and-register :
      (r : Register) (small smaller : Bool) (o : Comparison) (t : Text)
      → parse_bit_and cpu inner (register_name r small smaller ++ (symbol o ++ t))
        ≡ (register_value r cpu, symbol o ++ t)
  unfolding parse_bit_and bit_and_loop parse_primary skip_ws try_reg is_word_char register_name
      symbol register_value
  parse_bit_and-register a true c equal t = refl
  parse_bit_and-register a false c equal t = refl
  parse_bit_and-register a _ _ _ t = refl
  parse_bit_and-register x true c equal t = refl
  parse_bit_and-register x false c equal t = refl
  parse_bit_and-register x _ _ _ t = refl
  parse_bit_and-register y true c equal t = refl
  parse_bit_and-register y false c equal t = refl
  parse_bit_and-register y _ _ _ t = refl
  parse_bit_and-register sp true true equal t = refl
  parse_bit_and-register sp true false equal t = refl
  parse_bit_and-register sp false true equal t = refl
  parse_bit_and-register sp false false equal t = refl
  parse_bit_and-register sp _ _ _ t = refl
  parse_bit_and-register pc true true equal t = refl
  parse_bit_and-register pc true false equal t = refl
  parse_bit_and-register pc false true equal t = refl
  parse_bit_and-register pc false false equal t = refl
  parse_bit_and-register pc _ _ _ t = refl
  parse_bit_and-register fl true true equal t = refl
  parse_bit_and-register fl true false equal t = refl
  parse_bit_and-register fl false true equal t = refl
  parse_bit_and-register fl false false equal t = refl
  parse_bit_and-register fl _ _ _ t = refl

  compare_tail-holds :
      (left : ℕ) (o : Comparison) (v : ℕ)
      → v < 256
      → compare_tail cpu inner (left, symbol o ++ (codes "$" ++ hex_byte v))
        ≡ (if holds o left v then 1 else 0, [])
  unfolding compare_tail compare_with skip_ws symbol holds
  compare_tail-holds left equal v h =
      ap (λ q. (if holds equal left q.0 then 1 else 0, q.1)) (parse_bit_and-number v h)
  compare_tail-holds left o v h =
      ap (λ q. (if holds o left q.0 then 1 else 0, q.1)) (parse_bit_and-number v h)

  parse_compare-holds :
      (r : Register) (small smaller : Bool) (o : Comparison) (v : ℕ)
      → v < 256
      → parse_compare cpu inner
          (register_name r small smaller ++ (symbol o ++ (codes "$" ++ hex_byte v)))
        ≡ (if holds o (register_value r cpu) v then 1 else 0, [])
  unfolding parse_compare
  parse_compare-holds r small smaller o v h =
      ap (compare_tail cpu inner)
        (parse_bit_and-register r small smaller o (codes "$" ++ hex_byte v))
      ∙ compare_tail-holds (register_value r cpu) o v h

  or_level-holds :
      (r : Register) (small smaller : Bool) (o : Comparison) (v : ℕ)
      → v < 256
      → or_level cpu inner
          (register_name r small smaller ++ (symbol o ++ (codes "$" ++ hex_byte v)))
        ≡ (if holds o (register_value r cpu) v then 1 else 0, [])
  unfolding or_level or_loop parse_and and_loop
  or_level-holds r small smaller o v h = rw (parse_compare-holds r small smaller o v h) refl

to_bool : (b : Bool) → not ((if b then 1 else 0) == 0) ≡ b
to_bool true = refl
to_bool false = refl

-- Let a condition compare one of the six registers, spelled in any mixture of cases, with a byte that
-- is printed in hexadecimal, with no spaces. It holds of a CPU exactly if the comparison of their
-- numbers does.
pub evaluate_condition-holds :
    (r : Register) (small smaller : Bool) (o : Comparison) (v : ℕ) (cpu : Cpu)
    → v < 256
    → evaluate_condition cpu
        (some (register_name r small smaller ++ (symbol o ++ (codes "$" ++ hex_byte v))))
      ≡ holds o (register_value r cpu) v
unfolding evaluate_condition parse_or register_name
evaluate_condition-holds a s t o v cpu h =
    ap (λ p. not (p.0 == 0)) (or_level-holds cpu _ a s t o v h) ∙ to_bool _
evaluate_condition-holds x s t o v cpu h =
    ap (λ p. not (p.0 == 0)) (or_level-holds cpu _ x s t o v h) ∙ to_bool _
evaluate_condition-holds y s t o v cpu h =
    ap (λ p. not (p.0 == 0)) (or_level-holds cpu _ y s t o v h) ∙ to_bool _
evaluate_condition-holds sp s t o v cpu h =
    ap (λ p. not (p.0 == 0)) (or_level-holds cpu _ sp s t o v h) ∙ to_bool _
evaluate_condition-holds pc s t o v cpu h =
    ap (λ p. not (p.0 == 0)) (or_level-holds cpu _ pc s t o v h) ∙ to_bool _
evaluate_condition-holds fl s t o v cpu h =
    ap (λ p. not (p.0 == 0)) (or_level-holds cpu _ fl s t o v h) ∙ to_bool _
