-- ===== src/Base/Text.antt =====
-- Texts as lists of code points, and hexadecimal digits.
use Prim.Native.Nat.{ℕ, ◌+◌, ◌-◌, ◌/◌, ◌%◌}
use Prim.Native.Char.{code}
use Prim.Native.String.{String}
use mathlib.Core.List.{List, [], ◌∷◌}
use mathlib.Core.Bool.{Bool, true, false, ◌&&◌}
use mathlib.Core.Path.{◌≡◌, refl, ap₂}
use native.Mathlib.Omega.{arith}
use emfe_plugins.Base.Tests.{◌==◌, ltb, if◌then◌else◌}

abbrev pub codes : String → List ℕ
codes String.[] = []
codes (String.◌∷◌ c s) = code c ∷ codes s

-- one digit of `{:X}`
abbrev pub hex_digit : ℕ → ℕ
hex_digit d = if ltb d 10 then b'0' + d else b'A' + (d - 10)

-- `std::format("{:02X}", v)` and `{:04X}`
unfoldable pub hex_byte : ℕ → List ℕ
hex_byte v = hex_digit (v / 16) ∷ hex_digit (v % 16) ∷ []

unfoldable pub hex_word : ℕ → List ℕ
hex_word v =
    hex_digit (v / 4096)
    ∷ hex_digit (v / 256 % 16)
    ∷ hex_digit (v / 16 % 16)
    ∷ hex_digit (v % 16)
    ∷ []

-- `==` of two strings
abbrev pub same_text : List ℕ → List ℕ → Bool
same_text [] [] = true
same_text (a ∷ s) (b ∷ t) = a == b && same_text s t
same_text _ _ = false

pub same_text_sound : (s t : List ℕ) → same_text s t ≡ true → s ≡ t
same_text_sound [] [] h = refl
same_text_sound (a ∷ s) (b ∷ t) h =
    let parts : (a ≡ b) × (same_text s t ≡ true) = ground arith in
    ap₂ (λ c u. c ∷ u) parts.0 (same_text_sound s t parts.1)
same_text_sound [] (b ∷ t) h = cc
same_text_sound (a ∷ s) [] h = cc
