-- ===== src/Translate/Tests.antt =====
-- Hexadecimal text and escapes on concrete bytes.
use mini_gdbstub.Base.{ℕ, ◌≡◌, refl, some, none, List, [], ◌∷◌, ◌++◌, arith, length, codes}
use mini_gdbstub.Translate.{hexchar, hex_to_str, str_to_hex, unescape}
use mini_gdbstub.Translate.HexRoundTrip.{str_to_hex-hex_to_str}
use mini_gdbstub.Translate.Escape.{escape, unescape-escape}

-- A byte, a `}` and a `#`.
abbrev sample : List ℕ
sample = 0xf0 ∷ 0x7d ∷ 0x23 ∷ []

printed : hex_to_str sample ≡ codes "f07d23" ++ 0 ∷ []
unfolding hex_to_str hexchar
printed = refl

escaped : escape sample ≡ 0xf0 ∷ 0x7d ∷ 0x5d ∷ 0x7d ∷ 0x03 ∷ []
unfolding escape
escaped = refl

-- Upper-case digits are read too, and a text that ends early is not.
upper_case : str_to_hex (codes "AbC") 1 ≡ some (0xab ∷ [])
unfolding str_to_hex
upper_case = refl

too_short : str_to_hex (codes "AbC") 2 ≡ none
unfolding str_to_hex
too_short = refl

str_to_hex-hex_to_str_example : str_to_hex (hex_to_str sample) (length sample) ≡ some sample
str_to_hex-hex_to_str_example =
    str_to_hex-hex_to_str sample (omega arith, (omega arith, (omega arith, tt)))

unescape-escape_example : unescape (escape sample) 0 ≡ sample
unescape-escape_example = unescape-escape sample 0 (omega arith, (omega arith, (omega arith, tt)))
