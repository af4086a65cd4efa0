-- ===== src/Translate.antt =====
-- src/utils/translate.c: bytes to hexadecimal text and back, and the escapes of binary packets.
-- A `char` is its byte; buffers are lists, read from the pointer that the code is given.
pub mod HexRoundTrip
pub mod Parse
pub mod Escape
mod Tests
use Prim.Native.Nat.{bit_and, bit_or, bit_xor}
use mini_gdbstub.Base.{
  ◌^◌, ltb, ℕ, zero, suc, ◌+◌, ◌*◌, ◌/◌, ◌%◌, List, [], ◌∷◌, ◌++◌, Bool, true, false, Option, none,
  some, codes, get_or, ◌==◌, if◌then◌else◌,
}

abbrev pub hexchars : List ℕ
hexchars = codes "0123456789abcdef"

-- `hexchars[n]`, for n < 16
unfoldable pub hexchar : ℕ → ℕ
hexchar n = get_or hexchars n 0

-- A `size_t` as the parameter `int bytes` of `hex_to_str` and `str_to_hex`; `none` if it is negative.
unfoldable pub int_count : ℕ → Option ℕ
int_count n = let bytes = n % 2 ^ 32 in if ltb bytes (2 ^ 31) then some bytes else none

-- The characters that the loop of `hex_to_str` stores for the bytes `num`.
unfoldable pub hex_digits : List ℕ → List ℕ
hex_digits [] = []
hex_digits (ch ∷ num) = hexchar (ch / 16) ∷ hexchar (bit_and ch 0xf) ∷ hex_digits num

-- All that `hex_to_str` stores for the `bytes` bytes `num`, its terminator included. With a negative
-- `bytes` the terminator would go in front of the text, which its callers rule out.
unfoldable pub hex_to_str : List ℕ → List ℕ
unfolding hex_digits
hex_to_str num = hex_digits num ++ 0 ∷ []

-- A `uint8_t` from a `char`: the letters have bit 6 set.
unfoldable pub char_to_hex : ℕ → ℕ
char_to_hex ch =
    let letter = bit_and ch 0x40 in
    let offset = bit_or (letter / 8) (letter / 64) in bit_and ((ch + offset) % 256) 0xf

-- The `bytes` values that `str_to_hex` stores, none of them for a negative `bytes`, which a caller
-- takes as 0; `none` if it would read past the text given.
unfoldable pub str_to_hex : List ℕ → ℕ → Option (List ℕ)
unfolding char_to_hex
str_to_hex str zero = some []
str_to_hex [] (suc bytes) = none
str_to_hex (h ∷ []) (suc bytes) = none
str_to_hex (h ∷ l ∷ str) (suc bytes) = elim (str_to_hex str bytes) [
  | none ↦ none
  | some num ↦ some (bit_or (char_to_hex h * 16 % 256) (char_to_hex l) ∷ num)
]

-- `unescape(msg, end)`: what it leaves at `msg`, where `msg` holds the text up to `end`, and `after`
-- is the byte at `end`, which a last `}` reads.
unfoldable pub unescape : List ℕ → ℕ → List ℕ
unescape [] after = []
unescape (c ∷ []) after = (if c == b'}' then bit_xor after 0x20 else c) ∷ []
unescape (c ∷ d ∷ msg) after = elim (c == b'}') [
  | true ↦ bit_xor d 0x20 ∷ unescape msg after
  | false ↦ c ∷ unescape (d ∷ msg) after
]
