-- ===== src/Translate/HexRoundTrip.antt =====
-- Hexadecimal text: `str_to_hex` reads back what `hex_to_str` wrote, and the reverse.
use Prim.Native.Nat.{bit_and, bit_or}
use mini_gdbstub.Base.{
  ℕ, ◌*◌, ◌/◌, ◌%◌, ◌<◌, ◌≡◌, refl, true, not, ◌≢◌, Lacks, ◌&&◌, some, List, [], ◌∷◌, ◌++◌, arith,
  length, IsBytes, ◌==◌, passes_to, passes_to_lem, ==_iff,
}
use mini_gdbstub.Translate.{hexchar, hex_digits, hex_to_str, char_to_hex, str_to_hex}

byte_back_table :
    passes_to
      (λ b.
        bit_or (char_to_hex (hexchar (b / 16)) * 16 % 256) (char_to_hex (hexchar (bit_and b 0xf)))
        == b)
      255
    ≡ true
unfolding passes_to hexchar char_to_hex
byte_back_table = refl

byte_back :
    (b : ℕ)
    → b < 256
    → bit_or (char_to_hex (hexchar (b / 16)) * 16 % 256) (char_to_hex (hexchar (bit_and b 0xf))) ≡ b
byte_back b h = (==_iff _ b).0 (passes_to_lem _ 255 b byte_back_table (omega arith))

-- Reading `bytes` values from the text that `hex_to_str` wrote for them gives them back, whatever
-- text follows.
pub str_to_hex-hex_digits :
    (num rest : List ℕ) → IsBytes num → str_to_hex (hex_digits num ++ rest) (length num) ≡ some num
unfolding str_to_hex hex_digits
str_to_hex-hex_digits [] rest h = refl
str_to_hex-hex_digits (b ∷ num) rest h = rw (str_to_hex-hex_digits num rest h.1, byte_back b h.0)

-- `str_to_hex` recovers every byte that `hex_to_str` printed.
pub str_to_hex-hex_to_str :
    (num : List ℕ) → IsBytes num → str_to_hex (hex_to_str num) (length num) ≡ some num
unfolding hex_to_str
str_to_hex-hex_to_str num h = str_to_hex-hex_digits num (0 ∷ []) h

digit_table :
    passes_to (λ b. not (hexchar (b / 16) == 0) && not (hexchar (bit_and b 0xf) == 0)) 255 ≡ true
unfolding passes_to hexchar
digit_table = refl

digits_there : (b : ℕ) → b < 256 → (hexchar (b / 16) ≢ 0) × (hexchar (bit_and b 0xf) ≢ 0)
digits_there b h =
    let t =
      passes_to_lem (λ b. not (hexchar (b / 16) == 0) && not (hexchar (bit_and b 0xf) == 0)) 255 b
        digit_table (omega arith) in
    ground (arith, t)

-- No digit is a NUL.
pub hex_digits-Lacks : (num : List ℕ) → IsBytes num → Lacks 0 (hex_digits num)
unfolding hex_digits
hex_digits-Lacks [] h = tt
hex_digits-Lacks (b ∷ num) h = let d = digits_there b h.0 in (d.0, (d.1, hex_digits-Lacks num h.1))

pub length-hex_digits : (num : List ℕ) → length (hex_digits num) ≡ 2 * length num
unfolding hex_digits
length-hex_digits [] = omega arith
length-hex_digits (b ∷ num) = omega (arith, length-hex_digits num)
