-- ===== src/Base/Format.antt =====
-- The conversions of `sscanf` and `sprintf` that the stub uses.
use Prim.Native.Nat.{ℕ, zero, suc, ◌+◌, ◌-◌, ◌*◌, ◌/◌, ◌%◌, ◌^◌, min}
use mathlib.Core.Bool.{Bool, ◌&&◌, ◌||◌}
use mathlib.Core.List.{List, [], ◌∷◌, ◌++◌}
use mathlib.Core.Option.{Option, none, some}
use mini_gdbstub.Base.Tests.{◌==◌, leb, if◌then◌else◌}
use mini_gdbstub.Base.Lists.{length, replicate}
use mini_gdbstub.Base.Int.{ℤ, pos, negsuc}

-- `isspace`
unfoldable pub is_space : ℕ → Bool
is_space c = c == b' ' || leb 9 c && leb c 13

unfoldable pub skip_space : List ℕ → List ℕ
skip_space [] = []
skip_space (c ∷ s) = if is_space c then skip_space s else c ∷ s

-- The value of a digit in base 10 or 16.
unfoldable pub digit_value : (base : ℕ) → ℕ → Option ℕ
digit_value base c =
    if leb b'0' c && leb c b'9'
    then some (c - b'0')
    else if base == 16 && (leb b'a' c && leb c b'f')
    then some (c - 87)
    else if base == 16 && (leb b'A' c && leb c b'F')
    then some (c - 55)
    else none

-- The digits at the front, in a number that stops at `ULONG_MAX`.
unfoldable pub scan_digits : (base acc : ℕ) → List ℕ → ℕ × List ℕ
scan_digits base acc [] = (acc, [])
scan_digits base acc (c ∷ s) = elim (digit_value base c) [
  | none ↦ (acc, c ∷ s)
  | some d ↦ scan_digits base (min (acc * base + d) (2 ^ 64 - 1)) s
]

-- One digit at least.
unfoldable pub scan_number : (base : ℕ) → List ℕ → Option (ℕ × List ℕ)
unfolding digit_value scan_digits
scan_number base [] = none
scan_number base (c ∷ s) = elim (digit_value base c) [
  | none ↦ none
  | some d ↦ some (scan_digits base d s)
]

-- The prefix `0x` of a number in base 16.
unfoldable pub skip_prefix : List ℕ → List ℕ
skip_prefix (z ∷ x ∷ s) = if z == b'0' && (x == b'x' || x == b'X') then s else z ∷ x ∷ s
skip_prefix s = s

unfoldable pub negate : Option (ℕ × List ℕ) → Option (ℕ × List ℕ)
negate none = none
negate (some (n, s)) = some ((2 ^ 64 - n) % 2 ^ 64, s)

-- After the sign.
unfoldable pub scan_unsigned : (base : ℕ) → List ℕ → Option (ℕ × List ℕ)
unfolding scan_number skip_prefix
scan_unsigned base s = scan_number base (if base == 16 then skip_prefix s else s)

unfoldable pub scan_signed : (base : ℕ) → List ℕ → Option (ℕ × List ℕ)
unfolding scan_unsigned negate
scan_signed base [] = none
scan_signed base (c ∷ s) =
    if c == b'-'
    then negate (scan_unsigned base s)
    else if c == b'+'
    then scan_unsigned base s
    else scan_unsigned base (c ∷ s)

-- `%lx` and `%zx`: a `size_t` and the text behind it.
unfoldable pub scan_lx : List ℕ → Option (ℕ × List ℕ)
unfolding scan_signed skip_space is_space
scan_lx s = scan_signed 16 (skip_space s)

-- `%x` and `%d` into an `int`, kept as its 32-bit pattern.
unfoldable pub scan_x : List ℕ → Option (ℕ × List ℕ)
unfolding scan_lx
scan_x s = elim (scan_lx s) [ none ↦ none | some (n, r) ↦ some (n % 2 ^ 32, r) ]

unfoldable pub scan_d : List ℕ → Option (ℕ × List ℕ)
unfolding scan_signed skip_space is_space
scan_d s = elim (scan_signed 10 (skip_space s)) [ none ↦ none | some (n, r) ↦ some (n % 2 ^ 32, r) ]

-- A literal character of a format.
unfoldable pub scan_char : ℕ → List ℕ → Option (List ℕ)
scan_char c [] = none
scan_char c (x ∷ s) = if x == c then some s else none

-- Decimal digits; `%d` has ten at most.
unfoldable pub dec_digits : ℕ → ℕ → List ℕ → List ℕ
dec_digits zero n acc = acc
dec_digits (suc fuel) n acc =
    let more = dec_digits fuel (n / 10) ((b'0' + n % 10) ∷ acc) in
    if leb n 9 then (b'0' + n) ∷ acc else more

-- `%d`
unfoldable pub show_int : ℤ → List ℕ
unfolding dec_digits
show_int (pos n) = dec_digits 10 n []
show_int (negsuc n) = b'-' ∷ dec_digits 10 (suc n) []

-- `%04d`
unfoldable pub show_int4 : ℤ → List ℕ
unfolding dec_digits
show_int4 (pos n) = let d = dec_digits 10 n [] in replicate (4 - length d) b'0' ++ d
show_int4 (negsuc n) =
    let d = dec_digits 10 (suc n) [] in b'-' ∷ (replicate (3 - length d) b'0' ++ d)
