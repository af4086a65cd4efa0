-- ===== src/Translate/Parse.antt =====
-- `str_to_hex` reads any text that is long enough.
use Prim.Native.Nat.{bit_or}
use mini_gdbstub.Base.Bits.{and_le, or_bound}
use mini_gdbstub.Base.{
  IsByte, IsBytes, Option, none, Option-cases, inl, inr, subst, ap, ◌<◌, ℕ, zero, suc, ◌*◌, ◌%◌,
  ◌≤◌, ◌≡◌, refl, some, List, [], ◌∷◌, arith, length,
}
use mini_gdbstub.Translate.{char_to_hex, str_to_hex}

pub str_to_hex-ok :
    (str : List ℕ) (bytes : ℕ)
    → bytes * 2 ≤ length str
    → (num : List ℕ) × (str_to_hex str bytes ≡ some num) × (length num ≡ bytes)
unfolding str_to_hex
str_to_hex-ok str zero h = ([], refl, refl)
str_to_hex-ok [] (suc bytes) h = absurd (omega arith)
str_to_hex-ok (a ∷ []) (suc bytes) h = absurd (omega arith)
str_to_hex-ok (a ∷ b ∷ str) (suc bytes) h =
    let (num, run, size) = str_to_hex-ok str bytes (omega arith) in
    (bit_or (char_to_hex a * 16 % 256) (char_to_hex b) ∷ num, rw run refl, omega (arith, size))

digit_bound : (ch : ℕ) → char_to_hex ch < 16
unfolding char_to_hex
digit_bound ch = omega (arith, and_le _ 0xf)

hex_pair-IsByte : (a b : ℕ) → IsByte (bit_or (char_to_hex a * 16 % 256) (char_to_hex b))
hex_pair-IsByte a b = or_bound 8 _ _ (omega arith) (omega (arith, digit_bound b))

-- What is read has the size asked for, and consists of bytes.
abbrev Read : ℕ → Option (List ℕ) → Type 0
Read bytes none = Unit {0}
Read bytes (some num) = (length num ≡ bytes) × IsBytes num

str_to_hex-Read : (str : List ℕ) (bytes : ℕ) → Read bytes (str_to_hex str bytes)
unfolding str_to_hex
str_to_hex-Read str zero = (refl, tt)
str_to_hex-Read [] (suc bytes) = tt
str_to_hex-Read (a ∷ []) (suc bytes) = tt
str_to_hex-Read (a ∷ b ∷ str) (suc bytes) = elim (Option-cases (str_to_hex str bytes)) [
  | inl missing ↦ rw missing tt
  | inr (num, run) ↦
      let (size, small) = subst (Read bytes) run (str_to_hex-Read str bytes) in
      rw run (ap suc size, (hex_pair-IsByte a b, small))
]

pub str_to_hex-some :
    (str : List ℕ) (bytes : ℕ) (num : List ℕ)
    → str_to_hex str bytes ≡ some num
    → (length num ≡ bytes) × IsBytes num
str_to_hex-some str bytes num h = subst (Read bytes) h (str_to_hex-Read str bytes)
