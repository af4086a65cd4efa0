-- ===== src/Translate/Escape.antt =====
-- The escapes of binary data: `unescape` undoes the protocol's escaping.
use Prim.Native.Nat.{bit_xor}
use mini_gdbstub.Base.{
  ℕ, ◌<◌, ◌≤◌, ◌≡◌, refl, inl, inr, Bool, true, false, ◌||◌, List, [], ◌∷◌, arith, length, IsBytes,
  ◌==◌, Bool-cases, if◌then◌else◌, passes_to, passes_to_lem, ==_iff,
}
use mini_gdbstub.Translate.{unescape}

-- The bytes that the protocol does not let stand for themselves in binary data.
abbrev pub needs_escape : ℕ → Bool
needs_escape c = c == b'}' || c == b'#' || c == b'$' || c == b'*'

-- What a client sends for the bytes of a binary packet.
unfoldable pub escape : List ℕ → List ℕ
escape [] = []
escape (c ∷ cs) = if needs_escape c then b'}' ∷ bit_xor c 0x20 ∷ escape cs else c ∷ escape cs

xor_table : passes_to (λ c. bit_xor (bit_xor c 0x20) 0x20 == c) 255 ≡ true
unfolding passes_to
xor_table = refl

xor_twice : (c : ℕ) → c < 256 → bit_xor (bit_xor c 0x20) 0x20 ≡ c
xor_twice c h = (==_iff _ c).0 (passes_to_lem _ 255 c xor_table (omega arith))

unescape-plain :
    (c : ℕ) (cs : List ℕ) (after : ℕ)
    → (c == b'}') ≡ false
    → unescape (c ∷ cs) after ≡ c ∷ unescape cs after
unfolding unescape
unescape-plain c [] after h = rw h
unescape-plain c (d ∷ cs) after h = rw (h, unescape)

unescape-escaped :
    (c : ℕ) (cs : List ℕ) (after : ℕ)
    → unescape (b'}' ∷ c ∷ cs) after ≡ bit_xor c 0x20 ∷ unescape cs after
unfolding unescape
unescape-escaped c cs after = refl

not_brace : (c : ℕ) → needs_escape c ≡ false → (c == b'}') ≡ false
not_brace c h = ground arith

-- `unescape` recovers the bytes that a client escaped, whatever byte stands behind them.
pub unescape-escape : (cs : List ℕ) (after : ℕ) → IsBytes cs → unescape (escape cs) after ≡ cs
unfolding escape
unescape-escape [] after h = unfold unescape in refl
unescape-escape (c ∷ cs) after h = elim (Bool-cases (needs_escape c)) [
  | inl special ↦ rw (special, unescape-escaped, unescape-escape cs after h.1, xor_twice c h.0)
  | inr plain ↦
      rw (
        plain,
        unescape-plain c (escape cs) after (not_brace c plain),
        unescape-escape cs after h.1,
      )
]

-- Each written byte comes from at least one byte read, so `w` never passes `r`.
pub length-unescape-le : (msg : List ℕ) (after : ℕ) → length (unescape msg after) ≤ length msg
unfolding unescape
length-unescape-le [] after = omega arith
length-unescape-le (c ∷ []) after = omega arith
length-unescape-le (c ∷ d ∷ msg) after =
    ground (arith, length-unescape-le msg after, length-unescape-le (d ∷ msg) after)
