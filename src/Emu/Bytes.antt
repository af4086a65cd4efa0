-- ===== src/Emu/Bytes.antt =====
-- The byte loops of emu/src/emu.c are little-endian.
use Prim.Native.Nat.{bit_and, bit_or}
use native.Mathlib.Nat.{
  mul_assoc, mul_comm, mul-add, div-add-mod, pow-suc, div-div-eq-div-mul, mul-le-mul_right,
  pow-le-pow_right, mod-eq_of_lt,
}
use mini_gdbstub.Base.{
  ℕ, zero, suc, ◌+◌, ◌*◌, ◌/◌, ◌%◌, ◌^◌, ◌≤◌, ◌<◌, ◌≡◌, refl, sym, ap, ap₂, ◌∙◌, arith, List, [],
  ◌∷◌, length, IsBytes, pow_pos,
}
use mini_gdbstub.Base.Bits.{or_disjoint_low}
use mini_gdbstub.Emu.Word.{read_bytes, write_bytes, less_signed}
use mini_gdbstub.Emu.Fields.{low_bits}
use mini_gdbstub.Emu.Isa.{little_endian, bytes_of, below}

next_byte : (i : ℕ) → 2 ^ ((i + 1) * 8) ≡ 256 * 2 ^ (i * 8)
next_byte i =
    let e : (i + 1) * 8 ≡ suc (suc (suc (suc (suc (suc (suc (suc (i * 8)))))))) = omega arith in
    ap (λ k. 2 ^ k) e ∙ simp pow-suc (omega arith)

low_byte : (w : ℕ) → bit_and w 0xff ≡ w % 256
low_byte w =
    let parts : w ≡ w / 256 * 2 ^ 8 + w % 256 = omega arith in
    ap (λ v. bit_and v 0xff) parts ∙ low_bits 8 (w / 256) (w % 256) (omega arith)

pub write_bytes_lem : (n i v : ℕ) → write_bytes n i v ≡ bytes_of n (v / 2 ^ (i * 8))
unfolding write_bytes
write_bytes_lem zero i v = refl
write_bytes_lem (suc n) i v =
    let w = v / 2 ^ (i * 8) in
    ap₂ ◌∷◌ (low_byte w) (
      write_bytes_lem n (i + 1) v
      ∙ ap (bytes_of n) (
          ap (λ m. v / m) (next_byte i ∙ mul_comm 256 (2 ^ (i * 8)))
          ∙ sym (div-div-eq-div-mul v (2 ^ (i * 8)) 256)))

pub write_bytes-bytes_of : (n v : ℕ) → write_bytes n 0 v ≡ bytes_of n v
write_bytes-bytes_of n v =
    let e : v / 2 ^ (0 * 8) ≡ v = omega arith in write_bytes_lem n 0 v ∙ ap (bytes_of n) e

-- The accumulator holds the bytes before; the next one does not pass 64 bits.
pub read_bytes_lem :
    (i : ℕ) (bs : List ℕ) (value : ℕ)
    → IsBytes bs
    → i + length bs ≤ 8
    → value < 2 ^ (i * 8)
    → read_bytes i bs value ≡ value + 2 ^ (i * 8) * little_endian bs
unfolding read_bytes
read_bytes_lem i [] value small fits low = omega arith
read_bytes_lem i (b ∷ bs) value small fits low =
    let p = 2 ^ (i * 8) in
    let scaled : b * p ≤ 255 * p = mul-le-mul_right p (omega (arith, small.0)) in
    let bound : 2 ^ ((i + 1) * 8) ≤ 2 ^ 64 =
      pow-le-pow_right (omega arith) {j = 64} (omega arith) in
    let whole : b * p % 2 ^ 64 ≡ b * p =
      mod-eq_of_lt (omega (arith, scaled, bound, next_byte i, pow_pos (i * 8))) in
    let joined : bit_or value (b * p % 2 ^ 64) ≡ value + b * p =
      ap (bit_or value) whole ∙ or_disjoint_low (i * 8) value b low in
    ap (read_bytes (i + 1) bs) joined
    ∙ read_bytes_lem (i + 1) bs (value + b * p) small.1 (omega arith)
        (omega (arith, scaled, next_byte i))
    ∙ ap (λ q. value + b * p + q * little_endian bs) (next_byte i)
    ∙ omega (
      arith,
      mul-add p b (256 * little_endian bs),
      mul_comm b p,
      mul_assoc p 256 (little_endian bs),
      mul_comm 256 p,
    )

pub read_bytes-little_endian :
    (bs : List ℕ) → IsBytes bs → length bs ≤ 8 → read_bytes 0 bs 0 ≡ little_endian bs
read_bytes-little_endian bs small fits =
    read_bytes_lem 0 bs 0 small (omega (arith, fits)) (omega arith) ∙ omega arith

pub little_endian-bytes_of : (n v : ℕ) → little_endian (bytes_of n v) ≡ v % 2 ^ (n * 8)
little_endian-bytes_of zero v = omega arith
little_endian-bytes_of (suc n) v =
    let p = 2 ^ (n * 8) in
    let e : 2 ^ (suc n * 8) ≡ 256 * p =
      ap (λ k. 2 ^ k) {y = (n + 1) * 8} (omega arith) ∙ next_byte n in
    let q = v / 256 / p in
    ap (λ r. v % 256 + 256 * r) (little_endian-bytes_of n (v / 256))
    ∙ omega (
      arith,
      div-add-mod v (256 * p),
      div-add-mod (v / 256) p,
      div-div-eq-div-mul v 256 p,
      mul_assoc 256 p q,
      ap (λ d. 256 * p * d) (div-div-eq-div-mul v 256 p),
    )
    ∙ ap (λ m. v % m) (sym e)

pub little_endian-bound : (bs : List ℕ) → IsBytes bs → little_endian bs < 2 ^ (length bs * 8)
little_endian-bound [] small = omega arith
little_endian-bound (b ∷ bs) small =
    let e : 2 ^ (suc (length bs) * 8) ≡ 256 * 2 ^ (length bs * 8) =
      ap (λ k. 2 ^ k) {y = (length bs + 1) * 8} (omega arith) ∙ next_byte (length bs) in
    omega (arith, e, small.0, little_endian-bound bs small.1)

pub bytes_of-IsBytes : (n v : ℕ) → IsBytes (bytes_of n v)
bytes_of-IsBytes zero v = tt
bytes_of-IsBytes (suc n) v = (omega arith, bytes_of-IsBytes n (v / 256))

pub length-bytes_of : (n v : ℕ) → length (bytes_of n v) ≡ n
length-bytes_of zero v = refl
length-bytes_of (suc n) v = ap suc (length-bytes_of n (v / 256))

pub less_signed_lem : (a b : ℕ) → a < 2 ^ 64 → b < 2 ^ 64 → less_signed a b ≡ below a b
unfolding less_signed
less_signed_lem a b p q = ground arith

pub bytes_of-little_endian :
    (bs : List ℕ) → IsBytes bs → bytes_of (length bs) (little_endian bs) ≡ bs
bytes_of-little_endian [] small = refl
bytes_of-little_endian (b ∷ bs) small =
    let low : (b + 256 * little_endian bs) % 256 ≡ b = omega (arith, small.0) in
    let rest : (b + 256 * little_endian bs) / 256 ≡ little_endian bs = omega (arith, small.0) in
    ap₂ ◌∷◌ low (ap (bytes_of (length bs)) rest ∙ bytes_of-little_endian bs small.1)
