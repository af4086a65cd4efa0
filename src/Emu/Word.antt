-- ===== src/Emu/Word.antt =====
-- The casts, shifts and byte loops of emu/src/emu.c.
use Prim.Native.Nat.{bit_and, bit_or}
use mini_gdbstub.Base.{
  ℕ, zero, suc, ◌+◌, ◌-◌, ◌*◌, ◌/◌, ◌%◌, ◌^◌, Bool, true, false, List, [], ◌∷◌, ltb, if◌then◌else◌,
}

-- `(int32_t) p`, converted to `uint64_t`.
unfoldable pub from_int32 : ℕ → ℕ
from_int32 p = let low = p % 2 ^ 32 in if ltb low (2 ^ 31) then low else low + (2 ^ 64 - 2 ^ 32)

-- `>> k` of a signed value, on its 64-bit pattern.
unfoldable pub shift_right : ℕ → ℕ → ℕ
shift_right v k = if ltb v (2 ^ 63) then v / 2 ^ k else v / 2 ^ k + (2 ^ 64 - 2 ^ (64 - k))

-- `(int64_t) a < (int64_t) b`
unfoldable pub less_signed : ℕ → ℕ → Bool
less_signed a b =
    if ltb a (2 ^ 63)
    then (if ltb b (2 ^ 63) then ltb a b else false)
    else (if ltb b (2 ^ 63) then true else ltb a b)

-- The loop of `read_len`, on the bytes at the pointer.
unfoldable pub read_bytes : (i : ℕ) → List ℕ → (value : ℕ) → ℕ
read_bytes i [] value = value
read_bytes i (b ∷ bs) value = read_bytes (i + 1) bs (bit_or value (b * 2 ^ (i * 8) % 2 ^ 64))

-- The bytes that the loop of `write_len` stores.
unfoldable pub write_bytes : (left i : ℕ) → (value : ℕ) → List ℕ
write_bytes zero i value = []
write_bytes (suc left) i value = bit_and (value / 2 ^ (i * 8)) 0xff ∷ write_bytes left (i + 1) value
