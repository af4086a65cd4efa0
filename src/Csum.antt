-- ===== src/Csum.antt =====
-- src/utils/csum.c: the checksum of a packet, a `uint8_t` sum.
pub mod Laws
mod Tests
use mini_gdbstub.Base.{ℕ, ◌+◌, ◌%◌, List, [], ◌∷◌, take}

-- The loop, on the bytes that are left. (A signed `char` adds the same value modulo 256.)
unfoldable pub csum_loop : ℕ → List ℕ → ℕ
csum_loop csum [] = csum
csum_loop csum (x ∷ xs) = csum_loop ((csum + x) % 256) xs

unfoldable pub compute_checksum : List ℕ → ℕ → ℕ
unfolding csum_loop
compute_checksum buf len = csum_loop 0 (take len buf)
