-- ===== src/Csum/Laws.antt =====
-- The checksum is the sum of the bytes modulo 256.
use mini_gdbstub.Base.{ℕ, ◌+◌, ◌%◌, ◌<◌, ◌≡◌, List, [], ◌∷◌, ◌++◌, arith, take, length, take-append}
use mini_gdbstub.Csum.{csum_loop, compute_checksum}

-- The sum of the bytes, unbounded.
unfoldable pub total : List ℕ → ℕ
total [] = 0
total (x ∷ xs) = x + total xs

pub csum_loop-total : (c : ℕ) (xs : List ℕ) → csum_loop (c % 256) xs ≡ (c + total xs) % 256
unfolding csum_loop total
csum_loop-total c [] = omega arith
csum_loop-total c (x ∷ xs) =
    let step : (c % 256 + x) % 256 ≡ (c + x) % 256 = omega arith in
    simp step (omega (arith, csum_loop-total (c + x) xs))

-- `compute_checksum` is the sum of the first `len` bytes, modulo 256.
pub checksum-total : (xs : List ℕ) (len : ℕ) → compute_checksum xs len ≡ total (take len xs) % 256
unfolding compute_checksum
checksum-total xs len = omega (arith, csum_loop-total 0 (take len xs))

pub checksum-lt : (xs : List ℕ) (len : ℕ) → compute_checksum xs len < 256
checksum-lt xs len = omega (arith, checksum-total xs len)

-- What follows the checked bytes does not count.
pub checksum-append : (xs ys : List ℕ) → compute_checksum (xs ++ ys) (length xs) ≡ total xs % 256
checksum-append xs ys = rw (checksum-total (xs ++ ys) (length xs), take-append xs ys)
