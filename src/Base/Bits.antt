-- ===== src/Base/Bits.antt =====
-- Masks and disjoint unions of binary digits, as arithmetic.
use Prim.Native.Nat.{
  ℕ, zero, suc, ◌+◌, ◌-◌, ◌*◌, ◌/◌, ◌%◌, ◌^◌, ◌≤◌, ◌<◌, min, max, digits, bitwise, bit_and, bit_or,
  bit_and-bitwise, bit_or-bitwise,
}
use mathlib.Core.Path.{◌≡◌, refl, sym, ap, ap₂, ◌∙◌}
use native.Mathlib.Omega.{arith}
use native.Mathlib.Nat.{pow-suc, mul_assoc}
use mini_gdbstub.Base.Lists.{pow_pos}

-- `h * 2 ^ k` in halves.
pub scale_suc : (h k : ℕ) → h * 2 ^ suc k ≡ h * 2 ^ k + h * 2 ^ k
scale_suc h k = rw pow-suc (omega (arith, mul_assoc h (2 ^ k) 2))

two_suc : (k : ℕ) → 2 ^ suc k ≡ 2 ^ k + 2 ^ k
two_suc k = rw pow-suc (omega arith)

module _ (z : ℕ → ℕ) (f : ℕ → ℕ → ℕ) (ends : (b : ℕ) → z b ≡ z (b / 2) * 2 + f 0 (b % 2)) where
  spare_fuel : (n m a b : ℕ) → a ≤ n → a ≤ m → digits z f n a b ≡ digits z f m a b
  spare_fuel zero zero a b p q = refl
  spare_fuel zero (suc m) zero b p q = refl
  spare_fuel zero (suc m) (suc a) b p q = absurd (omega arith)
  spare_fuel (suc n) zero zero b p q = refl
  spare_fuel (suc n) zero (suc a) b p q = absurd (omega arith)
  spare_fuel (suc n) (suc m) zero b p q = refl
  spare_fuel (suc n) (suc m) (suc a) b p q =
      ap (λ r. r * 2 + f (suc a % 2) (b % 2))
        (spare_fuel n m (suc a / 2) (b / 2) (omega arith) (omega arith))

  -- The last digit, and those before it.
  halves : (a b : ℕ) → bitwise z f a b ≡ bitwise z f (a / 2) (b / 2) * 2 + f (a % 2) (b % 2)
  halves zero b = ends b
  halves (suc a) b =
      ap (λ r. r * 2 + f (suc a % 2) (b % 2))
        (spare_fuel a (suc a / 2) (suc a / 2) (b / 2) (omega arith) (omega arith))

  -- Two numbers cut at the same digit are combined part by part.
  bits_split :
      (k h₁ h₂ l₁ l₂ : ℕ)
      → l₁ < 2 ^ k
      → l₂ < 2 ^ k
      → bitwise z f (h₁ * 2 ^ k + l₁) (h₂ * 2 ^ k + l₂)
        ≡ bitwise z f h₁ h₂ * 2 ^ k + bitwise z f l₁ l₂
  bits_split zero h₁ h₂ l₁ l₂ p q =
      let e₁ : h₁ * 1 + l₁ ≡ h₁ = omega arith in
      let e₂ : h₂ * 1 + l₂ ≡ h₂ = omega arith in
      let n₁ : l₁ ≡ 0 = omega arith in
      let n₂ : l₂ ≡ 0 = omega arith in rw (e₁, e₂, n₁, n₂) (omega (arith, ends 0))
  bits_split (suc k) h₁ h₂ l₁ l₂ p q =
      let a = h₁ * 2 ^ suc k + l₁ in
      let b = h₂ * 2 ^ suc k + l₂ in
      let half₁ : a / 2 ≡ h₁ * 2 ^ k + l₁ / 2 = omega (arith, scale_suc h₁ k) in
      let half₂ : b / 2 ≡ h₂ * 2 ^ k + l₂ / 2 = omega (arith, scale_suc h₂ k) in
      let last₁ : a % 2 ≡ l₁ % 2 = omega (arith, scale_suc h₁ k) in
      let last₂ : b % 2 ≡ l₂ % 2 = omega (arith, scale_suc h₂ k) in
      halves a b
      ∙ ap₂ (λ x y. bitwise z f x y * 2 + f (a % 2) (b % 2)) half₁ half₂
      ∙ ap₂ (λ x y. bitwise z f (h₁ * 2 ^ k + l₁ / 2) (h₂ * 2 ^ k + l₂ / 2) * 2 + f x y) last₁ last₂
      ∙ ap (λ r. r * 2 + f (l₁ % 2) (l₂ % 2))
          (bits_split k h₁ h₂ (l₁ / 2) (l₂ / 2) (omega (arith, two_suc k))
            (omega (arith, two_suc k)))
      ∙ omega (arith, halves l₁ l₂, scale_suc (bitwise z f h₁ h₂) k)

and_halves : (a b : ℕ) → bit_and a b ≡ bit_and (a / 2) (b / 2) * 2 + min (a % 2) (b % 2)
and_halves a b =
    bit_and-bitwise a b
    ∙ halves (λ b. 0) min (λ b. omega arith) a b
    ∙ ap (λ r. r * 2 + min (a % 2) (b % 2)) (sym (bit_and-bitwise (a / 2) (b / 2)))

and-zero : (a : ℕ) → bit_and a 0 ≡ 0
and-zero a = go a a (omega arith)
  where
    go : (n a : ℕ) → a ≤ n → bit_and a 0 ≡ 0
    go n zero h = bit_and-bitwise 0 0
    go zero (suc a) h = absurd (omega arith)
    go (suc n) (suc a) h = omega (arith, and_halves (suc a) 0, go n (suc a / 2) (omega arith))

pub and_split :
    (k h₁ h₂ l₁ l₂ : ℕ)
    → l₁ < 2 ^ k
    → l₂ < 2 ^ k
    → bit_and (h₁ * 2 ^ k + l₁) (h₂ * 2 ^ k + l₂) ≡ bit_and h₁ h₂ * 2 ^ k + bit_and l₁ l₂
and_split k h₁ h₂ l₁ l₂ p q =
    bit_and-bitwise _ _
    ∙ bits_split (λ b. 0) min (λ b. omega arith) k h₁ h₂ l₁ l₂ p q
    ∙ ap₂ (λ x y. x * 2 ^ k + y) (sym (bit_and-bitwise h₁ h₂)) (sym (bit_and-bitwise l₁ l₂))

pub or_split :
    (k h₁ h₂ l₁ l₂ : ℕ)
    → l₁ < 2 ^ k
    → l₂ < 2 ^ k
    → bit_or (h₁ * 2 ^ k + l₁) (h₂ * 2 ^ k + l₂) ≡ bit_or h₁ h₂ * 2 ^ k + bit_or l₁ l₂
or_split k h₁ h₂ l₁ l₂ p q =
    bit_or-bitwise _ _
    ∙ bits_split (λ b. b) max (λ b. omega arith) k h₁ h₂ l₁ l₂ p q
    ∙ ap₂ (λ x y. x * 2 ^ k + y) (sym (bit_or-bitwise h₁ h₂)) (sym (bit_or-bitwise l₁ l₂))

-- A mask of ones, and numbers that it covers.
pub and_ones : (k a : ℕ) → a < 2 ^ k → bit_and a (2 ^ k - 1) ≡ a
and_ones zero a h = let e : a ≡ 0 = omega arith in rw e refl
and_ones (suc k) a h =
    let mask = 2 ^ suc k - 1 in
    let half : mask / 2 ≡ 2 ^ k - 1 = omega (arith, two_suc k, pow_pos k) in
    let last : mask % 2 ≡ 1 = omega (arith, two_suc k, pow_pos k) in
    and_halves a mask
    ∙ ap₂ (λ x y. bit_and (a / 2) x * 2 + min (a % 2) y) half last
    ∙ omega (arith, and_ones k (a / 2) (omega (arith, two_suc k)))

-- A mask inside the last `k` digits, and one that leaves them out.
pub and_low : (k h l m : ℕ) → l < 2 ^ k → m < 2 ^ k → bit_and (h * 2 ^ k + l) m ≡ bit_and l m
and_low k h l m p q =
    let none_above : 0 * 2 ^ k + m ≡ m = omega arith in
    ap (bit_and (h * 2 ^ k + l)) (sym none_above)
    ∙ and_split k h 0 l m p q
    ∙ omega (arith, ap (λ x. x * 2 ^ k) {y = 0} (and-zero h))

pub and_high : (k h l m : ℕ) → l < 2 ^ k → bit_and (h * 2 ^ k + l) (m * 2 ^ k) ≡ bit_and h m * 2 ^ k
and_high k h l m p =
    let none_below : m * 2 ^ k + 0 ≡ m * 2 ^ k = omega arith in
    ap (bit_and (h * 2 ^ k + l)) (sym none_below)
    ∙ and_split k h m l 0 p (pow_pos k)
    ∙ omega (arith, and-zero l)

-- A mask bounds what it is applied to.
pub and_le : (a m : ℕ) → bit_and a m ≤ m
and_le a m = go a a m (omega arith)
  where
    go : (n a m : ℕ) → a ≤ n → bit_and a m ≤ m
    go n zero m p = omega (arith, bit_and-bitwise 0 m)
    go zero (suc a) m p = absurd (omega arith)
    go (suc n) (suc a) m p =
        omega (arith, and_halves (suc a) m, go n (suc a / 2) (m / 2) (omega arith))

zero-or : (b : ℕ) → bit_or 0 b ≡ b
zero-or b = bit_or-bitwise 0 b

or_halves : (a b : ℕ) → bit_or a b ≡ bit_or (a / 2) (b / 2) * 2 + max (a % 2) (b % 2)
or_halves a b =
    bit_or-bitwise a b
    ∙ halves (λ b. b) max (λ b. omega arith) a b
    ∙ ap (λ r. r * 2 + max (a % 2) (b % 2)) (sym (bit_or-bitwise (a / 2) (b / 2)))

or-zero : (a : ℕ) → bit_or a 0 ≡ a
or-zero a = go a a (omega arith)
  where
    go : (n a : ℕ) → a ≤ n → bit_or a 0 ≡ a
    go n zero h = bit_or-bitwise 0 0
    go zero (suc a) h = absurd (omega arith)
    go (suc n) (suc a) h = omega (arith, or_halves (suc a) 0, go n (suc a / 2) (omega arith))

-- Numbers that share no digit add up.
pub or_disjoint : (k h l : ℕ) → l < 2 ^ k → bit_or (h * 2 ^ k) l ≡ h * 2 ^ k + l
or_disjoint k h l p =
    let none_below : h * 2 ^ k + 0 ≡ h * 2 ^ k = omega arith in
    let none_above : 0 * 2 ^ k + l ≡ l = omega arith in
    ap₂ bit_or (sym none_below) (sym none_above)
    ∙ or_split k h 0 0 l (pow_pos k) p
    ∙ ap₂ (λ x y. x * 2 ^ k + y) (or-zero h) (zero-or l)

pub or_disjoint_low : (k l h : ℕ) → l < 2 ^ k → bit_or l (h * 2 ^ k) ≡ l + h * 2 ^ k
or_disjoint_low k l h p =
    let none_below : h * 2 ^ k + 0 ≡ h * 2 ^ k = omega arith in
    let none_above : 0 * 2 ^ k + l ≡ l = omega arith in
    ap₂ bit_or (sym none_above) (sym none_below)
    ∙ or_split k 0 h l 0 p (pow_pos k)
    ∙ ap₂ (λ x y. x * 2 ^ k + y) (zero-or h) (or-zero l)
    ∙ omega arith

pub or_bound : (k a b : ℕ) → a < 2 ^ k → b < 2 ^ k → bit_or a b < 2 ^ k
or_bound zero a b p q =
    let e₁ : a ≡ 0 = omega arith in
    let e₂ : b ≡ 0 = omega arith in rw (e₁, e₂) (omega (arith, or-zero 0))
or_bound (suc k) a b p q = omega (
  arith,
  two_suc k,
  or_halves a b,
  or_bound k (a / 2) (b / 2) (omega (arith, two_suc k)) (omega (arith, two_suc k)),
)
