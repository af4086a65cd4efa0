-- ===== src/Regbuf/Growth.antt =====
-- The register buffer is always large enough, and its growth loop ends.
use native.Mathlib.Nat.{pow-suc, mul_comm, mul_assoc}
use mini_gdbstub.Base.{
  ℕ, zero, suc, ◌*◌, ◌%◌, ◌^◌, ◌≤◌, ◌<◌, ◌≡◌, refl, ◌⊎◌, ◌↔◌, inl, inr, true, Option, some, List,
  arith, length, leb, ltb, Bool-cases, Option-cases, ltb→lt, lt→ltb,
}
use mini_gdbstub.Regbuf.{Regbuf, grow, regbuf_init, regbuf_get}

double : (n sz f : ℕ) → n ≤ sz * 2 ^ suc f → n ≤ sz * 2 * 2 ^ f
double n sz f h = rw (mul_assoc sz 2 (2 ^ f), mul_comm 2 (2 ^ f)) (rw pow-suc at h)

-- What a run of the growth loop returns: the first doubling that fits.
pub record Grown (reg_sz sz s : ℕ) : Type 0 where
  pub fits : reg_sz ≤ s
  pub grows : sz ≤ s
  pub tight : (s ≡ sz) ⊎ (s < 2 * reg_sz)

-- The loop ends, with such a size.
abbrev pub Ends : ℕ → ℕ → ℕ → Type 0
Ends fuel reg_sz sz = (s : ℕ) × (grow fuel reg_sz sz ≡ some s) × Grown reg_sz sz s

grow-step :
    (f n sz s : ℕ)
    → sz < n
    → n ≤ 2 ^ 63
    → grow f n (sz * 2) ≡ some s
    → Grown n (sz * 2) s
    → Ends (suc f) n sz
unfolding grow
grow-step f n sz s lt b run g =
    let wrap : sz * 2 % 2 ^ 64 ≡ sz * 2 = omega arith in
    (
      s,
      rw (lt→ltb sz n lt, wrap) run,
      record { fits = g.fits; grows = ground arith; tight = ground arith },
    )

-- With fuel for the doublings that are left, the loop ends at the first size that fits.
pub grow_total :
    (fuel reg_sz sz : ℕ)
    → 0 < sz
    → reg_sz ≤ 2 ^ 63
    → reg_sz ≤ sz * 2 ^ fuel
    → Ends (suc fuel) reg_sz sz
unfolding grow
grow_total zero n sz h b e = (sz, ground arith, ground arith)
grow_total (suc f) n sz h b e = elim (Bool-cases (ltb sz n)) [
  | inr fits ↦ (sz, rw fits refl, ground arith)
  | inl small ↦
      let lt : sz < n = ltb→lt sz n small in
      let (s, run, g) = grow_total f n (sz * 2) (omega arith) b (double n sz f e) in
      grow-step (suc f) n sz s lt b run g
]

-- A buffer that the stub may use: a block of exactly `sz` bytes, or NULL after a failed `malloc`.
pub record IsValid (r : Regbuf) : Type 0 where
  pub min_size : 8 ≤ r.sz
  pub block : (b : List ℕ) → r.buf ≡ some b → length b ≡ r.sz

module _ (malloc : ℕ → Option (List ℕ))
    (malloc_size : (n : ℕ) (b : List ℕ) → malloc n ≡ some b → length b ≡ n) where
  -- `regbuf_init` reports success exactly when it has the block, and leaves a valid buffer.
  pub regbuf_init-IsValid :
      IsValid (regbuf_init malloc).1
      × (((regbuf_init malloc).0 ≡ true) ↔ ((b : List ℕ) × ((regbuf_init malloc).1.buf ≡ some b)))
  unfolding regbuf_init
  regbuf_init-IsValid = elim (Option-cases (malloc 8)) [
    | inl e ↦
        rw (e, regbuf_init)
          (record { min_size = omega arith; block = λ b p. cc }, ((λ p. cc), λ (b, p). cc))
    | inr (c, e) ↦
        rw (e, regbuf_init)
          (
            record { min_size = omega arith; block = λ b p. malloc_size 8 b (ground arith) },
            ((λ p. (c, refl)), λ p. refl),
          )
  ]

  -- With a `malloc` that returns blocks of the size asked for, or NULL, `regbuf_get` on a valid
  -- buffer ends for every size up to 2^63, and leaves a valid buffer of at least that size, and of
  -- less than twice that size if it grew.
  pub regbuf_get_total :
      (r : Regbuf) (reg_sz : ℕ)
      → IsValid r
      → reg_sz ≤ 2 ^ 63
      → (r' : Regbuf) × (regbuf_get malloc r reg_sz ≡ some r')
        × IsValid r'
        × Grown reg_sz r.sz r'.sz
  unfolding regbuf_get
  regbuf_get_total r n v b = elim (Bool-cases (leb n r.sz)) [
    | inl fits ↦ (r, rw fits refl, v, ground arith)
    | inr small ↦
        let (s, run, g) = grow_total 63 n r.sz (omega (arith, v.min_size)) b (omega arith) in
        (
          record { buf = malloc s; sz = s },
          rw (small, run) refl,
          record { min_size = omega (arith, v.min_size, g.grows); block = malloc_size s },
          g,
        )
  ]
