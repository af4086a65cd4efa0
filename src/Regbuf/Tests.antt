-- ===== src/Regbuf/Tests.antt =====
-- The register buffer with an allocator that never fails.
use mini_gdbstub.Base.{
  ℕ, ◌≡◌, refl, Option, some, List, arith, length, replicate, length-replicate, ◌∙◌, ap, sym,
}
use mathlib.Core.Option
use mini_gdbstub.Regbuf.{Regbuf, grow, regbuf_get}
use mini_gdbstub.Regbuf.Growth.{IsValid, Grown, regbuf_get_total}

abbrev zeros : ℕ → Option (List ℕ)
zeros n = some (replicate n 0)

zeros-size : (n : ℕ) (b : List ℕ) → zeros n ≡ some b → length b ≡ n
zeros-size n b h =
    ap (λ o. length (Option.get_or o (replicate n 0))) (sym h) ∙ length-replicate {A = ℕ} n 0

abbrev fresh : Regbuf
fresh = record { buf = zeros 8; sz = 8 }

fresh-IsValid : IsValid fresh
fresh-IsValid = record { min_size = omega arith; block = λ b h. zeros-size 8 b h }

-- A vector register of 24 bytes: two doublings.
grows : regbuf_get zeros fresh 24 ≡ some (record { buf = zeros 32; sz = 32 })
unfolding regbuf_get grow
grows = refl

regbuf_get_total_example :
    (r' : Regbuf) × (regbuf_get zeros fresh 24 ≡ some r') × IsValid r' × Grown 24 8 r'.sz
regbuf_get_total_example = regbuf_get_total zeros zeros-size fresh 24 fresh-IsValid (omega arith)
