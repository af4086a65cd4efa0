-- ===== src/Regbuf.antt =====
-- src/regbuf.c: the scratch buffer that holds one register value.
-- `malloc n` is the block that the allocator returns for `n` bytes, `none` for NULL.
pub mod Growth
mod Tests
use mini_gdbstub.Base.{
  ℕ, zero, suc, ◌*◌, ◌%◌, ◌^◌, Bool, true, false, Option, none, some, List, leb, ltb, if◌then◌else◌,
}
use mathlib.Core.Option

-- `regbuf_t`: the block (`none` is NULL) and its size.
pub record Regbuf : Type 0 where
  pub buf : Option (List ℕ)
  pub sz : ℕ

-- `while (reg_sz > reg->sz) reg->sz <<= 1` on a `size_t`; `none` when the fuel runs out.
unfoldable pub grow : ℕ → ℕ → ℕ → Option ℕ
grow zero reg_sz sz = none
grow (suc fuel) reg_sz sz =
    let rest = grow fuel reg_sz (sz * 2 % 2 ^ 64) in if ltb sz reg_sz then rest else some sz

-- 64 doublings pass every `size_t`.
abbrev pub grow_fuel : ℕ
grow_fuel = 64

module _ (malloc : ℕ → Option (List ℕ)) where
  unfoldable pub regbuf_init : Bool × Regbuf
  regbuf_init = elim (malloc 8) [
    | none ↦ (false, record { buf = none; sz = 8 })
    | some b ↦ (true, record { buf = some b; sz = 8 })
  ]

  -- The returned pointer is the new `buf`. `none`: the loop does not end.
  unfoldable pub regbuf_get : Regbuf → ℕ → Option Regbuf
  regbuf_get r reg_sz =
      if leb reg_sz r.sz
      then some r
      else Option.map (λ s. record { buf = malloc s; sz = s }) (grow grow_fuel reg_sz r.sz)
