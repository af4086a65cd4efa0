-- ===== src/Emu/Results.antt =====
-- What an instruction of emu/src/emu.c leaves, and where it keeps to the manual.
use mini_gdbstub.Base.{
  ℕ, ◌+◌, ◌*◌, ◌^◌, ◌<◌, ◌≡◌, ◌≢◌, sym, ap, ap₂, ◌∙◌, arith, true, if◌then◌else◌, ne→==, Result, ok,
  abort, fault, set, length-set,
}
use mini_gdbstub.Emu.{Emu}
use mini_gdbstub.Emu.Exec.{Inst, reg, set_reg, done, imm_i, emu_exec}
use mini_gdbstub.Emu.Fields.{sext, imm_i_lem}
use mini_gdbstub.Emu.Isa.{Op, encode, step, Machine, load, write_rd}
use mini_gdbstub.Emu.View.{
  view, advance, viewed, succeeds, IsMachine, reg-view, view-set_reg, get_or-set,
}

-- A loaded word whose sign bit is clear.
unfoldable pub Unsigned : Result ℕ → Type 0
Unsigned (ok v) = v < 2 ^ 31
Unsigned abort = Unit
Unsigned fault = Unit

-- Where the emulator keeps to the manual: `lw` loads a word that is not negative, and `jalr` does not
-- link in the register that it jumps by.
unfoldable pub Regular : Op → Machine → Type 0
Regular (Op.lw rd rs1 imm) m = Unsigned (load m 4 (m.regs rs1) (sext 12 imm))
Regular (Op.jalr rd rs1 imm) m = rd ≢ rs1
Regular _ m = Unit

module _ (e : Emu) where
  abbrev pub e₀ : Emu
  e₀ = set_reg (advance e) 0 0

  abbrev pub Runs : Op → Type 0
  Runs op = viewed (emu_exec (advance e) (encode op)) ≡ succeeds (step op (view e))

module _ (e : Emu) (is : IsMachine e) where
  -- A result in `rd`, computed as the manual computes it.
  pub result :
      (rd v v' pc : ℕ)
      → rd < 32
      → v ≡ v'
      → viewed (done (record (set_reg (e₀ e) rd v) { pc = pc }))
        ≡ ok (true, record (write_rd (view e) rd v') { pc = pc })
  result rd v v' pc p same =
      ap (λ m. ok (true, m))
        (view-set_reg e is rd v pc p ∙ ap (λ v. record (write_rd (view e) rd v) { pc = pc }) same)

  -- The link does not change the register jumped by.
  pub kept : (rd rs1 v : ℕ) → rd < 32 → rd ≢ rs1 → reg (set_reg (e₀ e) rd v) rs1 ≡ reg (e₀ e) rs1
  kept rd rs1 v p differ =
      get_or-set (set e.x 0 0) rd rs1 v (omega (arith, is.registers, length-set e.x 0 0))
      ∙ ap (λ b. if b then v else reg (e₀ e) rs1) (ne→== rs1 rd (λ same. differ (sym same)))

  -- The operands of an instruction with an immediate.
  pub operands :
      {A : Type 0} (f : ℕ → ℕ → A) (i : Inst) (imm low : ℕ)
      → low < 2 ^ 20
      → imm < 2 ^ 12
      → i.inst ≡ imm * 2 ^ 20 + low
      → f (reg (e₀ e) i.rs1) (imm_i i) ≡ f ((view e).regs i.rs1) (sext 12 imm)
  operands f i imm low p q same = ap₂ f (reg-view e is i.rs1) (imm_i_lem i imm low p q same)
