-- ===== src/Emu/Access.antt =====
-- The loads and stores of emu/src/emu.c.
use mini_gdbstub.Base.{
  ℕ, ◌+◌, ◌*◌, ◌%◌, ◌^◌, ◌≤◌, ◌<◌, ◌≡◌, refl, ap, ap₂, ◌∙◌, arith, true, Result, ok, abort, fault,
  ◌>>=◌,
}
use mini_gdbstub.Emu.{Emu}
use mini_gdbstub.Emu.Exec.{
  emu_exec, Inst, reg, set_reg, done, read_len, address, write_len, imm_s, opcode_3, opcode_23,
  execute,
}
use mini_gdbstub.Emu.Fields.{sext, imm_s_lem}
use mini_gdbstub.Emu.Isa.{Op, Fits, encode, step, load, load_at, store_at, type_s, write_rd, next}
use mini_gdbstub.Emu.Decode.{exec_i, exec_s}
use mini_gdbstub.Emu.View.{
  view, advance, viewed, succeeds, IsMachine, reg-view, read_len-load, write_len-store,
}
use mini_gdbstub.Emu.Results.{Unsigned, Regular, e₀, Runs, result, operands}

unsigned : (v : ℕ) → v < 2 ^ 31 → v ≡ sext 32 v
unfolding sext
unsigned v h = ground arith

module _ (e : Emu) (is : IsMachine e) where
  -- A load in both machines.
  loaded :
      (rd n addr addr' : ℕ)
      → rd < 32
      → n ≤ 8
      → addr ≡ addr'
      → viewed (do value ← read_len (e₀ e) n addr; done (set_reg (e₀ e) rd value))
        ≡ succeeds (do v ← load_at (view e) n addr'; ok (next (write_rd (view e) rd v)))
  loaded rd n addr addr' p small at =
      ap (λ r. viewed (do value ← r; done (set_reg (e₀ e) rd value)))
        (ap (read_len (e₀ e) n) at ∙ read_len-load e is n addr' small)
      ∙ each (load_at (view e) n addr')
    where
      each :
          (r : Result ℕ)
          → viewed (do value ← r; done (set_reg (e₀ e) rd value))
            ≡ succeeds (do v ← r; ok (next (write_rd (view e) rd v)))
      each (ok v) = result e is rd v v ((e.pc + 4) % 2 ^ 64) p refl
      each abort = refl
      each fault = refl

  pub exec-ld : (rd rs1 imm : ℕ) → Fits (Op.ld rd rs1 imm) → Runs e (Op.ld rd rs1 imm)
  unfolding execute opcode_3 step Fits encode
  exec-ld rd rs1 imm (p, q, r) =
      ap viewed (exec_i (advance e) 0x03 3 rd rs1 imm (omega arith) (omega arith) p q r)
      ∙ loaded rd 8 _ _ p (omega arith)
          (operands e is (λ a b. (a + b) % 2 ^ 64) _ imm _ (omega arith) r refl)

  -- `lw` extends the word with zeros.
  pub lw_zero_extends :
      (rd rs1 imm : ℕ)
      → Fits (Op.lw rd rs1 imm)
      → viewed (emu_exec (advance e) (encode (Op.lw rd rs1 imm)))
        ≡ succeeds (do
          v ← load (view e) 4 ((view e).regs rs1) (sext 12 imm)
          ok (next (write_rd (view e) rd v)))
  unfolding execute opcode_3 Fits encode
  lw_zero_extends rd rs1 imm (p, q, r) =
      ap viewed (exec_i (advance e) 0x03 2 rd rs1 imm (omega arith) (omega arith) p q r)
      ∙ loaded rd 4 _ _ p (omega arith)
          (operands e is (λ a b. (a + b) % 2 ^ 64) _ imm _ (omega arith) r refl)

  pub exec-lw :
      (rd rs1 imm : ℕ)
      → Fits (Op.lw rd rs1 imm)
      → Regular (Op.lw rd rs1 imm) (view e)
      → Runs e (Op.lw rd rs1 imm)
  unfolding step Regular Unsigned
  exec-lw rd rs1 imm fits regular =
      lw_zero_extends rd rs1 imm fits
      ∙ each (load (view e) 4 ((view e).regs rs1) (sext 12 imm)) regular
    where
      each :
          (r : Result ℕ)
          → Unsigned r
          → succeeds (do v ← r; ok (next (write_rd (view e) rd v)))
            ≡ succeeds (do v ← r; ok (next (write_rd (view e) rd (sext 32 v))))
      each (ok v) h = ap (λ v. ok (true, next (write_rd (view e) rd v))) (unsigned v h)
      each abort h = refl
      each fault h = refl

  -- A store in both machines.
  stored :
      (f n : ℕ) (rs2 rs1 up low : ℕ)
      → f < 8
      → rs2 < 32
      → rs1 < 32
      → up < 2 ^ 7
      → low < 2 ^ 5
      → (i : Inst) → i.inst ≡ type_s 0x23 f rs2 rs1 up low
      → i.rs1 ≡ rs1
      → i.rs2 ≡ rs2
      → viewed (write_len (e₀ e) n (address (e₀ e) i (imm_s i)) (reg (e₀ e) i.rs2))
        ≡ succeeds (
            store_at
              (view e)
              n
              (((view e).regs rs1 + sext 12 (up * 2 ^ 5 + low)) % 2 ^ 64)
              ((view e).regs rs2))
  stored f n rs2 rs1 up low h p q r s i word base source =
      let imm : imm_s i ≡ sext 12 (up * 2 ^ 5 + low) =
        imm_s_lem i up (rs2 * 2 ^ 8 + (rs1 * 2 ^ 3 + f)) low 0x23 r (omega arith) s (omega arith)
          (omega (arith, word)) in
      ap₂ (λ a v. viewed (write_len (e₀ e) n a v))
        (ap₂ (λ a b. (a + b) % 2 ^ 64) (reg-view e is i.rs1 ∙ ap (view e).regs base) imm)
        (reg-view e is i.rs2 ∙ ap (view e).regs source)
      ∙ write_len-store e is n _ _

  pub exec-sb : (rs2 rs1 up low : ℕ) → Fits (Op.sb rs2 rs1 up low) → Runs e (Op.sb rs2 rs1 up low)
  unfolding execute opcode_23 step Fits encode
  exec-sb rs2 rs1 up low (p, q, r, s) =
      ap viewed (exec_s (advance e) 0 rs2 rs1 up low (omega arith) p q r s)
      ∙ stored 0 1 rs2 rs1 up low (omega arith) p q r s _ refl refl refl

  pub exec-sw : (rs2 rs1 up low : ℕ) → Fits (Op.sw rs2 rs1 up low) → Runs e (Op.sw rs2 rs1 up low)
  unfolding execute opcode_23 step Fits encode
  exec-sw rs2 rs1 up low (p, q, r, s) =
      ap viewed (exec_s (advance e) 2 rs2 rs1 up low (omega arith) p q r s)
      ∙ stored 2 4 rs2 rs1 up low (omega arith) p q r s _ refl refl refl

  pub exec-sd : (rs2 rs1 up low : ℕ) → Fits (Op.sd rs2 rs1 up low) → Runs e (Op.sd rs2 rs1 up low)
  unfolding execute opcode_23 step Fits encode
  exec-sd rs2 rs1 up low (p, q, r, s) =
      ap viewed (exec_s (advance e) 3 rs2 rs1 up low (omega arith) p q r s)
      ∙ stored 3 8 rs2 rs1 up low (omega arith) p q r s _ refl refl refl
