-- ===== src/Emu/Jumps.antt =====
-- The jumps of emu/src/emu.c.
use mini_gdbstub.Base.{
  ap₂, set, length-set, ==_refl, if◌then◌else◌, ℕ, ◌+◌, ◌-◌, ◌*◌, ◌/◌, ◌%◌, ◌^◌, ◌<◌, ◌≡◌, refl, ap,
  ◌∙◌, arith, true, ok,
}
use Prim.Native.Nat.{bit_and}
use mini_gdbstub.Emu.{Emu}
use mini_gdbstub.Emu.Exec.{reg, set_reg, Inst, opcode_67, opcode_6f, execute, emu_exec}
use mini_gdbstub.Emu.Fields.{imm_i_lem, sext, high_bits, imm_j_lem}
use mini_gdbstub.Emu.Isa.{type_i, Op, Fits, Jump, encode, step, type_u, jump_offset, write_rd}
use mini_gdbstub.Emu.Decode.{exec_i, exec_long}
use mini_gdbstub.Emu.View.{reg-view, get_or-set, view, advance, viewed, IsMachine}
use mini_gdbstub.Emu.Results.{e₀, Regular, Runs, result, kept}
use mini_gdbstub.Emu.Alu.{back}

even : (t : ℕ) → t < 2 ^ 64 → bit_and t (2 ^ 64 - 2) ≡ t - t % 2
even t h =
    let parts : t ≡ t / 2 * 2 ^ 1 + t % 2 = omega arith in
    ap (λ v. bit_and v (2 ^ 64 - 2)) parts
    ∙ high_bits 1 63 (t / 2) (t % 2) (omega arith) (omega arith)
    ∙ omega arith

module _ (e : Emu) (is : IsMachine e) where
  -- A jump by what register `rs1` holds once `rd` is written.
  pub jumps :
      (rd rs1 imm base : ℕ)
      → Fits (Op.jalr rd rs1 imm)
      → reg (set_reg (e₀ e) rd ((e.pc + 4) % 2 ^ 64)) rs1 ≡ base
      → viewed (emu_exec (advance e) (encode (Op.jalr rd rs1 imm))) ≡ (
          let target = (base + sext 12 imm) % 2 ^ 64 in
          ok (
            true,
            record (write_rd (view e) rd ((e.pc + 4) % 2 ^ 64)) { pc = target - target % 2 },
          ))
  unfolding execute opcode_67 Fits encode
  jumps rd rs1 imm base (p, q, r) held =
      let pc = (e.pc + 4) % 2 ^ 64 in
      let word = type_i 0x67 0 rd rs1 imm in
      let i : Inst = record {
        inst = word;
        rd = rd;
        rs1 = rs1;
        rs2 = imm % 32;
        funct3 = 0;
        funct7 = imm / 32;
      } in
      let low = rs1 * 2 ^ 15 + (0 * 2 ^ 12 + (rd * 2 ^ 7 + 0x67)) in
      ap viewed (exec_i (advance e) 0x67 0 rd rs1 imm (omega arith) (omega arith) p q r)
      ∙ result e is rd pc pc _ p refl
      ∙ ap (λ t. ok (true, record (write_rd (view e) rd pc) { pc = t }))
          (ap₂ (λ a b. bit_and ((a + b) % 2 ^ 64) (2 ^ 64 - 2)) held
              (imm_i_lem i imm low (omega arith) r refl)
            ∙ even ((base + sext 12 imm) % 2 ^ 64) (omega arith))

  pub exec-jalr :
      (rd rs1 imm : ℕ)
      → Fits (Op.jalr rd rs1 imm)
      → Regular (Op.jalr rd rs1 imm) (view e)
      → Runs e (Op.jalr rd rs1 imm)
  unfolding step Fits Regular
  exec-jalr rd rs1 imm (p, q, r) regular =
      jumps rd rs1 imm ((view e).regs rs1) (p, q, r)
        (kept e is rd rs1 ((e.pc + 4) % 2 ^ 64) p regular ∙ reg-view e is rs1)

  pub jalr-linked :
      (r imm : ℕ)
      → Fits (Op.jalr r r imm)
      → reg (set_reg (e₀ e) r ((e.pc + 4) % 2 ^ 64)) r ≡ (e.pc + 4) % 2 ^ 64
  unfolding Fits
  jalr-linked r imm (p, q, s) =
      let link = (e.pc + 4) % 2 ^ 64 in
      get_or-set (set e.x 0 0) r r link (omega (arith, is.registers, length-set e.x 0 0))
      ∙ ap (λ b. if b then link else reg (e₀ e) r) (==_refl r)

  pub exec-jal : (rd : ℕ) (j : Jump) → Fits (Op.jal rd j) → Runs e (Op.jal rd j)
  unfolding execute opcode_6f step Fits encode
  exec-jal rd j (p, q, r, s, t) =
      let pc = (e.pc + 4) % 2 ^ 64 in
      let imm = j.b20 * 2 ^ 19 + (j.b10_1 * 2 ^ 9 + (j.b11 * 2 ^ 8 + j.b19_12)) in
      ap viewed (
        ap (emu_exec (advance e)) {y = type_u 0x6f rd imm} (omega arith)
        ∙ exec_long (advance e) 0x6f rd imm (omega arith) p)
      ∙ result e is rd pc pc _ p refl
      ∙ ap (λ t. ok (true, record (write_rd (view e) rd pc) { pc = t }))
          (ap (λ v. (pc + v + 2 ^ 64 - 4) % 2 ^ 64)
              (imm_j_lem _ j.b20 j.b10_1 j.b11 j.b19_12 (rd * 2 ^ 7 + 0x6f) q r s t (omega arith)
                (omega arith))
            ∙ back e.pc (jump_offset j))
