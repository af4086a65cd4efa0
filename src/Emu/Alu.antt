-- ===== src/Emu/Alu.antt =====
-- The instructions of emu/src/emu.c that compute a register.
use mini_gdbstub.Base.{
  ℕ, ◌+◌, ◌-◌, ◌*◌, ◌%◌, ◌^◌, ◌<◌, ◌≡◌, refl, ap, ap₂, ◌∙◌, arith, if◌then◌else◌,
}
use mini_gdbstub.Emu.{Emu}
use mini_gdbstub.Emu.Word.{from_int32, less_signed}
use mini_gdbstub.Emu.Exec.{
  opcode_13, opcode_1b, opcode_17, opcode_33, opcode_37, opcode_3b, execute,
}
use mini_gdbstub.Emu.Fields.{sext, imm_u_lem}
use mini_gdbstub.Emu.Isa.{Op, Fits, encode, step}
use mini_gdbstub.Emu.Bytes.{less_signed_lem}
use mini_gdbstub.Emu.Decode.{exec_i, exec_r, exec_long}
use mini_gdbstub.Emu.View.{view, advance, viewed, IsMachine, reg-view, view-bound}
use mini_gdbstub.Emu.Results.{Runs, result, operands}

sext-bound : (imm : ℕ) → imm < 2 ^ 12 → sext 12 imm < 2 ^ 64
unfolding sext
sext-bound imm h = ground arith

from_int32-sext : (v : ℕ) → from_int32 v ≡ sext 32 (v % 2 ^ 32)
unfolding from_int32 sext
from_int32-sext v = refl

word_sum : (a b : ℕ) → from_int32 ((a % 2 ^ 32 + b % 2 ^ 32) % 2 ^ 32) ≡ sext 32 ((a + b) % 2 ^ 32)
word_sum a b = from_int32-sext _ ∙ ap (sext 32) (omega arith)

pub back : (pc v : ℕ) → ((pc + 4) % 2 ^ 64 + v + 2 ^ 64 - 4) % 2 ^ 64 ≡ (pc + v) % 2 ^ 64
back pc v = omega arith

module _ (e : Emu) (is : IsMachine e) where
  pub exec-addi : (rd rs1 imm : ℕ) → Fits (Op.addi rd rs1 imm) → Runs e (Op.addi rd rs1 imm)
  unfolding execute opcode_13 step Fits encode
  exec-addi rd rs1 imm (p, q, r) =
      ap viewed (exec_i (advance e) 0x13 0 rd rs1 imm (omega arith) (omega arith) p q r)
      ∙ result e is rd _ _ ((e.pc + 4) % 2 ^ 64) p
          (operands e is (λ a b. (a + b) % 2 ^ 64) _ imm _ (omega arith) r refl)

  pub exec-slti : (rd rs1 imm : ℕ) → Fits (Op.slti rd rs1 imm) → Runs e (Op.slti rd rs1 imm)
  unfolding execute opcode_13 step Fits encode
  exec-slti rd rs1 imm (p, q, r) =
      ap viewed (exec_i (advance e) 0x13 2 rd rs1 imm (omega arith) (omega arith) p q r)
      ∙ result e is rd _ _ ((e.pc + 4) % 2 ^ 64) p (
          operands e is (λ a b. if less_signed a b then 1 else 0) _ imm _ (omega arith) r refl
          ∙ ap (λ b. if b then 1 else 0)
              (less_signed_lem ((view e).regs rs1) (sext 12 imm) (view-bound e is rs1)
                (sext-bound imm r)))

  pub exec-addiw : (rd rs1 imm : ℕ) → Fits (Op.addiw rd rs1 imm) → Runs e (Op.addiw rd rs1 imm)
  unfolding execute opcode_1b step Fits encode
  exec-addiw rd rs1 imm (p, q, r) =
      ap viewed (exec_i (advance e) 0x1b 0 rd rs1 imm (omega arith) (omega arith) p q r)
      ∙ result e is rd _ _ ((e.pc + 4) % 2 ^ 64) p (
          operands e is (λ a b. from_int32 ((a % 2 ^ 32 + b % 2 ^ 32) % 2 ^ 32)) _ imm _
            (omega arith) r refl
          ∙ word_sum ((view e).regs rs1) (sext 12 imm))

  pub exec-add : (rd rs1 rs2 : ℕ) → Fits (Op.add rd rs1 rs2) → Runs e (Op.add rd rs1 rs2)
  unfolding execute opcode_33 step Fits encode
  exec-add rd rs1 rs2 (p, q, r) =
      ap viewed (exec_r (advance e) 0x33 rd rs1 rs2 (omega arith) p q r)
      ∙ result e is rd _ _ ((e.pc + 4) % 2 ^ 64) p
          (ap₂ (λ a b. (a + b) % 2 ^ 64) (reg-view e is rs1) (reg-view e is rs2))

  pub exec-addw : (rd rs1 rs2 : ℕ) → Fits (Op.addw rd rs1 rs2) → Runs e (Op.addw rd rs1 rs2)
  unfolding execute opcode_3b step Fits encode
  exec-addw rd rs1 rs2 (p, q, r) =
      ap viewed (exec_r (advance e) 0x3b rd rs1 rs2 (omega arith) p q r)
      ∙ result e is rd _ _ ((e.pc + 4) % 2 ^ 64) p (
          ap₂ (λ a b. from_int32 ((a % 2 ^ 32 + b % 2 ^ 32) % 2 ^ 32)) (reg-view e is rs1)
            (reg-view e is rs2)
          ∙ word_sum ((view e).regs rs1) ((view e).regs rs2))

  pub exec-lui : (rd imm : ℕ) → Fits (Op.lui rd imm) → Runs e (Op.lui rd imm)
  unfolding execute opcode_37 step Fits encode
  exec-lui rd imm (p, q) =
      ap viewed (exec_long (advance e) 0x37 rd imm (omega arith) p)
      ∙ result e is rd _ _ ((e.pc + 4) % 2 ^ 64) p
          (imm_u_lem _ imm (rd * 2 ^ 7 + 0x37) (omega arith) q refl)

  pub exec-auipc : (rd imm : ℕ) → Fits (Op.auipc rd imm) → Runs e (Op.auipc rd imm)
  unfolding execute opcode_17 step Fits encode
  exec-auipc rd imm (p, q) =
      ap viewed (exec_long (advance e) 0x17 rd imm (omega arith) p)
      ∙ result e is rd _ _ ((e.pc + 4) % 2 ^ 64) p (
          ap (λ v. ((e.pc + 4) % 2 ^ 64 + v + 2 ^ 64 - 4) % 2 ^ 64)
            (imm_u_lem _ imm (rd * 2 ^ 7 + 0x17) (omega arith) q refl)
          ∙ back e.pc (sext 32 (imm * 2 ^ 12)))
