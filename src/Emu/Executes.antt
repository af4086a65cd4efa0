-- ===== src/Emu/Executes.antt =====
-- `emu_exec` of emu/src/emu.c against the manual.
use mini_gdbstub.Base.{ℕ, ◌+◌, ◌-◌, ◌%◌, ◌^◌, ◌≡◌, true, ok, ◌>>=◌}
use mini_gdbstub.Emu.{Emu}
use mini_gdbstub.Emu.Exec.{emu_exec}
use mini_gdbstub.Emu.Isa.{Op, Fits, encode, step, load, next, write_rd}
use mini_gdbstub.Emu.View.{view, advance, viewed, succeeds, IsMachine}
use mini_gdbstub.Emu.Fields.{sext}
use mini_gdbstub.Emu.Results.{Regular}
use mini_gdbstub.Emu.Alu.{
  exec-addi, exec-slti, exec-addiw, exec-add, exec-addw, exec-lui, exec-auipc,
}
use mini_gdbstub.Emu.Access.{lw_zero_extends, exec-lw, exec-ld, exec-sb, exec-sw, exec-sd}
use mini_gdbstub.Emu.Jumps.{jumps, jalr-linked, exec-jalr, exec-jal}

-- `emu_exec`, given the encoding of an instruction of the manual whose fields are in range, with the
-- `pc` moved past it, does what the manual asks: the same registers, `pc` and memory, and an access
-- outside the memory on the same ones. Excepted are `lw` of a word whose top bit is set, and `jalr`
-- that links in the register it jumps by.
pub emu_exec-step :
    (op : Op) (e : Emu)
    → Fits op
    → IsMachine e
    → Regular op (view e)
    → viewed (emu_exec (advance e) (encode op)) ≡ succeeds (step op (view e))
emu_exec-step (Op.lw rd rs1 imm) e f is r = exec-lw e is rd rs1 imm f r
emu_exec-step (Op.ld rd rs1 imm) e f is r = exec-ld e is rd rs1 imm f
emu_exec-step (Op.addi rd rs1 imm) e f is r = exec-addi e is rd rs1 imm f
emu_exec-step (Op.slti rd rs1 imm) e f is r = exec-slti e is rd rs1 imm f
emu_exec-step (Op.addiw rd rs1 imm) e f is r = exec-addiw e is rd rs1 imm f
emu_exec-step (Op.jalr rd rs1 imm) e f is r = exec-jalr e is rd rs1 imm f r
emu_exec-step (Op.sb rs2 rs1 up low) e f is r = exec-sb e is rs2 rs1 up low f
emu_exec-step (Op.sw rs2 rs1 up low) e f is r = exec-sw e is rs2 rs1 up low f
emu_exec-step (Op.sd rs2 rs1 up low) e f is r = exec-sd e is rs2 rs1 up low f
emu_exec-step (Op.add rd rs1 rs2) e f is r = exec-add e is rd rs1 rs2 f
emu_exec-step (Op.addw rd rs1 rs2) e f is r = exec-addw e is rd rs1 rs2 f
emu_exec-step (Op.lui rd imm) e f is r = exec-lui e is rd imm f
emu_exec-step (Op.auipc rd imm) e f is r = exec-auipc e is rd imm f
emu_exec-step (Op.jal rd j) e f is r = exec-jal e is rd j f

-- Where `emu_exec` leaves the manual: a loaded word is extended with zeros whatever its top bit, and
-- `jalr` that links in the register it jumps by jumps by the link, the address behind it, and not by
-- what the register held.
pub emu_exec-irregular :
    (e : Emu) (rd rs1 imm : ℕ)
    → IsMachine e
    → Fits (Op.lw rd rs1 imm)
    → Fits (Op.jalr rd rd imm)
    → (viewed (emu_exec (advance e) (encode (Op.lw rd rs1 imm)))
        ≡ succeeds (do
          v ← load (view e) 4 ((view e).regs rs1) (sext 12 imm)
          ok (next (write_rd (view e) rd v))))
      × (viewed (emu_exec (advance e) (encode (Op.jalr rd rd imm))) ≡ (
          let link = (e.pc + 4) % 2 ^ 64 in
          let target = (link + sext 12 imm) % 2 ^ 64 in
          ok (true, record (write_rd (view e) rd link) { pc = target - target % 2 })))
emu_exec-irregular e rd rs1 imm is word jump = (
  lw_zero_extends e is rd rs1 imm word,
  jumps e is rd rd imm ((e.pc + 4) % 2 ^ 64) jump (jalr-linked e is rd imm jump),
)
