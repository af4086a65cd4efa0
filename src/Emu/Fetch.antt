-- ===== src/Emu/Fetch.antt =====
-- `run_inst`, the part that `emu_cont` and `emu_stepi` of emu/src/emu.c share.
use native.Mathlib.Nat.{mod-eq_of_lt}
use mini_gdbstub.Base.{◌+◌, ◌%◌, ◌^◌, ◌<◌, ◌≡◌, ap, ◌∙◌, arith, take, drop, length-take}
use mini_gdbstub.Stub.Registers.{is_zero}
use mini_gdbstub.Emu.{Emu}
use mini_gdbstub.Emu.Exec.{emu_exec}
use mini_gdbstub.Emu.Storage.{read_inside}
use mini_gdbstub.Emu.Run.{fetched, run_inst}
use mini_gdbstub.Emu.Bytes.{read_bytes-little_endian, little_endian-bytes_of}
use mini_gdbstub.Emu.Isa.{Op, Fits, encode, step, little_endian, bytes_of}
use mini_gdbstub.Emu.View.{IsMachine, All-take, All-drop, advance, view, viewed, succeeds}
use mini_gdbstub.Emu.Results.{Regular}
use mini_gdbstub.Emu.Executes.{emu_exec-step}
use mini_gdbstub.Emu.Invariant.{accesses, Keeps, Keeps-exec, goto-IsMachine}

module _ (e : Emu) (is : IsMachine e) where
  -- Below the end of the code there is a whole instruction to fetch.
  pub run_inst-fetches :
      e.pc < e.code_size
      → run_inst e ≡ emu_exec (advance e) (little_endian (take 4 (drop e.pc e.mem)))
  unfolding run_inst fetched is_zero
  run_inst-fetches low =
      let bs = take 4 (drop e.pc e.mem) in
      rw (read_inside e e.pc 4 is.size (omega (arith, low, is.code))) (
        ap (emu_exec (advance e)) (
          read_bytes-little_endian bs (All-take 4 _ (All-drop e.pc e.mem is.bytes))
            (omega (arith, length-take 4 (drop e.pc e.mem)))))

  -- An instruction of the code, whatever its bits, leaves a machine: 32 registers and a `pc` of 64
  -- bits, and a memory of 4096 bytes. Only a load or a store may be undefined: no instruction uses a
  -- register that is not there, and none stops the process.
  pub run_inst-Keeps :
      e.pc < e.code_size → Keeps (accesses (little_endian (take 4 (drop e.pc e.mem)))) (run_inst e)
  run_inst-Keeps low =
      rw (run_inst-fetches low)
        (Keeps-exec (advance e) (goto-IsMachine e is ((e.pc + 4) % 2 ^ 64) (omega arith)) _)

encode-bound : (op : Op) → Fits op → encode op < 2 ^ 32
unfolding Fits encode
encode-bound (Op.lw rd rs1 imm) (p, q, r) = omega arith
encode-bound (Op.ld rd rs1 imm) (p, q, r) = omega arith
encode-bound (Op.addi rd rs1 imm) (p, q, r) = omega arith
encode-bound (Op.slti rd rs1 imm) (p, q, r) = omega arith
encode-bound (Op.addiw rd rs1 imm) (p, q, r) = omega arith
encode-bound (Op.jalr rd rs1 imm) (p, q, r) = omega arith
encode-bound (Op.sb rs2 rs1 up low) (p, q, r, s) = omega arith
encode-bound (Op.sw rs2 rs1 up low) (p, q, r, s) = omega arith
encode-bound (Op.sd rs2 rs1 up low) (p, q, r, s) = omega arith
encode-bound (Op.add rd rs1 rs2) (p, q, r) = omega arith
encode-bound (Op.addw rd rs1 rs2) (p, q, r) = omega arith
encode-bound (Op.lui rd imm) (p, q) = omega arith
encode-bound (Op.auipc rd imm) (p, q) = omega arith
encode-bound (Op.jal rd j) (p, q, r, s, t) = omega arith

-- Where the code holds at `pc` one of the fourteen instructions that the emulator takes (`lw`, `ld`,
-- `addi`, `slti`, `addiw`, `jalr`, `sb`, `sw`, `sd`, `add`, `addw`, `lui`, `auipc`, `jal`), running it
-- does what the manual asks: the same registers 1 to 31, `pc` and memory afterwards, and undefined on
-- the same accesses outside the memory; register 0 counts as 0, whatever its place in `x[32]` holds
-- until the next instruction. The machine is valid and the fields in range. Excepted are `lw` of a word whose top bit is set, and `jalr` that links in the register it
-- jumps by.
pub run_inst-step :
    (op : Op) (e : Emu)
    → Fits op
    → IsMachine e
    → Regular op (view e)
    → e.pc < e.code_size
    → take 4 (drop e.pc e.mem) ≡ bytes_of 4 (encode op)
    → viewed (run_inst e) ≡ succeeds (step op (view e))
run_inst-step op e fits is regular low there =
    let word : little_endian (take 4 (drop e.pc e.mem)) ≡ encode op =
      ap little_endian there
      ∙ little_endian-bytes_of 4 (encode op)
      ∙ mod-eq_of_lt (encode-bound op fits) in
    ap viewed (run_inst-fetches e is low ∙ ap (emu_exec (advance e)) word)
    ∙ emu_exec-step op e fits is regular
