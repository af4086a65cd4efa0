-- ===== src/Emu/Tests.antt =====
-- The emulator on small programs.
use mathlib.Core.Option
use mini_gdbstub.Stub.Types.{Stub}
use mini_gdbstub.Base.{
  replicate, ℕ, ◌+◌, ◌-◌, ◌%◌, ◌^◌, ◌≡◌, refl, arith, true, false, ◌&&◌, Option, none, some, List,
  [], ◌∷◌, take, drop, get_or, leb, ltb, ◌==◌, if◌then◌else◌, Result, ok, abort, fault, ◌>>=◌,
  IsBytes,
}
use mini_gdbstub.Base.Int.{pos}
use mini_gdbstub.Stub.Types.{Action, act_resume}
use mini_gdbstub.Emu.{Emu, mem_size, emu_init, init_mem}
use mini_gdbstub.Emu.Exec.{emu_exec, opcode_13, read_len}
use mini_gdbstub.Emu.Word.{read_bytes}
use mini_gdbstub.Stub.Registers.{is_zero}
use mini_gdbstub.Emu.Run.{run_inst, emu_cont}
use mini_gdbstub.Emu.Target.{efault, emu_read_mem, emu_write_mem, emu_read_reg, emu_write_reg}
use mini_gdbstub.Emu.Fields.{sext}
use mini_gdbstub.Emu.Isa.{Op, Fits, encode, step, load, next, write_rd}
use mini_gdbstub.Emu.View.{view, advance, viewed, succeeds, IsMachine}
use mini_gdbstub.Emu.Results.{Regular}
use mini_gdbstub.Emu.Executes.{emu_exec-irregular}
use mini_gdbstub.Emu.Invariant.{Keeps, accesses}
use mini_gdbstub.Emu.Isa.{little_endian}
use mini_gdbstub.Emu.Fetch.{run_inst-Keeps, run_inst-step}
use mini_gdbstub.Emu.Storage.{emu_mem-outside, emu_write_mem-emu_read_mem}
use mini_gdbstub.Emu.Bank.{emu_write_reg-emu_read_reg}
use mini_gdbstub.Emu.Load.{loaded, loaded-IsMachine, init_mem-loads}

-- `addi x5, x0, 7`, and `sb x5, 0(x2)`.
abbrev program : List ℕ
program = 0x93 ∷ 0x02 ∷ 0x70 ∷ 0x00 ∷ 0x23 ∷ 0x00 ∷ 0x51 ∷ 0x00 ∷ []

abbrev machine : Emu
machine = loaded program

program-IsBytes : IsBytes program
program-IsBytes = (
  omega arith,
  (
    omega arith,
    (omega arith, (omega arith, (omega arith, (omega arith, (omega arith, (omega arith, tt)))))),
  ),
)

machine-IsMachine : IsMachine machine
machine-IsMachine = loaded-IsMachine program program-IsBytes (omega arith)

abbrev addi_op : Op
addi_op = Op.addi 5 0 7

run_inst-step_example : viewed (run_inst machine) ≡ succeeds (step addi_op (view machine))
run_inst-step_example =
    run_inst-step addi_op machine (unfold Fits in (omega arith, omega arith, omega arith))
      machine-IsMachine (unfold Regular in tt) (unfold emu_init in omega arith)
      (unfold emu_init encode in refl)

emu_exec-irregular_example :
    (viewed (emu_exec (advance machine) (encode (Op.lw 6 2 0)))
      ≡ succeeds (do
        v ← load (view machine) 4 ((view machine).regs 2) (sext 12 0)
        ok (next (write_rd (view machine) 6 v))))
    × (viewed (emu_exec (advance machine) (encode (Op.jalr 6 6 0))) ≡ (
        let link = (machine.pc + 4) % 2 ^ 64 in
        let target = (link + sext 12 0) % 2 ^ 64 in
        ok (true, record (write_rd (view machine) 6 link) { pc = target - target % 2 })))
emu_exec-irregular_example =
    emu_exec-irregular machine 6 2 0 machine-IsMachine
      (unfold Fits in (omega arith, omega arith, omega arith))
      (unfold Fits in (omega arith, omega arith, omega arith))

run_inst-Keeps_example :
    Keeps (accesses (little_endian (take 4 (drop machine.pc machine.mem)))) (run_inst machine)
run_inst-Keeps_example = run_inst-Keeps machine machine-IsMachine (unfold emu_init in omega arith)

-- A length that wraps the sum to 0.
emu_mem-outside_example :
    (emu_read_mem machine (2 ^ 64 - 1) 1 ≡ (
      if leb (2 ^ 64) (2 ^ 64 - 1 + 1) && leb (2 ^ 64 - 1 + 1) (2 ^ 64 + mem_size)
      then fault
      else ok (efault, [])))
    × (emu_write_mem machine (2 ^ 64 - 1) 1 (0 ∷ []) ≡ (
        if leb (2 ^ 64) (2 ^ 64 - 1 + 1) && leb (2 ^ 64 - 1 + 1) (2 ^ 64 + mem_size)
        then fault
        else ok (efault, machine)))
emu_mem-outside_example =
    emu_mem-outside machine (2 ^ 64 - 1) 1 (machine-IsMachine.size) (0 ∷ []) (omega arith)
      (omega arith) (omega arith)

emu_write_mem-emu_read_mem_example :
    (e' : Emu) × (emu_write_mem machine 8 2 (1 ∷ 2 ∷ []) ≡ ok (pos 0, e'))
    × (emu_read_mem e' 8 2 ≡ ok (pos 0, 1 ∷ 2 ∷ []))
    × ((i : ℕ)
        → get_or e'.mem i 0 ≡ (
            if leb 8 i && ltb i (8 + 2)
            then get_or (1 ∷ 2 ∷ []) (i - 8) 0
            else get_or machine.mem i 0))
emu_write_mem-emu_read_mem_example =
    emu_write_mem-emu_read_mem machine 8 2 (1 ∷ 2 ∷ []) (machine-IsMachine.size) refl (omega arith)

abbrev word : List ℕ
word = 1 ∷ 2 ∷ 3 ∷ 4 ∷ 5 ∷ 6 ∷ 7 ∷ 8 ∷ []

emu_write_reg-emu_read_reg_example :
    (e' : Emu) × (emu_write_reg machine 32 word ≡ ok (pos 0, e'))
    × IsMachine e'
    × ((j : ℕ) → emu_read_reg e' j ≡ (if j == 32 then ok (pos 0, word) else emu_read_reg machine j))
emu_write_reg-emu_read_reg_example =
    emu_write_reg-emu_read_reg machine 32 word machine-IsMachine (omega arith) refl (
      omega arith,
      (
        omega arith,
        (
          omega arith,
          (omega arith, (omega arith, (omega arith, (omega arith, (omega arith, tt))))),
        ),
      ),
    )

init_mem-loads_example :
    (e : Emu) × (init_mem (some program) true (λ n. n) emu_init ≡ some e)
    × IsMachine e
    × (take e.code_size e.mem ≡ program)
    × (e.pc ≡ 0)
    × (e.halt ≡ true)
init_mem-loads_example = init_mem-loads program program-IsBytes (omega arith)

-- How a run ended, and where.
abbrev ended : Result (Option (Action × Emu)) → Option (Action × ℕ)
ended (ok (some (act, e))) = some (act, e.pc)
ended (ok none) = none
ended abort = none
ended fault = none

-- One instruction runs before the interrupt comes.
interrupted_first : ended (emu_cont (false ∷ true ∷ []) machine) ≡ some (act_resume, 4)
unfolding emu_cont emu_init emu_read_mem is_zero emu_exec read_bytes opcode_13 read_len
interrupted_first = refl

-- The registers of another machine, as a client sends them back.
abbrev zeros : ℕ → Option (List ℕ)
zeros n = some (replicate n 0)

abbrev session : Stub Emu
session = record {
  conn = record { no_ack_mode = false; failure_count = 0 };
  regbuf = record { buf = none; sz = 8 };
  async_io = false;
  total_reg_bytes = 264;
  target = machine;
  sent = [];
}
