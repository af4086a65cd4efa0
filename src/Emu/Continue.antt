-- ===== src/Emu/Continue.antt =====
-- `emu_cont` of emu/src/emu.c: how a run of the target ends.
use mini_gdbstub.Base.{
  ◌≤◌, ◌<◌, ◌≡◌, ◌≢◌, Bool, true, false, Option, none, some, List, All, Result, ok, fault, ◌>>=◌,
}
use mini_gdbstub.Stub.Types.{Action, act_resume, act_shutdown}
use mini_gdbstub.Emu.{Emu}
use mini_gdbstub.Emu.Target.{emu_on_interrupt}
use mini_gdbstub.Emu.Run.{run_inst, after_inst, cont_loop}
use mini_gdbstub.Emu.View.{IsMachine}

-- The states that a run passes from `e`: each instruction is executed inside the code, away from the
-- breakpoint and not halted, and did not report its end; an interrupt may come between two.
pub data Trace (e : Emu) : Emu → Type 0 where
  start : Trace e e
  interrupted : (e' : Emu) → Trace e e' → Trace e (emu_on_interrupt e')
  executed :
      (e1 e2 : Emu)
      → Trace e e1
      → e1.pc < e1.code_size
      → e1.pc ≢ e1.bp_addr
      → e1.halt ≡ false
      → run_inst e1 ≡ ok (true, e2)
      → after_inst e2 ≡ ok none
      → Trace e e2

-- Why a run that has come to a state ends there, or behind one more instruction.
pub data Reason (e1 : Emu) : Action → Emu → Type 0 where
  at_end : e1.code_size ≤ e1.pc → Reason e1 act_resume e1
  at_breakpoint : e1.pc ≡ e1.bp_addr → Reason e1 act_resume e1
  halted : e1.halt ≡ true → Reason e1 act_resume e1
  unknown_inst : (e2 : Emu) → run_inst e1 ≡ ok (false, e2) → Reason e1 act_resume e2
  reported :
      (e2 : Emu)
      → run_inst e1 ≡ ok (true, e2)
      → after_inst e2 ≡ ok (some act_shutdown)
      → Reason e1 act_shutdown e2

-- How a run from `e` stands, for the interrupts given.
pub data Ends (e : Emu) (interrupts : List Bool) : Result (Option (Action × Emu)) → Type 0 where
  goes_on : All (λ now. now ≡ false) interrupts → Ends e interrupts (ok none)
  ends :
      (e1 : Emu) (act : Action) (e2 : Emu)
      → Trace e e1
      → Reason e1 act e2
      → IsMachine e2
      → Ends e interrupts (ok (some (act, e2)))
  -- an instruction that accesses what lies outside the memory
  faults : (e1 : Emu) → Trace e e1 → run_inst e1 ≡ fault → Ends e interrupts fault

module _ (e : Emu) where
  -- What the loop does with the outcome of an instruction.
  abbrev go_on : List Bool → Result (Bool × Emu) → Result (Option (Action × Emu))
  go_on later r = do
    (valid, e) ← r
    elim valid [
      | false ↦ ok (some (act_resume, e))
      | true ↦ do
        end ← after_inst e
        elim end [ some act ↦ ok (some (act, e)) | none ↦ cont_loop later e ]
    ]
