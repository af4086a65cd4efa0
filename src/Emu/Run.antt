-- ===== src/Emu/Run.antt =====
-- `emu_cont` and `emu_stepi` of emu/src/emu.c.
use mini_gdbstub.Base.{
  ℕ, ◌+◌, ◌%◌, ◌^◌, Bool, true, false, ◌&&◌, not, Option, none, some, List, [], ◌∷◌, ltb, ◌==◌,
  if◌then◌else◌, Result, ok, fault, ◌>>=◌,
}
use mini_gdbstub.Base.Int.{ℤ}
use mini_gdbstub.Stub.Types.{Action, act_resume, act_shutdown}
use mini_gdbstub.Stub.Registers.{is_zero}
use mini_gdbstub.Emu.{Emu, tohost_addr, emu_start_run}
use mini_gdbstub.Emu.Word.{read_bytes}
use mini_gdbstub.Emu.Exec.{emu_exec, read_len}
use mini_gdbstub.Emu.Target.{emu_read_mem, emu_on_interrupt}

-- The instruction at `pc`, if it was read; else the variable holds nothing that is known.
unfoldable pub fetched : ℤ × List ℕ → Result ℕ
fetched (ret, bytes) = if is_zero ret then ok (read_bytes 0 bytes 0) else fault

-- One instruction: fetched, `pc` moved on, executed.
unfoldable pub run_inst : Emu → Result (Bool × Emu)
unfolding fetched
run_inst e = do
  r ← emu_read_mem e e.pc 4
  inst ← fetched r
  emu_exec (record e { pc = (e.pc + 4) % 2 ^ 64 }) inst

-- The condition of the loop.
unfoldable pub runs_on : Emu → Bool
runs_on e = ltb e.pc e.code_size && (not (e.pc == e.bp_addr) && not e.halt)

-- What comes behind an instruction: the loop ends or goes on.
unfoldable pub after_inst : Emu → Result (Option Action)
after_inst e = do
  value ← read_len e 1 tohost_addr
  ok (if value == 0 then none else some act_shutdown)

-- The loop, given for each evaluation of its condition whether an interrupt has come since the last
-- one. `none`: it is still running.
unfoldable pub cont_loop : (interrupts : List Bool) → Emu → Result (Option (Action × Emu))
unfolding runs_on run_inst after_inst
cont_loop [] e = ok none
cont_loop (now ∷ later) e =
    let e = if now then emu_on_interrupt e else e in
    elim (runs_on e) [
      | false ↦ ok (some (act_resume, e))
      | true ↦ do
        (valid, e) ← run_inst e
        elim valid [
          | false ↦ ok (some (act_resume, e))
          | true ↦ do
            end ← after_inst e
            elim end [ some act ↦ ok (some (act, e)) | none ↦ cont_loop later e ]
        ]
    ]

unfoldable pub emu_cont : (interrupts : List Bool) → Emu → Result (Option (Action × Emu))
unfolding cont_loop
emu_cont interrupts e = cont_loop interrupts (emu_start_run e)

-- The result of the instruction is not looked at.
unfoldable pub emu_stepi : Emu → Result (Action × Emu)
unfolding run_inst
emu_stepi e =
    let e = emu_start_run e in
    if ltb e.pc e.code_size
    then (do (valid, e) ← run_inst e; ok (act_resume, e))
    else ok (act_resume, e)
