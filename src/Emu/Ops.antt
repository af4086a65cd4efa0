-- ===== src/Emu/Ops.antt =====
-- `emu_ops` of emu/src/emu.c, the table of operations that the emulator gives to the stub, and the
-- arguments of `gdbstub_init` in its `main`.
-- What an undefined access or a run that does not end leaves is not known: it is the parameter `wild`.
-- `interrupts` says between which instructions of a run an interrupt comes.
use mini_gdbstub.Base.{ℕ, Bool, Option, none, some, List, [], Result, ok, abort, fault, codes}
use mini_gdbstub.Base.Int.{ℤ, pos}
use mini_gdbstub.Stub.Types.{Action, act_none, TargetOps, Env}
use mini_gdbstub.Emu.{Emu}
use mini_gdbstub.Emu.Target.{
  emu_get_reg_bytes, emu_read_reg, emu_write_reg, emu_read_mem, emu_write_mem, emu_set_bp,
  emu_del_bp, emu_on_interrupt,
}
use mini_gdbstub.Emu.Run.{emu_cont, emu_stepi}

abbrev pub settle : {A : Type 0} → A → Result A → A
settle unknown (ok a) = a
settle unknown abort = unknown
settle unknown fault = unknown

module _ (wild : Emu) where
  -- A run that has ended.
  abbrev pub ran : Result (Option (Action × Emu)) → Action × Emu
  ran (ok (some r)) = r
  ran (ok none) = (act_none, wild)
  ran abort = (act_none, wild)
  ran fault = (act_none, wild)

  -- A read leaves the emulator as it is.
  abbrev pub read_from : Emu → Result (ℤ × List ℕ) → ℤ × List ℕ × Emu
  read_from e (ok (ret, value)) = (ret, value, e)
  read_from e abort = (pos 0, [], wild)
  read_from e fault = (pos 0, [], wild)

  abbrev pub read_reg_op : Emu → ℕ → ℤ × List ℕ × Emu
  read_reg_op e i = read_from e (emu_read_reg e i)

  abbrev pub write_reg_op : Emu → ℕ → List ℕ → ℤ × Emu
  write_reg_op e i v = settle (pos 0, wild) (emu_write_reg e i v)

  abbrev pub emu_ops : (interrupts : List Bool) → TargetOps Emu
  emu_ops interrupts = record {
    get_reg_bytes = emu_get_reg_bytes;
    read_reg = some read_reg_op;
    write_reg = some write_reg_op;
    read_mem = some (λ e addr len. read_from e (emu_read_mem e addr len));
    write_mem = some (λ e addr len v. settle (pos 0, wild) (emu_write_mem e addr len v));
    cont = some (λ e. ran (emu_cont interrupts e));
    stepi = some (λ e. settle (act_none, wild) (emu_stepi e));
    set_bp = some emu_set_bp;
    del_bp = some emu_del_bp;
    on_interrupt = some emu_on_interrupt;
    set_cpu = none;
    get_cpu = none;
  }

  -- The arguments of `gdbstub_init`.
  abbrev pub emu_env :
      (interrupts : List Bool) → (malloc : ℕ → Option (List ℕ)) → (stack : List ℕ) → Env Emu
  emu_env interrupts malloc stack = record {
    ops = emu_ops interrupts;
    target_desc =
        some (codes "<target version=\"1.0\"><architecture>riscv:rv64</architecture></target>");
    smp = 1;
    reg_num = 33;
    malloc = malloc;
    stack = stack;
  }
