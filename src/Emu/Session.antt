-- ===== src/Emu/Session.antt =====
-- `G` packets of src/gdbstub.c on the emulator of emu/src/emu.c.
use mini_gdbstub.Base.{ℕ, ◌≤◌, ◌≡◌, Bool, Option, List, length, IsBytes}
use mini_gdbstub.Stub.Types.{Env, Stub}
use mini_gdbstub.Emu.{Emu, regsz}
use mini_gdbstub.Emu.Isa.{bytes_of}
use mini_gdbstub.Emu.Bank.{held}
use mini_gdbstub.Emu.Ops.{emu_env}

-- The 8 bytes of a register.
abbrev pub register : Emu → ℕ → List ℕ
register e i = bytes_of 8 (held e i)

-- A register of the emulator, and 8 bytes for it.
pub record Offers (e : Emu) (i : ℕ) (v : List ℕ) : Type 0 where
  pub registers : length e.x ≡ 32
  pub there : i ≤ 32
  pub size : length v ≡ regsz
  pub bytes : IsBytes v

module _ (wild : Emu) where
  module _ (interrupts : List Bool) (malloc : ℕ → Option (List ℕ)) (stack : List ℕ) where
    abbrev env : Env Emu
    env = emu_env wild interrupts malloc stack
