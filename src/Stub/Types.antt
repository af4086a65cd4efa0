-- ===== src/Stub/Types.antt =====
-- include/gdbstub.h: the interface to the emulator, and the state of a session.
-- An `int` that names a register or a CPU is its 32-bit pattern; a return code is a signed integer.
use mini_gdbstub.Base.{ℕ, Bool, Option, List}
use mini_gdbstub.Base.Int.{ℤ}
use mini_gdbstub.Conn.{Conn}
use mini_gdbstub.Regbuf.{Regbuf}

-- `gdb_event_t`
pub data Event : Type 0 where
  event_none event_cont event_detach event_step : Event

-- `gdb_action_t`
pub data Action : Type 0 where
  act_none act_resume act_shutdown : Action

-- `struct target_ops`, over the state `T` behind `args`. A NULL pointer is `none`. An operation that
-- fills a buffer returns what it stores there from its start; one that reads a register value is
-- given the `get_reg_bytes` bytes at the pointer.
pub record TargetOps (T : Type 0) : Type 0 where
  pub cont : Option (T → Action × T)
  pub stepi : Option (T → Action × T)
  pub get_reg_bytes : ℕ → ℕ
  pub read_reg : Option (T → ℕ → ℤ × List ℕ × T)
  pub write_reg : Option (T → ℕ → List ℕ → ℤ × T)
  pub read_mem : Option (T → (addr len : ℕ) → ℤ × List ℕ × T)
  pub write_mem : Option (T → (addr len : ℕ) → List ℕ → ℤ × T)
  pub set_bp : Option (T → (addr type : ℕ) → Bool × T)
  pub del_bp : Option (T → (addr type : ℕ) → Bool × T)
  pub on_interrupt : Option (T → T)
  pub set_cpu : Option (T → ℕ → T)
  pub get_cpu : Option (T → ℤ × T)

-- What stays fixed in a session: `ops`, `arch_info_t`, the allocator (`none` is NULL), and the 4096
-- bytes that a local buffer holds before it is written.
pub record Env (T : Type 0) : Type 0 where
  pub ops : TargetOps T
  pub target_desc : Option (List ℕ)
  pub smp : ℕ
  pub reg_num : ℕ
  pub malloc : ℕ → Option (List ℕ)
  pub stack : List ℕ

-- `gdbstub_private`, with the target's state and the texts given to the socket so far, in order.
pub record Stub (T : Type 0) : Type 0 where
  pub conn : Conn
  pub regbuf : Regbuf
  pub async_io : Bool
  pub total_reg_bytes : ℕ
  pub target : T
  pub sent : List (List ℕ)
