-- ===== src/Stub/Missing.antt =====
-- Packets for an operation that the target does not have.
use mini_gdbstub.Base.{ℕ, ◌≡◌, refl, none, List, [], ◌∷◌, ◌++◌, ok}
use mini_gdbstub.Conn.{packet_text, conn_send_pktstr}
use mini_gdbstub.Stub.Types.{Env, Stub, TargetOps, event_none}
use mini_gdbstub.Stub.Monad.{◌>>◌, pure, reply, eperm, test◌then◌else◌}
use mini_gdbstub.Stub.Control.{event_if, process_cont, process_stepi}
use mini_gdbstub.Stub.Dispatch.{when_there, process_request}

-- The operation that each packet takes, missing.
pub data Misses {T : Type 0} (ops : TargetOps T) : ℕ → Type 0 where
  no_cont : ops.cont ≡ none → Misses ops b'c'
  no_stepi : ops.stepi ≡ none → Misses ops b's'
  no_read_reg : ops.read_reg ≡ none → Misses ops b'g'
  no_read_one : ops.read_reg ≡ none → Misses ops b'p'
  no_write_reg : ops.write_reg ≡ none → Misses ops b'G'
  no_write_one : ops.write_reg ≡ none → Misses ops b'P'
  no_read_mem : ops.read_mem ≡ none → Misses ops b'm'
  no_write_mem : ops.write_mem ≡ none → Misses ops b'M'
  no_xwrite : ops.write_mem ≡ none → Misses ops b'X'
  no_set_bp : ops.set_bp ≡ none → Misses ops b'Z'
  no_del_bp : ops.del_bp ≡ none → Misses ops b'z'
  no_set_cpu : ops.set_cpu ≡ none → Misses ops b'H'

-- Each of the twelve packets above, for an operation that the target lacks, is answered with `E01`,
-- whatever else it holds, and nothing happens to the target.
pub process_request-eperm :
    {T : Type 0} (env : Env T) (request : ℕ) (raw : List ℕ) (n : ℕ) (s : Stub T)
    → Misses env.ops request
    → process_request env request raw n s
      ≡ ok (event_none, record s { sent = s.sent ++ (packet_text eperm ∷ []) })
unfolding process_request process_cont process_stepi event_if when_there test◌then◌else◌ ◌>>◌ pure
    reply conn_send_pktstr
process_request-eperm env _ raw n s (no_cont e) = rw e refl
process_request-eperm env _ raw n s (no_stepi e) = rw e refl
process_request-eperm env _ raw n s (no_read_reg e) = rw e refl
process_request-eperm env _ raw n s (no_read_one e) = rw e refl
process_request-eperm env _ raw n s (no_write_reg e) = rw e refl
process_request-eperm env _ raw n s (no_write_one e) = rw e refl
process_request-eperm env _ raw n s (no_read_mem e) = rw e refl
process_request-eperm env _ raw n s (no_write_mem e) = rw e refl
process_request-eperm env _ raw n s (no_xwrite e) = rw e refl
process_request-eperm env _ raw n s (no_set_bp e) = rw e refl
process_request-eperm env _ raw n s (no_del_bp e) = rw e refl
process_request-eperm env _ raw n s (no_set_cpu e) = rw e refl
