-- ===== src/Stub/Replies/Packets.antt =====
-- What `gdbstub_process_packet` sends for a packet, whatever the packet holds.
use mini_gdbstub.Base.{ℕ, ◌≡◌, ◌≢◌, none, List}
use mini_gdbstub.Packet.{Packet}
use mini_gdbstub.Stub.Types.{Env, Stub, Event, event_none, event_cont, event_detach, event_step}
use mini_gdbstub.Stub.Monad.{Cmd}
use mini_gdbstub.Stub.Ends.{Ends, Answered}

module _ {T : Type 0} (env : Env T) (l : List (List ℕ)) where
  -- With no event, or to detach, one framed reply went out; a run of the target is reported only
  -- later, nothing went out, and the target has the operation that it takes.
  abbrev pub Served : Event → Stub T → Type 0
  Served event_none s = Answered l s
  Served event_detach s = Answered l s
  Served event_cont s = (s.sent ≡ l) × (env.ops.cont ≢ none)
  Served event_step s = (s.sent ≡ l) × (env.ops.stepi ≢ none)

  record Serves (m : Cmd T Event) : Type 0 where
    ends : (s : Stub T) → s.sent ≡ l → Ends Served (m s)
