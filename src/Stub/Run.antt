-- ===== src/Stub/Run.antt =====
-- The main loop of `gdbstub_run` in src/gdbstub.c.
use mini_gdbstub.Base.{
  ℕ, ◌+◌, Bool, true, false, not, Option, none, some, List, [], ◌∷◌, ◌++◌, codes, leb,
  if◌then◌else◌,
}
use mini_gdbstub.Conn.{hex_byte}
use mini_gdbstub.Packet.{Packet}
use mini_gdbstub.Stub.Types.{Env, Action, act_none, act_resume, act_shutdown}
use mini_gdbstub.Stub.Monad.{Cmd, ◌>>=◌, ◌>>◌, pure, non_null, get, put, reply, test◌then◌else◌}
use mini_gdbstub.Stub.Dispatch.{packet_csum_verify, gdbstub_process_packet, gdbstub_handle_event}

-- What `pktqueue_pop` returns to the loop: a packet, or NULL with the queue shut down or not.
pub data Arrival : Type 0 where
  arrived : Packet → Arrival
  woken : Arrival
  closed : Arrival

abbrev pub conn_max_failures : ℕ
conn_max_failures = 50

abbrev pub ack : List ℕ
ack = codes "+"

abbrev pub nack : List ℕ
nack = codes "-"

abbrev pub gdb_signal_trap : ℕ
gdb_signal_trap = 5

module _ {T : Type 0} where
  -- `conn_send_str` of an acknowledgement.
  unfoldable pub send_str : List ℕ → Cmd T (Unit {0})
  unfolding put ◌>>=◌ get
  send_str str = do s ← get; put (record s { sent = s.sent ++ (str ∷ []) })

  unfoldable pub gdbstub_act_resume : Cmd T (Unit {0})
  unfolding hex_byte
  gdbstub_act_resume = reply (b'S' ∷ hex_byte gdb_signal_trap)

  -- Acknowledgements stop once the client has asked for that.
  unfoldable pub acknowledge : Bool → Cmd T (Unit {0})
  unfolding send_str
  acknowledge csum_ok = do
    s ← get
    test not s.conn.no_ack_mode then send_str (if csum_ok then ack else nack) else pure tt

  -- A packet that fails its check is dropped. The value is what `gdbstub_run` returns, `none` while
  -- it goes on.
  unfoldable pub reject : Cmd T (Option Bool)
  reject = do
    s ← get
    put (record s { conn = record (s.conn) { failure_count = s.conn.failure_count + 1 } })
    pure (if leb conn_max_failures (s.conn.failure_count + 1) then some false else none)

  unfoldable pub perform : Action → Cmd T (Option Bool)
  unfolding gdbstub_act_resume
  perform act_none = pure none
  perform act_resume = do gdbstub_act_resume; pure none
  perform act_shutdown = pure (some true)

  unfoldable pub reset_failures : Cmd T (Unit {0})
  reset_failures = do s ← get; put (record s { conn = record (s.conn) { failure_count = 0 } })

  unfoldable pub unless_done : Option Bool → Cmd T (Option Bool) → Cmd T (Option Bool)
  unless_done (some r) more = pure (some r)
  unless_done none more = more

module _ {T : Type 0} (env : Env T) where
  unfoldable pub serve : Packet → Cmd T (Option Bool)
  unfolding reset_failures perform
  serve pkt = do
    reset_failures
    event ← gdbstub_process_packet env pkt
    act ← gdbstub_handle_event env event
    perform act

  unfoldable pub on_arrival : Arrival → Cmd T (Option Bool)
  unfolding acknowledge reject serve
  on_arrival closed = pure (some true)
  on_arrival woken = pure none
  on_arrival (arrived pkt) = do
    csum_ok ← non_null (packet_csum_verify pkt)
    acknowledge csum_ok
    test csum_ok then serve pkt else reject

  -- The loop over the arrivals to come; `none` while it waits for more.
  unfoldable pub run_loop : List Arrival → Cmd T (Option Bool)
  unfolding on_arrival unless_done
  run_loop [] = pure none
  run_loop (a ∷ rest) = do result ← on_arrival a; unless_done result (run_loop rest)
