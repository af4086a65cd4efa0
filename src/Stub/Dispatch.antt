-- ===== src/Stub/Dispatch.antt =====
-- `packet_csum_verify`, `gdbstub_process_packet` and `gdbstub_handle_event` of src/gdbstub.c.
use mini_gdbstub.Base
use mini_gdbstub.Base.{
  ℕ, ◌+◌, ◌-◌, Bool, true, false, Option, none, some, List, [], ◌∷◌, ◌++◌, drop, set, get_or, cstr,
  ◌==◌, if◌then◌else◌, codes,
}
use mini_gdbstub.Csum.{compute_checksum}
use mini_gdbstub.Translate.{str_to_hex}
use mini_gdbstub.Packet.{Packet, csum_size}
use mini_gdbstub.Stub.Types.{
  Env, Event, event_none, event_cont, event_detach, event_step, Action, act_none, act_shutdown,
}
use mini_gdbstub.Stub.Monad.{
  Cmd, ◌>>=◌, ◌>>◌, pure, lift, non_null, get, put, reply, done, eperm, test◌then◌else◌,
}
use mini_gdbstub.Stub.Registers.{
  process_reg_read, process_reg_read_one, process_reg_write, process_reg_write_one,
}
use mini_gdbstub.Stub.Memory.{process_mem_read, process_mem_write, process_mem_xwrite}
use mini_gdbstub.Stub.Query.{process_query, process_general_set}
use mini_gdbstub.Stub.Control.{
  process_cont, process_stepi, process_vpacket, process_set_break_points, process_del_break_points,
  process_set_cpu,
}

-- `csum_rslt == csum_expected`, with the byte that `str_to_hex` stored.
unfoldable pub csum_matches : ℕ → Option (List ℕ) → Option Bool
csum_matches csum_rslt (some (csum_expected ∷ [])) = some (csum_rslt == csum_expected)
csum_matches csum_rslt _ = none

-- `packet_csum_verify`; `none` if the digits lie past the packet.
unfoldable pub packet_csum_verify : Packet → Option Bool
unfolding csum_matches
packet_csum_verify inpkt =
    csum_matches (compute_checksum (drop 1 inpkt.content) (inpkt.end_pos - csum_size - 1))
      (str_to_hex (drop (inpkt.end_pos - csum_size + 1) inpkt.content) 1)

module _ {T : Type 0} where
  -- An operation that the target may lack: its handler, or an error.
  unfoldable pub when_there {ℓ} : {F : Type ℓ} → Option F → (F → Cmd T (Unit {0})) → Cmd T Event
  when_there none handler = do reply eperm; pure event_none
  when_there (some f) handler = do handler f; pure event_none

  abbrev pub no_event : Cmd T (Unit {0}) → Cmd T Event
  no_event m = do m; pure event_none

module _ {T : Type 0} (env : Env T) where
  -- The `switch`, on the block of the packet with a NUL over its `#`. `raw` is the block from the
  -- payload on, and `payload_len` the way from there to that NUL.
  unfoldable pub process_request : (request : ℕ) → (raw : List ℕ) → (payload_len : ℕ) → Cmd T Event
  unfolding when_there
  process_request request raw payload_len =
      let payload = cstr raw in
      test request == b'c'
      then process_cont env
      else test request == b'g'
      then when_there env.ops.read_reg (process_reg_read env)
      else test request == b'm'
      then when_there env.ops.read_mem (λ f. process_mem_read env f payload)
      else test request == b'p'
      then when_there env.ops.read_reg (λ f. process_reg_read_one env f payload)
      else test request == b'q'
      then no_event (process_query env payload)
      else test request == b'Q'
      then no_event (process_general_set payload)
      else test request == b's'
      then process_stepi env
      else test request == b'v'
      then process_vpacket env payload
      else test request == b'z'
      then when_there env.ops.del_bp (λ f. process_del_break_points f payload)
      else test request == b'?'
      then no_event (reply (codes "S05"))
      else test request == b'D'
      then (do reply done; pure event_detach)
      else test request == b'G'
      then when_there env.ops.write_reg (λ f. process_reg_write env f payload)
      else test request == b'H'
      then when_there env.ops.set_cpu (λ f. process_set_cpu f payload)
      else test request == b'M'
      then when_there env.ops.write_mem (λ f. process_mem_write env f raw)
      else test request == b'P'
      then when_there env.ops.write_reg (λ f. process_reg_write_one env f payload)
      else test request == b'T'
      then no_event (reply done)
      else test request == b'X'
      then when_there env.ops.write_mem (λ f. process_mem_xwrite env f payload_len raw)
      else test request == b'Z'
      then when_there env.ops.set_bp (λ f. process_set_break_points f payload)
      else no_event (reply [])

  unfoldable pub gdbstub_process_packet : Packet → Cmd T Event
  unfolding process_request
  gdbstub_process_packet inpkt = do
    lift (Base.assert (get_or inpkt.content 0 0 == b'$'))
    let block = set inpkt.content (inpkt.end_pos - csum_size) 0
    process_request (get_or block 1 0) (drop 2 block) (inpkt.end_pos - csum_size - 2)

  -- `async_io` is on while `cont` runs.
  unfoldable pub gdbstub_handle_event : Event → Cmd T Action
  gdbstub_handle_event event_none = pure act_none
  gdbstub_handle_event event_detach = pure act_shutdown
  gdbstub_handle_event event_cont = do
    cont ← non_null env.ops.cont
    s ← get
    let (act, t) = cont (s.target)
    put (record s { target = t; async_io = false })
    pure act
  gdbstub_handle_event event_step = do
    stepi ← non_null env.ops.stepi
    s ← get
    let (act, t) = stepi (s.target)
    put (record s { target = t })
    pure act
