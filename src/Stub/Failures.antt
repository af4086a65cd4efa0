-- ===== src/Stub/Failures.antt =====
-- Packets that fail their checksum: answered with `-`, counted, and at fifty in a row the end.
use mini_gdbstub.Base.{
  ℕ, zero, suc, ◌+◌, ◌<◌, ◌≡◌, refl, ap, ◌∙◌, Bool, true, false, none, some, List, [], ◌∷◌, ◌++◌,
  map, arith, length, All, leb, lt→leb, le→leb, if◌then◌else◌, ok,
}
use mini_gdbstub.Packet.{Packet}
use mini_gdbstub.Stub.Types.{Env, Stub}
use mini_gdbstub.Stub.Monad.{Cmd, ◌>>=◌, ◌>>◌, pure, non_null, get, put, test◌then◌else◌}
use mini_gdbstub.Stub.Steps.{bind-ok, then-ok}
use mini_gdbstub.Stub.Dispatch.{packet_csum_verify}
use mini_gdbstub.Stub.Run.{
  Arrival, arrived, conn_max_failures, ack, nack, send_str, acknowledge, reject, serve, on_arrival,
  run_loop, unless_done,
}

module _ {T : Type 0} where
  -- The state once an acknowledgement is out, if they are wanted.
  abbrev pub noted : List ℕ → Stub T → Stub T
  noted str s = if s.conn.no_ack_mode then s else record s { sent = s.sent ++ (str ∷ []) }

  abbrev pub counted : Stub T → Stub T
  counted s = record s { conn = record (s.conn) { failure_count = s.conn.failure_count + 1 } }

  -- The state after `n` packets that failed their checksum.
  unfoldable pub after_failures : ℕ → Stub T → Stub T
  after_failures zero s = s
  after_failures (suc n) s = after_failures n (counted (noted nack s))

  acknowledge-ok :
      (b : Bool) (s : Stub T) → acknowledge b s ≡ ok (tt, noted (if b then ack else nack) s)
  unfolding acknowledge send_str ◌>>=◌ get test◌then◌else◌ put pure
  acknowledge-ok b s = ground arith

  failure_count-noted :
      (str : List ℕ) (s : Stub T) → (noted str s).conn.failure_count ≡ s.conn.failure_count
  failure_count-noted str s = ground arith

module _ {T : Type 0} (env : Env T) where
  verified :
      {A : Type 0} (p : Packet) (f : Bool → Cmd T A) (s : Stub T) (b : Bool)
      → packet_csum_verify p ≡ some b
      → (non_null (packet_csum_verify p) >>= f) s ≡ f b s
  unfolding non_null ◌>>=◌
  verified p f s b e = rw e refl

  on_bad :
      (p : Packet) (s : Stub T)
      → packet_csum_verify p ≡ some false
      → on_arrival env (arrived p) s
        ≡ ok (
          (if leb conn_max_failures ((noted nack s).conn.failure_count + 1)
              then some false
              else none),
          counted (noted nack s),
        )
  unfolding on_arrival
  on_bad p s bad =
      verified p _ s false bad
      ∙ then-ok (acknowledge false) _ s (acknowledge-ok false s)
      ∙ (unfold test◌then◌else◌ reject ◌>>=◌ ◌>>◌ get put pure in refl)

  -- A packet that passes its checksum is acknowledged and served.
  pub on_good :
      (p : Packet) (s : Stub T)
      → packet_csum_verify p ≡ some true
      → on_arrival env (arrived p) s ≡ serve env p (noted ack s)
  unfolding on_arrival test◌then◌else◌
  on_good p s good =
      verified p _ s true good ∙ then-ok (acknowledge true) _ s (acknowledge-ok true s)

  -- Packets that fail their checksum, fewer than fifty in a row, are each answered with `-` unless
  -- acknowledgements are off, and counted, and the loop goes on with the target as it was.
  pub run_loop-failures :
      (bad : List Packet) (more : List Arrival) (s : Stub T)
      → All (λ p. packet_csum_verify p ≡ some false) bad
      → s.conn.failure_count + length bad < conn_max_failures
      → run_loop env (map arrived bad ++ more) s ≡ run_loop env more (after_failures (length bad) s)
  unfolding run_loop after_failures unless_done
  run_loop-failures [] more s h few = refl
  run_loop-failures (p ∷ bad) more s h few =
      let count = failure_count-noted nack s in
      let early : leb conn_max_failures ((noted nack s).conn.failure_count + 1) ≡ false =
        lt→leb _ _ (omega (arith, count)) in
      bind-ok (on_arrival env (arrived p)) _ s (
        on_bad p s h.0
        ∙ ap (λ b. ok ((if b then some false else none), counted (noted nack s))) early)
      ∙ run_loop-failures bad more (counted (noted nack s)) h.1 (omega (arith, count))

  -- The fiftieth failure in a row ends the session with an error, whatever is still to come.
  pub run_loop-gives_up :
      (bad : List Packet) (last : Packet) (more : List Arrival) (s : Stub T)
      → All (λ p. packet_csum_verify p ≡ some false) bad
      → packet_csum_verify last ≡ some false
      → s.conn.failure_count + length bad + 1 ≡ conn_max_failures
      → run_loop env (map arrived bad ++ (arrived last ∷ more)) s
        ≡ ok (some false, after_failures (suc (length bad)) s)
  unfolding run_loop after_failures unless_done
  run_loop-gives_up [] last more s h hl full =
      let count = failure_count-noted nack s in
      let late : leb conn_max_failures ((noted nack s).conn.failure_count + 1) ≡ true =
        le→leb _ _ (omega (arith, count)) in
      bind-ok (on_arrival env (arrived last)) _ s (
        on_bad last s hl
        ∙ ap (λ b. ok ((if b then some false else none), counted (noted nack s))) late)
      ∙ (unfold pure in refl)
  run_loop-gives_up (p ∷ bad) last more s h hl full =
      let count = failure_count-noted nack s in
      let early : leb conn_max_failures ((noted nack s).conn.failure_count + 1) ≡ false =
        lt→leb _ _ (omega (arith, count)) in
      bind-ok (on_arrival env (arrived p)) _ s (
        on_bad p s h.0
        ∙ ap (λ b. ok ((if b then some false else none), counted (noted nack s))) early)
      ∙ run_loop-gives_up bad last more (counted (noted nack s)) h.1 hl (omega (arith, count))
