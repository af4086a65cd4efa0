-- ===== src/Stub/Setup/Balance.antt =====
-- Setting a session up and closing it, in src/gdbstub.c and src/conn.c, releases what was acquired.
use mini_gdbstub.Base.{
  ℕ, zero, suc, ◌+◌, ◌%◌, ◌^◌, ◌≡◌, refl, ap, ◌∙◌, arith, Bool, true, false, not, Option, none,
  some, List, ◌∷◌, if◌then◌else◌, Result, ok, ◌>>=◌,
}
use mini_gdbstub.Stub.Types.{Env}
use mini_gdbstub.Stub.Monad.{split_at}
use mini_gdbstub.Stub.Atomic.{offset}
use mini_gdbstub.Stub.Saving.{offset_suc}
use mini_gdbstub.Stub.Setup.{
  priv, addr_str, regbuf_buf, queue_mutex, queue_cond, send_mutex, listen_fd, socket_fd, reader,
  Held, release, Os, mutex_fail, conn_fail, is_bound, conn_init, conn_close, queue_init,
  queue_destroy, Ready, total_bytes, port_of, priv_fail, addr_fail, regbuf_fail, pktqueue_fail,
  set_up, gdbstub_init, start_reader, gdbstub_close,
}

data Connects (h : Held) : Result (Bool × Held) → Type 0 where
  refused : Connects h (ok (false, h))
  connected : Connects h (ok (true, socket_fd ∷ listen_fd ∷ send_mutex ∷ h))

Connects-if :
    (h : Held) (b : Bool) (r r' : Result (Bool × Held))
    → Connects h r
    → Connects h r'
    → Connects h (if b then r else r')
Connects-if h true r r' c c' = c
Connects-if h false r r' c c' = c'

conn_init-Connects : (os : Os) (h : Held) → Connects h (conn_init os h)
unfolding conn_init conn_fail mutex_fail release
conn_init-Connects os h =
    let or = Connects-if h in
    or (not os.send_mutex_init) _ _ refused (
      or (not os.socket) _ _ refused (
        or (not (is_bound os)) _ _ refused
          (or (not os.listen) _ _ refused (or (not os.accept) _ _ refused connected))))

data Queues (h : Held) : Result (Bool × Held) → Type 0 where
  unqueued : Queues h (ok (false, h))
  queued : Queues h (ok (true, queue_cond ∷ queue_mutex ∷ h))

Queues-if :
    (h : Held) (b : Bool) (r r' : Result (Bool × Held))
    → Queues h r
    → Queues h r'
    → Queues h (if b then r else r')
Queues-if h true r r' q q' = q
Queues-if h false r r' q q' = q'

queue_init-Queues : (os : Os) (h : Held) → Queues h (queue_init os h)
unfolding queue_init release
queue_init-Queues os h =
    Queues-if h (not os.mutex_init) _ _ unqueued
      (Queues-if h (not os.cond_init) _ _ unqueued queued)

-- Closing a session in which the reader thread runs, or does not.
abbrev pub closed : Bool × Held → Result Held
closed (running, h) = gdbstub_close running h

module _ {T : Type 0} (env : Env T) (os : Os) (h : Held) where
  -- What `gdbstub_init` comes to: a failure that holds nothing more than before, or a session with the
  -- total size of the registers, which `gdbstub_close` leads back to what was held before, whether or
  -- not its reader thread could be created.
  pub data Balanced : Result (Option Ready × Held) → Type 0 where
    failed : Balanced (ok (none, h))
    ready :
        (r : Ready) (h' : Held)
        → r.total_reg_bytes ≡ offset env env.reg_num % 2 ^ 64
        → closed (start_reader os false h') ≡ ok h
        → Balanced (ok (some r, h'))

  total_bytes-offset :
      (left i total : ℕ)
      → total ≡ offset env i % 2 ^ 64
      → i + left ≡ env.reg_num
      → total_bytes env.ops.get_reg_bytes left i total ≡ offset env env.reg_num % 2 ^ 64
  unfolding total_bytes
  total_bytes-offset zero i total so all =
      let e : i ≡ env.reg_num = omega (arith, all) in so ∙ ap (λ n. offset env n % 2 ^ 64) e
  total_bytes-offset (suc left) i total so all =
      total_bytes-offset left (i + 1) _ (omega (arith, so, offset_suc env i)) (omega (arith, all))

  Balanced-if :
      (b : Bool) (r r' : Result (Option Ready × Held))
      → Balanced r
      → Balanced r'
      → Balanced (if b then r else r')
  Balanced-if true r r' x y = x
  Balanced-if false r r' x y = y

  -- All that a session holds.
  abbrev session : Held
  session = socket_fd ∷ listen_fd ∷ send_mutex ∷ queue_cond ∷ queue_mutex ∷ regbuf_buf ∷ priv ∷ h

  close-back :
      (created : Bool)
      → closed (if created then (true, reader ∷ session) else (false, session)) ≡ ok h
  unfolding gdbstub_close queue_destroy conn_close release
  close-back true = refl
  close-back false = refl

  module _ (r : Ready) (total : r.total_reg_bytes ≡ offset env env.reg_num % 2 ^ 64) where
    abbrev on_conn : Result (Bool × Held) → Result (Option Ready × Held)
    on_conn c = do
      (has_conn, h) ← c
      elim has_conn [ false ↦ pktqueue_fail h | true ↦ do h ← release addr_str h; ok (some r, h) ]

    conn-Balanced :
        (c : Result (Bool × Held))
        → Connects (queue_cond ∷ queue_mutex ∷ regbuf_buf ∷ addr_str ∷ priv ∷ h) c
        → Balanced (on_conn c)
    unfolding pktqueue_fail regbuf_fail addr_fail priv_fail queue_destroy release
    conn-Balanced _ refused = failed
    conn-Balanced _ connected =
        unfold start_reader in ready r session total (close-back os.pthread_create)

    abbrev on_queue : Result (Bool × Held) → Result (Option Ready × Held)
    on_queue q = do
      (has_queue, h) ← q
      elim has_queue [ false ↦ regbuf_fail h | true ↦ on_conn (conn_init os h) ]

    queue-Balanced :
        (q : Result (Bool × Held))
        → Queues (regbuf_buf ∷ addr_str ∷ priv ∷ h) q
        → Balanced (on_queue q)
    unfolding regbuf_fail addr_fail priv_fail release
    queue-Balanced _ unqueued = failed
    queue-Balanced _ queued = conn-Balanced _ (conn_init-Connects os _)

    abbrev on_buf : Bool × Held → Result (Option Ready × Held)
    on_buf (has_buf, h) = elim has_buf [ false ↦ addr_fail h | true ↦ on_queue (queue_init os h) ]

    buf-Balanced :
        (b : Bool)
        → Balanced (
            on_buf (
              if b then (true, regbuf_buf ∷ addr_str ∷ priv ∷ h) else (false, addr_str ∷ priv ∷ h)))
    unfolding addr_fail priv_fail release
    buf-Balanced false = failed
    buf-Balanced true = queue-Balanced _ (queue_init-Queues os (regbuf_buf ∷ addr_str ∷ priv ∷ h))

    set_up-Balanced : Balanced (set_up os r (addr_str ∷ priv ∷ h))
    unfolding set_up
    set_up-Balanced = buf-Balanced os.malloc

  abbrev on_port : (host : List ℕ) → Option ℕ → Result (Option Ready × Held)
  on_port host port = elim port [
    | none ↦ addr_fail (addr_str ∷ priv ∷ h)
    | some port ↦
        set_up os
          (record {
            total_reg_bytes = total_bytes env.ops.get_reg_bytes env.reg_num 0 0;
            host = host;
            port = port;
            conn = record { no_ack_mode = false; failure_count = 0 };
          })
          (addr_str ∷ priv ∷ h)
  ]

  port-Balanced : (host : List ℕ) (port : Option ℕ) → Balanced (on_port host port)
  unfolding addr_fail priv_fail release
  port-Balanced host none = failed
  port-Balanced host (some port) =
      set_up-Balanced _ (total_bytes-offset env.reg_num 0 0 (unfold offset in refl) (omega arith))

  -- Whichever calls of the operating system fail, `gdbstub_init` releases on failure exactly what it
  -- acquired, each once; and on success it has the sum of the register sizes, modulo 2^64, and
  -- `gdbstub_close` releases exactly what is held, each once, and nothing that the reader thread works
  -- on before the thread has ended.
  pub gdbstub_init-Balanced :
      (has_ops : Bool) (s : Option (List ℕ))
      → Balanced (gdbstub_init os has_ops env.ops.get_reg_bytes env.reg_num s h)
  unfolding gdbstub_init priv_fail addr_fail release
  gdbstub_init-Balanced has_ops none = failed
  gdbstub_init-Balanced false (some s) = failed
  gdbstub_init-Balanced true (some s) = Balanced-if (not os.calloc) _ _ failed (
      Balanced-if (not os.strdup) _ _ failed
        (port-Balanced (split_at b':' s).0 (port_of (split_at b':' s).1)))
