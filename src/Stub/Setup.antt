-- ===== src/Stub/Setup.antt =====
-- `gdbstub_init` and `gdbstub_close` of src/gdbstub.c, with `conn_init` and `conn_close` of src/conn.c:
-- what they acquire and release. The operating system is the record of which of its calls succeed.
pub mod Balance
mod Tests
use mathlib.Core.Option
use mini_gdbstub.Base.{
  ℕ, zero, suc, ◌+◌, ◌%◌, ◌^◌, Bool, true, false, not, ◌&&◌, Option, none, some, List, [], ◌∷◌,
  ◌==◌, if◌then◌else◌, Result, ok, fault, ◌>>=◌,
}
use mini_gdbstub.Base.Format.{scan_d}
use mini_gdbstub.Conn.{Conn}
use mini_gdbstub.Stub.Monad.{split_at}

-- What is acquired and has to be released once: blocks of memory, mutexes and a condition variable,
-- descriptors, and the reader thread.
pub data Resource : Type 0 where
  priv addr_str regbuf_buf queue_mutex queue_cond send_mutex listen_fd socket_fd reader : Resource

abbrev pub index : Resource → ℕ
index priv = 0
index addr_str = 1
index regbuf_buf = 2
index queue_mutex = 3
index queue_cond = 4
index send_mutex = 5
index listen_fd = 6
index socket_fd = 7
index reader = 8

-- What is held now.
abbrev pub Held : Type 0
Held = List Resource

-- What `socket_reader` works on.
abbrev pub reader_uses : Resource → Bool
reader_uses priv = true
reader_uses queue_mutex = true
reader_uses queue_cond = true
reader_uses send_mutex = true
reader_uses socket_fd = true
reader_uses _ = false

-- To release what is not held is undefined, and so is what a reader thread works on that was created
-- since and still runs.
unfoldable pub release : Resource → Held → Result Held
release r [] = fault
release r (x ∷ h) =
    if index x == index r
    then ok h
    else if index x == index reader && reader_uses r
    then fault
    else (do h' ← release r h; ok (x ∷ h'))

-- Which calls succeed; `inet_aton` tells a TCP address from a path.
pub record Os : Type 0 where
  pub calloc : Bool
  pub strdup : Bool
  pub malloc : Bool
  pub mutex_init : Bool
  pub cond_init : Bool
  pub send_mutex_init : Bool
  pub inet_aton : Bool
  pub socket : Bool
  pub setsockopt : Bool
  pub bind : Bool
  pub listen : Bool
  pub accept : Bool
  pub pthread_create : Bool

-- The labels `fail` and `mutex_fail` of `conn_init`.
unfoldable pub mutex_fail : Held → Result (Bool × Held)
mutex_fail h = do h ← release send_mutex h; ok (false, h)

unfoldable pub conn_fail : Held → Result (Bool × Held)
unfolding mutex_fail
conn_fail h = do h ← release listen_fd h; mutex_fail h

-- The two ways to a bound socket. `SO_REUSEADDR` is set for TCP only.
unfoldable pub is_bound : Os → Bool
is_bound os = if os.inet_aton then (if os.setsockopt then os.bind else false) else os.bind

unfoldable pub conn_init : Os → Held → Result (Bool × Held)
unfolding conn_fail mutex_fail is_bound
conn_init os h =
    if not os.send_mutex_init
    then ok (false, h)
    else if not os.socket
    then mutex_fail (send_mutex ∷ h)
    else if not (is_bound os)
    then conn_fail (listen_fd ∷ send_mutex ∷ h)
    else if not os.listen
    then conn_fail (listen_fd ∷ send_mutex ∷ h)
    else if not os.accept
    then conn_fail (listen_fd ∷ send_mutex ∷ h)
    else ok (true, socket_fd ∷ listen_fd ∷ send_mutex ∷ h)

unfoldable pub conn_close : Held → Result Held
conn_close h = do h ← release socket_fd h; h ← release listen_fd h; release send_mutex h

-- `pktqueue_init` and `pktqueue_destroy`, `regbuf_init` and `regbuf_destroy`, as far as they acquire
-- and release.
unfoldable pub queue_init : Os → Held → Result (Bool × Held)
queue_init os h =
    if not os.mutex_init
    then ok (false, h)
    else if not os.cond_init
    then (do h ← release queue_mutex (queue_mutex ∷ h); ok (false, h))
    else ok (true, queue_cond ∷ queue_mutex ∷ h)

unfoldable pub queue_destroy : Held → Result Held
queue_destroy h = do h ← release queue_cond h; release queue_mutex h

abbrev pub buf_init : Os → Held → Bool × Held
buf_init os h = if os.malloc then (true, regbuf_buf ∷ h) else (false, h)

abbrev pub regbuf_destroy : Held → Result Held
regbuf_destroy h = release regbuf_buf h

-- What a successful `gdbstub_init` has set up.
pub record Ready : Type 0 where
  pub total_reg_bytes : ℕ
  pub host : List ℕ
  pub port : ℕ
  pub conn : Conn

-- The sum of the register sizes, on `size_t`.
unfoldable pub total_bytes : (get_reg_bytes : ℕ → ℕ) → (left i total : ℕ) → ℕ
total_bytes get_reg_bytes zero i total = total
total_bytes get_reg_bytes (suc left) i total =
    total_bytes get_reg_bytes left (i + 1) ((total + get_reg_bytes i) % 2 ^ 64)

-- The port behind the first `:`, 0 if there is none.
unfoldable pub port_of : Option (List ℕ) → Option ℕ
port_of none = some 0
port_of (some port_str) = Option.map (λ (r : ℕ × List ℕ). r.0) (scan_d port_str)

-- The labels of `gdbstub_init`, from the last on.
unfoldable pub priv_fail : Held → Result (Option Ready × Held)
priv_fail h = do h ← release priv h; ok (none, h)

unfoldable pub addr_fail : Held → Result (Option Ready × Held)
unfolding priv_fail
addr_fail h = do h ← release addr_str h; priv_fail h

unfoldable pub regbuf_fail : Held → Result (Option Ready × Held)
unfolding addr_fail
regbuf_fail h = do h ← regbuf_destroy h; addr_fail h

unfoldable pub pktqueue_fail : Held → Result (Option Ready × Held)
unfolding regbuf_fail queue_destroy
pktqueue_fail h = do h ← queue_destroy h; regbuf_fail h

-- What follows once the address is parsed.
unfoldable pub set_up : Os → Ready → Held → Result (Option Ready × Held)
unfolding addr_fail regbuf_fail pktqueue_fail queue_init conn_init
set_up os ready h = do
  let (has_buf, h) = buf_init os h
  elim has_buf [
    | false ↦ addr_fail h
    | true ↦ do
      (has_queue, h) ← queue_init os h
      elim has_queue [
        | false ↦ regbuf_fail h
        | true ↦ do
          (connected, h) ← conn_init os h
          elim connected [
            | false ↦ pktqueue_fail h
            | true ↦ do h ← release addr_str h; ok (some ready, h)
          ]
      ]
  ]

-- `none` for `s` or `false` for `has_ops` is NULL.
unfoldable pub gdbstub_init :
    Os
    → (has_ops : Bool) → (get_reg_bytes : ℕ → ℕ) → (reg_num : ℕ) → Option (List ℕ)
    → Held
    → Result (Option Ready × Held)
unfolding total_bytes port_of priv_fail addr_fail set_up
gdbstub_init os has_ops get_reg_bytes reg_num none h = ok (none, h)
gdbstub_init os has_ops get_reg_bytes reg_num (some s) h =
    if not has_ops
    then ok (none, h)
    else if not os.calloc
    then ok (none, h)
    else if not os.strdup
    then priv_fail (priv ∷ h)
    else (let (host, port_str) = split_at b':' s in
        elim (port_of port_str) [
          | none ↦ addr_fail (addr_str ∷ priv ∷ h)
          | some port ↦
              set_up os
                (record {
                  total_reg_bytes = total_bytes get_reg_bytes reg_num 0 0;
                  host = host;
                  port = port;
                  conn = record { no_ack_mode = false; failure_count = 0 };
                })
                (addr_str ∷ priv ∷ h)
        ])

-- The start of `gdbstub_run`: the reader thread is created unless it is running. The first value is
-- whether it runs now.
unfoldable pub start_reader : Os → (reader_running : Bool) → Held → Bool × Held
start_reader os reader_running h =
    if reader_running
    then (true, h)
    else if os.pthread_create
    then (true, reader ∷ h)
    else (false, h)

-- The thread is waited for before anything that it uses is released.
unfoldable pub gdbstub_close : (reader_running : Bool) → Held → Result Held
unfolding queue_destroy conn_close
gdbstub_close reader_running h = do
  h ← (if reader_running then release reader h else ok h)
  h ← queue_destroy h
  h ← regbuf_destroy h
  h ← conn_close h
  release priv h
