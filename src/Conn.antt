-- ===== src/Conn.antt =====
-- src/conn.c: sending on the connection, and the framing of a reply.
-- The socket is the list of the outcomes of its `poll` and `write` calls, one to a round of the loop.
pub mod Delivery
mod Tests
use mini_gdbstub.Base.{
  ℕ, ◌+◌, ◌/◌, ◌%◌, Bool, true, false, ◌&&◌, ◌||◌, not, Option, none, some, List, [], ◌∷◌, ◌++◌,
  length, take, drop, ltb, leb, ◌==◌, if◌then◌else◌, Result, ok, ◌>>=◌, ◌>>◌, assert,
}
use mini_gdbstub.Csum.{compute_checksum}
use mini_gdbstub.Translate.{hexchar}

abbrev pub max_send_packet_size : ℕ
max_send_packet_size = 0x1000

abbrev pub max_data_payload : ℕ
max_data_payload = 4090

-- The protocol state of `conn_t`.
pub record Conn : Type 0 where
  pub no_ack_mode : Bool
  pub failure_count : ℕ

-- What a failing `write` leaves in `errno`.
pub data Errno : Type 0 where
  eintr eagain ewouldblock other : Errno

-- One round: `poll` times out, or `write` returns a count or fails.
pub data Turn : Type 0 where
  unwritable : Turn
  wrote : ℕ → Turn
  write_error : Errno → Turn

abbrev pub conn_send_timeout_ms : ℕ
conn_send_timeout_ms = 5000

abbrev pub conn_send_poll_ms : ℕ
conn_send_poll_ms = 100

-- `errno == EINTR || (timeout && (errno == EAGAIN || errno == EWOULDBLOCK))`
unfoldable pub retries : (timeout : ℕ) → Errno → Bool
retries timeout eintr = true
retries timeout eagain = ltb 0 timeout
retries timeout ewouldblock = ltb 0 timeout
retries timeout other = false

-- The result (`none` while the loop goes on) and the bytes that went out.
pub record Sent : Type 0 where
  pub result : Option Bool
  pub out : List ℕ

abbrev pub after : List ℕ → Sent → Sent
after xs s = record { result = s.result; out = xs ++ s.out }

-- The loop of `__conn_send_str`.
unfoldable pub send_loop : (timeout waited : ℕ) → List ℕ → List Turn → Sent
unfolding retries
send_loop timeout waited [] turns = record { result = some true; out = [] }
send_loop timeout waited (x ∷ str) [] = record { result = none; out = [] }
send_loop timeout waited (x ∷ str) (unwritable ∷ turns) =
    let again = send_loop timeout (waited + conn_send_poll_ms) (x ∷ str) turns in
    if leb timeout (waited + conn_send_poll_ms)
    then record { result = some false; out = [] }
    else again
send_loop timeout waited (x ∷ str) (wrote n ∷ turns) =
    after (take n (x ∷ str)) (send_loop timeout 0 (drop n (x ∷ str)) turns)
send_loop timeout waited (x ∷ str) (write_error e ∷ turns) =
    let again = send_loop timeout waited (x ∷ str) turns in
    if retries timeout e then again else record { result = some false; out = [] }

-- `pthread_mutex_trylock` fails while another thread holds the mutex.
unfoldable pub conn_try_send_str : (locked : Bool) → List ℕ → List Turn → Sent
conn_try_send_str locked str turns =
    if locked then record { result = some false; out = [] } else send_loop 0 0 str turns

-- The result is dropped by the code.
unfoldable pub conn_send_str : List ℕ → List Turn → Sent
conn_send_str str turns = send_loop conn_send_timeout_ms 0 str turns

-- `snprintf(csum_str, 3, "%02x", csum)`
unfoldable pub hex_byte : ℕ → List ℕ
hex_byte c = hexchar (c / 16) ∷ hexchar (c % 16) ∷ []

-- The text that `conn_send_pktstr` builds around `pktstr`, and passes to `conn_send_str`.
unfoldable pub packet_text : List ℕ → List ℕ
unfolding hex_byte
packet_text pktstr = b'$' ∷ (pktstr ++ (b'#' ∷ hex_byte (compute_checksum pktstr (length pktstr))))

unfoldable pub conn_send_pktstr : List ℕ → Result (List ℕ)
unfolding packet_text
conn_send_pktstr pktstr = do
  assert (ltb (length pktstr + 2 + 2 + 1) max_send_packet_size)
  ok (packet_text pktstr)
