-- ===== src/Stub/Reader.antt =====
-- `socket_reader` of src/gdbstub.c: the thread that assembles packets from the socket.
-- It reads no shared state but two flags, so it is a function from what it meets (the outcomes of its
-- calls, and the flags when it looks at them) to the calls that it makes on the shared state, in
-- order; the main thread's calls may come between any two of them.
pub mod Drain
pub mod Calls
pub mod Rounds
pub mod Arrival
pub mod Handoff
mod Tests
use mini_gdbstub.Base.{
  ℕ, zero, suc, ◌+◌, ◌-◌, Bool, true, false, ◌&&◌, ◌||◌, Option, none, some, List, [], ◌∷◌, ◌++◌,
  length, take, drop, ◌==◌, if◌then◌else◌, Result, ok, fault, ◌>>=◌,
}
use mini_gdbstub.Packet.{
  Packet, Pktbuf, ReadResult, bytes, failed, pktbuf_init, pktbuf_fill_from_file, pktbuf_is_complete,
  pktbuf_pop_packet,
}
use mini_gdbstub.PktQueue.{null}

abbrev pub intr_char : ℕ
intr_char = 3

-- `errno` values, of which EWOULDBLOCK is EAGAIN.
abbrev pub eintr : ℕ
eintr = 4

abbrev pub eagain : ℕ
eagain = 11

-- A call on what the threads share. The `node` of a push is what `malloc` returns there.
pub data Effect : Type 0 where
  on_interrupt : Effect
  signal_interrupt : Effect
  push : (node : ℕ) → Packet → Effect
  -- `conn_try_send_str` of `+`
  try_ack : Effect
  signal_shutdown : Effect

-- What `poll` comes to; where there is input, `read left` is the outcome of reading at most `left`
-- bytes.
pub data Poll : Type 0 where
  poll_error : (errno : ℕ) → Poll
  timed_out : Poll
  no_input : Poll
  readable : (read : ℕ → ReadResult) → Poll

-- What one round of the loop meets: `thread_stop`, the outcome of `poll`, `async_io_enable` when byte
-- `i` is looked at, and the address that `malloc` returns in the push of packet `k`.
pub record Round : Type 0 where
  pub stop : Bool
  pub poll : Poll
  pub async : ℕ → Bool
  pub node : ℕ → ℕ

-- The loop over the bytes received. The target may have no `on_interrupt`.
unfoldable pub scan : (has_handler : Bool) → (async : ℕ → Bool) → (i : ℕ) → List ℕ → List Effect
scan handler async i [] = []
scan handler async i (b ∷ bs) =
    let rest = scan handler async (i + 1) bs in
    if b == intr_char
    then (if async i && handler
        then on_interrupt ∷ signal_interrupt ∷ rest
        else signal_interrupt ∷ rest)
    else rest

-- A packet is acknowledged once it is in the queue.
unfoldable pub delivered : (node : ℕ) → Packet → List Effect → List Effect
delivered node pkt rest =
    if node == null then push node pkt ∷ rest else push node pkt ∷ try_ack ∷ rest

-- The loop over complete packets, on fuel; `none` if the fuel does not last.
unfoldable pub drain :
    (fuel : ℕ) → (node : ℕ → ℕ) → (k : ℕ) → Pktbuf → Result (Option (List Effect × Pktbuf))
unfolding delivered
drain zero node k b = ok none
drain (suc fuel) node k b =
    let (complete, b) = pktbuf_is_complete b in
    elim complete [
      | false ↦ ok (some ([], b))
      | true ↦ do
        (p, b) ← pktbuf_pop_packet b
        elim p [
          | none ↦ drain fuel node k b
          | some pkt ↦ do
            r ← drain fuel node (k + 1) b
            elim r [ none ↦ ok none | some (rest, b) ↦ ok (some (delivered (node k) pkt rest, b)) ]
        ]
    ]

-- The calls made so far, and whether the thread has ended. `unfinished`: the fuel of `drain` is spent.
pub data Progress : Type 0 where
  running : List Effect → Progress
  ended : List Effect → Progress
  unfinished : Progress

abbrev pub after : List Effect → Result Progress → Result Progress
after es r = do
  p ← r
  elim p [
    | running more ↦ ok (running (es ++ more))
    | ended more ↦ ok (ended (es ++ more))
    | unfinished ↦ ok unfinished
  ]

abbrev pub finish : Result Progress
finish = ok (ended (signal_shutdown ∷ []))

module _ (realloc : List ℕ → ℕ → Option (List ℕ)) (has_handler : Bool) where
  -- Bytes have come: interrupts first, then the packets that are complete. Each packet takes at least
  -- a byte, so the fuel lasts.
  unfoldable pub take_in : Round → ℕ → Pktbuf → Result (Option (List Effect × Pktbuf))
  unfolding scan drain
  take_in r nread b = do
    drained ← drain (b.size + 1) r.node 0 b
    elim drained [
      | none ↦ ok none
      | some (es, b') ↦
          ok (
            some
              (scan has_handler r.async 0 (take nread (drop (b.size - nread) b.block)) ++ es, b'))
    ]

  unfoldable pub reader_loop : List Round → Pktbuf → Result Progress
  unfolding take_in
  reader_loop [] b = ok (running [])
  reader_loop (r ∷ rs) b = elim r.stop [
    | true ↦ finish
    | false ↦ elim r.poll [
      | poll_error errno ↦ elim (errno == eintr) [ true ↦ reader_loop rs b | false ↦ finish ]
      | timed_out ↦ reader_loop rs b
      | no_input ↦ reader_loop rs b
      | readable read ↦ do
        (got, b) ← pktbuf_fill_from_file realloc read b
        elim got [
          | failed errno ↦ elim (errno == eintr || errno == eagain) [
            | true ↦ reader_loop rs b
            | false ↦ finish
          ]
          | bytes [] ↦ finish
          | bytes (x ∷ xs) ↦ do
            taken ← take_in r (length (x ∷ xs)) b
            elim taken [ none ↦ ok unfinished | some (es, b) ↦ after es (reader_loop rs b) ]
        ]
    ]
  ]

  unfoldable pub socket_reader : List Round → Result Progress
  unfolding reader_loop pktbuf_init
  socket_reader rounds = reader_loop rounds pktbuf_init
