-- ===== src/PktQueue.antt =====
-- src/pktqueue.c: the queue that hands packets from the reader thread to the main thread.
-- The mutex is held over the whole of each function here, so each is one atomic step. A pop that has
-- to wait on the condition variable is `blocked`, and is made again after the next signal.
pub mod Fifo
pub mod Chain
pub mod Push
pub mod Pop
pub mod Refine
pub mod Destroy
pub mod Tests
use mini_gdbstub.Base.{
  ℕ, zero, suc, Bool, true, false, ◌&&◌, not, Option, none, some, List, [], ◌∷◌, ◌==◌,
  if◌then◌else◌, Result, ok, fault, ◌>>=◌,
}
use mini_gdbstub.Packet.{Packet}

-- A pointer is a number, and 0 is NULL.
abbrev pub null : ℕ
null = 0

-- `pktqueue_node_t`
pub record Node : Type 0 where
  pub pkt : Packet
  pub next : ℕ

-- The nodes that are allocated, by address.
abbrev pub Heap : Type 0
Heap = ℕ → Option Node

abbrev pub write : Heap → ℕ → Option Node → Heap
write h p v a = if a == p then v else h a

-- `pktqueue_t`, with the heap in which its nodes lie.
pub record Queue : Type 0 where
  pub head : ℕ
  pub tail : ℕ
  pub shutdown : Bool
  pub interrupted : Bool
  pub heap : Heap

-- The initialisations of the mutex and of the condition variable may fail.
unfoldable pub pktqueue_init : Heap → (mutex_ok cond_ok : Bool) → Bool × Queue
pktqueue_init h mutex_ok cond_ok = (
  mutex_ok && cond_ok,
  record { head = null; tail = null; shutdown = false; interrupted = false; heap = h },
)

-- `queue->tail->next = node`, which needs an allocated node.
unfoldable pub set_next : Heap → ℕ → ℕ → Result Heap
set_next h p next = elim (h p) [
  | none ↦ fault
  | some n ↦ ok (write h p (some (record n { next = next })))
]

-- The node is linked in behind the last one.
unfoldable pub link : Queue → ℕ → Result Queue
unfolding set_next
link q node =
    if q.tail == null
    then ok (record q { head = node; tail = node })
    else do h ← set_next q.heap q.tail node; ok (record q { tail = node; heap = h })

-- `node` is the address that `malloc` returns.
unfoldable pub pktqueue_push : Queue → (node : ℕ) → Packet → Result (Bool × Queue)
unfolding link
pktqueue_push q node pkt = if node == null then ok (false, q) else do
  q ← link (record q { heap = write q.heap node (some (record { pkt = pkt; next = null })) }) node
  ok (true, q)

-- What a call of `pktqueue_pop` comes to.
pub data Popped : Type 0 where
  blocked : Popped
  returned : Option Packet → Popped

-- The first node is unlinked and freed.
unfoldable pub unlink : Queue → Result (Popped × Queue)
unlink q = elim (q.heap q.head) [
  | none ↦ fault
  | some n ↦ ok (
    returned (some n.pkt),
    record q {
      head = n.next;
      tail = if n.next == null then null else q.tail;
      heap = write q.heap q.head none;
    },
  )
]

unfoldable pub pktqueue_pop : Queue → Result (Popped × Queue)
unfolding unlink
pktqueue_pop q =
    if q.head == null && (not q.shutdown && not q.interrupted)
    then ok (blocked, q)
    else if q.shutdown && q.head == null
    then ok (returned none, q)
    else if q.head == null
    then ok (returned none, q)
    else unlink q

unfoldable pub pktqueue_signal_shutdown : Queue → Queue
pktqueue_signal_shutdown q = record q { shutdown = true }

unfoldable pub pktqueue_signal_interrupt : Queue → Queue
pktqueue_signal_interrupt q = record q { interrupted = true }

unfoldable pub pktqueue_check_interrupt : Queue → Bool × Queue
pktqueue_check_interrupt q = (q.interrupted, record q { interrupted = false })

unfoldable pub pktqueue_is_shutdown : Queue → Bool
pktqueue_is_shutdown q = q.shutdown

-- The loop of `pktqueue_destroy`, with a round of fuel for each node.
unfoldable pub free_nodes : ℕ → Heap → ℕ → Result Heap
free_nodes zero h node = if node == null then ok h else fault
free_nodes (suc fuel) h node = elim (node == null) [
  | true ↦ ok h
  | false ↦ elim (h node) [ none ↦ fault | some n ↦ free_nodes fuel (write h node none) n.next ]
]

unfoldable pub pktqueue_destroy : ℕ → Queue → Result Queue
unfolding free_nodes
pktqueue_destroy fuel q = do
  h ← free_nodes fuel q.heap q.head
  ok (record q { head = null; tail = null; heap = h })
