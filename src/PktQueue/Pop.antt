-- ===== src/PktQueue/Pop.antt =====
-- `pktqueue_pop` unlinks the first node.
use mini_gdbstub.Base.{
  ℕ, ◌≡◌, refl, ◌∙◌, false, ◌||◌, none, some, [], ◌∷◌, arith, ◌==◌, if◌then◌else◌, ne→==, ok,
}
use mini_gdbstub.Packet.{Packet}
use mini_gdbstub.PktQueue.{null, Heap, write, Queue, blocked, returned, unlink, pktqueue_pop}
use mini_gdbstub.PktQueue.Chain.{Cells, Chain, last, Chain-write, IsQueue}

tail-after :
    (h : Heap) (n a t : ℕ) (p : Packet) (c : Cells)
    → Chain h n c
    → t ≡ last ((a, p) ∷ c)
    → (if n == null then null else t) ≡ last c
tail-after h n a t p [] e q = rw e
tail-after h n a t p ((b, o) ∷ c) (e, ne, m, at, rest) q = rw (e, ne→== b null ne) q

pop-unlink : (q : Queue) → (q.head == null) ≡ false → pktqueue_pop q ≡ unlink q
unfolding pktqueue_pop
pop-unlink q e = ground arith

unlink-ok :
    (q : Queue) (a n : ℕ) (p : Packet)
    → q.head ≡ a
    → q.heap a ≡ some (record { pkt = p; next = n })
    → unlink q
      ≡ ok (
        returned (some p),
        record q {
          head = n;
          tail = if n == null then null else q.tail;
          heap = write q.heap a none;
        },
      )
unfolding unlink
unlink-ok q a n p e at = rw e (rw (at, unlink) refl)

-- A pop from a queue of packets hands out the first, whatever the flags.
pub pop-cons :
    (q : Queue) (a : ℕ) (p : Packet) (c : Cells)
    → IsQueue q ((a, p) ∷ c)
    → (q' : Queue) × (pktqueue_pop q ≡ ok (returned (some p), q'))
      × IsQueue q' c
      × (q'.shutdown ≡ q.shutdown)
      × (q'.interrupted ≡ q.interrupted)
pop-cons q a p c v =
    let (e, ne, n, at, rest) = v.chain in
    (
      record q { head = n; tail = if n == null then null else q.tail; heap = write q.heap a none },
      pop-unlink q (rw e (ne→== a null ne)) ∙ unlink-ok q a n p e at,
      record {
        chain = Chain-write q.heap n a none c v.distinct.0 rest;
        tail = tail-after q.heap n a q.tail p c rest v.tail;
        distinct = v.distinct.1;
      },
      refl,
      refl,
    )

-- A pop from an empty queue waits, unless a flag is set.
pub pop-nil :
    (q : Queue)
    → q.head ≡ null
    → pktqueue_pop q ≡ ok (if q.shutdown || q.interrupted then returned none else blocked, q)
unfolding pktqueue_pop
pop-nil q e = ground arith
