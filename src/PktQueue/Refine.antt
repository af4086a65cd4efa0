-- ===== src/PktQueue/Refine.antt =====
-- The linked queue behaves as the first-in first-out list of its packets.
use mini_gdbstub.Base.{
  ℕ, ◌≡◌, ◌≢◌, refl, ap, ◌∙◌, inl, inr, Bool, true, false, not, none, List, [], ◌∷◌, ◌++◌, map,
  arith, ◌==◌, ==_iff, Bool-cases, Result, ok, ◌>>=◌,
}
use mini_gdbstub.Packet.{Packet}
use mini_gdbstub.PktQueue.{
  null, Queue, pktqueue_push, Popped, blocked, returned, pktqueue_pop, pktqueue_signal_shutdown,
  pktqueue_signal_interrupt, pktqueue_check_interrupt, pktqueue_is_shutdown,
}
use mini_gdbstub.PktQueue.Chain.{Cells, packets, packets-snoc, IsQueue}
use mini_gdbstub.PktQueue.Fifo
use mini_gdbstub.PktQueue.Fifo.{Fifo, Reply, done, answer, waits, packet}
use mini_gdbstub.PktQueue.Push.{push-link, push-null}
use mini_gdbstub.PktQueue.Pop.{pop-cons, pop-nil}

abbrev pub view : Queue → Cells → Fifo
view q c = record { items = packets c; shutdown = q.shutdown; interrupted = q.interrupted }

-- The calls of the two threads; `node` is what `malloc` returns in a push.
pub data Op : Type 0 where
  push : (node : ℕ) → Packet → Op
  pop signal_shutdown signal_interrupt check_interrupt is_shutdown : Op

abbrev pub reply_of : Popped → Reply
reply_of blocked = waits
reply_of (returned p) = packet p

unfoldable pub call : Queue → Op → Result (Reply × Queue)
call q (push node p) = do (b, q) ← pktqueue_push q node p; ok (answer b, q)
call q pop = do (r, q) ← pktqueue_pop q; ok (reply_of r, q)
call q signal_shutdown = ok (done, pktqueue_signal_shutdown q)
call q signal_interrupt = ok (done, pktqueue_signal_interrupt q)
call q check_interrupt = let (b, q') = pktqueue_check_interrupt q in ok (answer b, q')
call q is_shutdown = ok (answer (pktqueue_is_shutdown q), q)

abbrev pub spec_of : Op → Fifo.Call
spec_of (push node p) = Fifo.push (not (node == null)) p
spec_of pop = Fifo.pop
spec_of signal_shutdown = Fifo.signal_shutdown
spec_of signal_interrupt = Fifo.signal_interrupt
spec_of check_interrupt = Fifo.check_interrupt
spec_of is_shutdown = Fifo.is_shutdown

-- `malloc` returns NULL or the address of a free cell.
abbrev pub IsAllocation : Queue → Op → Type 0
IsAllocation q (push node p) = node ≢ null → q.heap node ≡ none
IsAllocation q _ = Unit {0}

-- The call returns what the list answers, and leaves a queue of the list's packets.
pub record Refines (q : Queue) (op : Op) (f : Reply × Fifo) : Type 0 where
  pub after : Queue
  pub cells : Cells
  pub run : call q op ≡ ok (f.0, after)
  pub valid : IsQueue after cells
  pub items : view after cells ≡ f.1

flags-IsQueue :
    (q : Queue) (c : Cells) (s i : Bool)
    → IsQueue q c
    → IsQueue (record q { shutdown = s; interrupted = i }) c
flags-IsQueue q c s i v = record { chain = v.chain; tail = v.tail; distinct = v.distinct }

push-Refines :
    (q : Queue) (c : Cells) (node : ℕ) (p : Packet)
    → IsQueue q c
    → IsAllocation q (push node p)
    → Refines q (push node p) (Fifo.step (view q c) (spec_of (push node p)))
unfolding call Fifo.step
push-Refines q c node p v free = elim (Bool-cases (node == null)) [
  | inl none_left ↦ record {
    after = q;
    cells = c;
    run = rw (push-null q node p none_left, none_left) refl;
    valid = v;
    items = rw none_left refl;
  }
  | inr got ↦
      let ne : node ≢ null = λ e. cc ((==_iff node null).1 e) in
      let (q', run, v', s, i) = push-link q c node p v ne (free ne) in
      record {
        after = q';
        cells = c ++ ((node, p) ∷ []);
        run = rw (run, got) refl;
        valid = v';
        items = rw (got, packets-snoc c node p, s, i) refl;
      }
]

pop-Refines : (q : Queue) (c : Cells) → IsQueue q c → Refines q pop (Fifo.step (view q c) Fifo.pop)
unfolding call Fifo.step
pop-Refines q [] v = record {
  after = q;
  cells = [];
  run = rw (pop-nil q v.chain) (ground arith);
  valid = v;
  items = ground arith;
}
pop-Refines q ((a, p) ∷ c) v =
    let (q', run, v', s, i) = pop-cons q a p c v in
    record { after = q'; cells = c; run = rw run; valid = v'; items = rw (s, i) refl }

-- Each call of a linked queue in memory, with `malloc` returning NULL or a free cell, answers as
-- the list of its packets does, and leaves a linked queue of the list's packets.
pub call-Refines :
    (q : Queue) (c : Cells) (op : Op)
    → IsQueue q c
    → IsAllocation q op
    → Refines q op (Fifo.step (view q c) (spec_of op))
unfolding call Fifo.step pktqueue_signal_shutdown pktqueue_signal_interrupt pktqueue_check_interrupt
    pktqueue_is_shutdown
call-Refines q c (push node p) v free = push-Refines q c node p v free
call-Refines q c pop v _ = pop-Refines q c v
call-Refines q c signal_shutdown v _ = record {
  after = record q { shutdown = true };
  cells = c;
  run = refl;
  valid = flags-IsQueue q c true q.interrupted v;
  items = refl;
}
call-Refines q c signal_interrupt v _ = record {
  after = record q { interrupted = true };
  cells = c;
  run = refl;
  valid = flags-IsQueue q c q.shutdown true v;
  items = refl;
}
call-Refines q c check_interrupt v _ = record {
  after = record q { interrupted = false };
  cells = c;
  run = refl;
  valid = flags-IsQueue q c q.shutdown false v;
  items = refl;
}
call-Refines q c is_shutdown v _ = record {
  after = q;
  cells = c;
  run = refl;
  valid = v;
  items = refl;
}

unfoldable pub run : Queue → List Op → Result (List Reply)
run q [] = ok []
run q (op ∷ ops) = do (r, q) ← call q op; rs ← run q ops; ok (r ∷ rs)

-- `malloc` keeps its word in each call of a run.
abbrev pub Allocates : Queue → List Op → Type 0
Allocates q [] = Unit {0}
Allocates q (op ∷ ops) =
    IsAllocation q op × ((r : Reply) (q' : Queue) → call q op ≡ ok (r, q') → Allocates q' ops)

-- In every order of calls by the two threads, with `malloc` returning NULL or free cells, a linked
-- queue answers as the list of its packets does: packets come out in the order in which they went
-- in, none is lost or made up, and no call touches freed memory.
pub run_refines :
    (ops : List Op) (q : Queue) (c : Cells)
    → IsQueue q c
    → Allocates q ops
    → run q ops ≡ ok (Fifo.run (view q c) (map spec_of ops))
unfolding run Fifo.run
run_refines [] q c v a = refl
run_refines (op ∷ ops) q c v a =
    let r = call-Refines q c op v a.0 in
    let later = run_refines ops r.after r.cells r.valid (a.1 _ r.after r.run) in
    rw (r.run, later, r.items) refl

-- The queue after the calls.
unfoldable pub queue_after : Queue → List Op → Result Queue
queue_after q [] = ok q
queue_after q (op ∷ ops) = do (r, q) ← call q op; queue_after q ops

-- The calls leave a linked queue of what the list holds after them.
pub queue_after-IsQueue :
    (ops : List Op) (q : Queue) (c : Cells)
    → IsQueue q c
    → Allocates q ops
    → (q' : Queue) × (c' : Cells) × (queue_after q ops ≡ ok q')
      × IsQueue q' c'
      × (view q' c' ≡ Fifo.after (view q c) (map spec_of ops))
unfolding queue_after Fifo.after
queue_after-IsQueue [] q c v a = (q, c, refl, v, refl)
queue_after-IsQueue (op ∷ ops) q c v a =
    let r = call-Refines q c op v a.0 in
    let (q', c', later, v', e) =
      queue_after-IsQueue ops r.after r.cells r.valid (a.1 _ r.after r.run) in
    (q', c', rw (r.run, later) refl, v', e ∙ ap (λ f. Fifo.after f (map spec_of ops)) r.items)
