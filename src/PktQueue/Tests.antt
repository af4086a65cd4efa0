-- ===== src/PktQueue/Tests.antt =====
-- The queue on a concrete run of the two threads.
use mini_gdbstub.Base.{
  arith, ◌≡◌, refl, ap, subst, true, false, none, some, List, [], ◌∷◌, map, Result, ok, abort,
  fault,
}
use mini_gdbstub.Packet.{Packet}
use mini_gdbstub.PktQueue.{
  Queue, pktqueue_init, pktqueue_destroy, write, pktqueue_push, link, set_next, unlink,
  pktqueue_pop, pktqueue_signal_shutdown,
}
use mini_gdbstub.PktQueue.Destroy.{Freed, pktqueue_destroy-frees}
use mini_gdbstub.PktQueue.Chain.{IsQueue}
use mini_gdbstub.PktQueue.Fifo
use mini_gdbstub.PktQueue.Fifo.{Reply, done, answer, waits, packet}
use mini_gdbstub.PktQueue.Refine.{
  Op, push, pop, signal_shutdown, IsAllocation, call, run, view, spec_of, Allocates, run_refines,
}

abbrev pub empty_queue : Queue
empty_queue = record { head = 0; tail = 0; shutdown = false; interrupted = false; heap = λ a. none }

fresh_queue : pktqueue_init (λ a. none) true true ≡ (true, empty_queue)
unfolding pktqueue_init
fresh_queue = refl

pub empty-IsQueue : IsQueue empty_queue []
empty-IsQueue = record { chain = refl; tail = refl; distinct = tt }

abbrev pub first : Packet
first = record { end_pos = 4; content = [] }

abbrev pub second : Packet
second = record { end_pos = 5; content = [] }

abbrev script : List Op
script = push 8 first ∷ push 16 second ∷ push 0 first ∷ pop ∷ pop ∷ pop ∷ signal_shutdown ∷ pop ∷ []

script_replies :
    run empty_queue script
    ≡ ok (
        answer true
        ∷ answer true
        ∷ answer false
        ∷ packet (some first)
        ∷ packet (some second)
        ∷ waits
        ∷ done
        ∷ packet none
        ∷ [])
unfolding run call pktqueue_push link set_next pktqueue_pop unlink pktqueue_signal_shutdown
script_replies = refl

-- The queue that a call leaves.
abbrev left : Result (Reply × Queue) → Queue
left (ok (r, q)) = q
left abort = empty_queue
left fault = empty_queue

Allocates-step :
    (q : Queue) (op : Op) (ops : List Op) (r : Reply)
    → IsAllocation q op
    → call q op ≡ ok (r, left (call q op))
    → Allocates (left (call q op)) ops
    → Allocates q (op ∷ ops)
Allocates-step q op ops r free run later =
    (free, λ r' q' e. subst (λ x. Allocates x ops) (ap left e) later)

abbrev pub ops : List Op
ops = push 8 first ∷ push 16 second ∷ pop ∷ []

pub ops-Allocates : Allocates empty_queue ops
unfolding call pktqueue_push link set_next
ops-Allocates =
    Allocates-step empty_queue (push 8 first) (push 16 second ∷ pop ∷ []) (answer true) (λ h. refl)
      refl
      (Allocates-step (left (call empty_queue (push 8 first))) (push 16 second) (pop ∷ [])
        (answer true) (λ h. refl) refl (tt, λ r q e. tt))

run_refines_example : run empty_queue ops ≡ ok (Fifo.run (view empty_queue []) (map spec_of ops))
run_refines_example = run_refines ops empty_queue [] empty-IsQueue ops-Allocates

-- One node, at address 8.
abbrev one : Queue
one = record {
  head = 8;
  tail = 8;
  shutdown = false;
  interrupted = false;
  heap = write (λ a. none) 8 (some (record { pkt = first; next = 0 }));
}

one-IsQueue : IsQueue one ((8, first) ∷ [])
one-IsQueue = record {
  chain = (refl, (λ e. absurd (omega (arith, e))), 0, refl, refl);
  tail = refl;
  distinct = (tt, tt);
}

pktqueue_destroy-frees_example :
    (q' : Queue) × (pktqueue_destroy 1 one ≡ ok q')
    × IsQueue q' []
    × Freed one.heap ((8, first) ∷ []) q'.heap
pktqueue_destroy-frees_example =
    pktqueue_destroy-frees 1 one ((8, first) ∷ []) one-IsQueue (omega arith)
