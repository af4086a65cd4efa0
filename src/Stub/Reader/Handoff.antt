-- ===== src/Stub/Reader/Handoff.antt =====
-- From `socket_reader` through the queue to the main thread of src/gdbstub.c, in any interleaving.
use mini_gdbstub.Base.{
  ◌≡◌, refl, sym, ap, ◌∙◌, Bool, true, false, ◌||◌, some, List, [], ◌∷◌, ◌++◌, All, map,
  append_assoc, append-nil, ◌==◌, if◌then◌else◌, Bool-cases, inl, inr, ok,
}
use mini_gdbstub.Packet.{Packet}
use mini_gdbstub.PktQueue.{null, Queue}
use mini_gdbstub.PktQueue.Chain.{Cells, packets, IsQueue}
use mini_gdbstub.PktQueue.Fifo
use mini_gdbstub.PktQueue.Fifo.{Fifo, Reply}
use mini_gdbstub.PktQueue.Refine.{
  Op, spec_of, view, run, Allocates, run_refines, queue_after, queue_after-IsQueue,
}
use mini_gdbstub.Stub.Reader.{
  Effect, on_interrupt, signal_interrupt, push, try_ack, signal_shutdown,
}

-- The reader's calls on the queue.
unfoldable pub queue_calls : List Effect → List Op
queue_calls [] = []
queue_calls (push node p ∷ es) = Op.push node p ∷ queue_calls es
queue_calls (signal_interrupt ∷ es) = Op.signal_interrupt ∷ queue_calls es
queue_calls (signal_shutdown ∷ es) = Op.signal_shutdown ∷ queue_calls es
queue_calls (on_interrupt ∷ es) = queue_calls es
queue_calls (try_ack ∷ es) = queue_calls es

-- The packets for which there was memory.
unfoldable pub queued : List Op → List Packet
queued [] = []
queued (Op.push node p ∷ ops) = if node == null then queued ops else p ∷ queued ops
queued (_ ∷ ops) = queued ops

-- The packets that the pops handed out.
unfoldable pub handed_out : List Reply → List Packet
handed_out [] = []
handed_out (Fifo.packet (some p) ∷ rs) = p ∷ handed_out rs
handed_out (_ ∷ rs) = handed_out rs

-- A call of the main thread, which pushes nothing.
unfoldable pub pushes : Op → Bool
pushes (Op.push node p) = true
pushes _ = false

-- The calls of two threads, as they come to be made.
pub data Interleaved : List Op → List Op → List Op → Type 0 where
  neither : Interleaved [] [] []
  by_reader :
      (op : Op) (xs ys ops : List Op) → Interleaved xs ys ops → Interleaved (op ∷ xs) ys (op ∷ ops)
  by_main :
      (op : Op) (xs ys ops : List Op) → Interleaved xs ys ops → Interleaved xs (op ∷ ys) (op ∷ ops)

queued-push :
    (op : Op) (ops ops' : List Op)
    → queued ops ≡ queued ops'
    → queued (op ∷ ops) ≡ queued (op ∷ ops')
unfolding queued
queued-push (Op.push node p) ops ops' e = ap (λ ps. if node == null then ps else p ∷ ps) e
queued-push Op.pop ops ops' e = e
queued-push Op.signal_shutdown ops ops' e = e
queued-push Op.signal_interrupt ops ops' e = e
queued-push Op.check_interrupt ops ops' e = e
queued-push Op.is_shutdown ops ops' e = e

queued-other : (op : Op) (ops : List Op) → pushes op ≡ false → queued (op ∷ ops) ≡ queued ops
unfolding queued pushes
queued-other (Op.push node p) ops h = cc
queued-other Op.pop ops h = refl
queued-other Op.signal_shutdown ops h = refl
queued-other Op.signal_interrupt ops h = refl
queued-other Op.check_interrupt ops h = refl
queued-other Op.is_shutdown ops h = refl

queued-Interleaved :
    (xs ys ops : List Op)
    → All (λ (op : Op). pushes op ≡ false) ys
    → Interleaved xs ys ops
    → queued ops ≡ queued xs
queued-Interleaved _ _ _ h neither = refl
queued-Interleaved _ _ _ h (by_reader op xs ys ops i) =
    queued-push op ops xs (queued-Interleaved xs ys ops h i)
queued-Interleaved _ _ _ h (by_main op xs ys ops i) =
    queued-other op ops h.0 ∙ queued-Interleaved xs ys ops h.1 i

-- The packets handed out by calls on the list, and those that it holds after them.
abbrev passed : List Op → Fifo → List Packet
passed ops f = handed_out (Fifo.run f (map spec_of ops)) ++ (Fifo.after f (map spec_of ops)).items

abbrev Conserved : List Op → Fifo → Type 0
Conserved ops f = f.items ++ queued ops ≡ passed ops f

pop-Conserved :
    (ops : List Op)
    → ((f : Fifo) → Conserved ops f)
    → (items : List Packet) (shutdown interrupted : Bool)
    → Conserved
        (Op.pop ∷ ops)
        (record { items = items; shutdown = shutdown; interrupted = interrupted })
unfolding queued handed_out Fifo.run Fifo.after Fifo.step
pop-Conserved ops again (p ∷ items) s i =
    ap (◌∷◌ p) (again (record { items = items; shutdown = s; interrupted = i }))
pop-Conserved ops again [] s i = elim (Bool-cases (s || i)) [
  | inl flag ↦ rw flag (again (record { items = []; shutdown = s; interrupted = i }))
  | inr none_set ↦ rw none_set (again (record { items = []; shutdown = s; interrupted = i }))
]

-- What goes into the list comes out of it in order, or is still in it.
run-Conserved : (ops : List Op) (f : Fifo) → Conserved ops f
unfolding queued handed_out Fifo.run Fifo.after Fifo.step
run-Conserved [] f = append-nil f.items
run-Conserved (Op.push node p ∷ ops) f = elim (Bool-cases (node == null)) [
  | inl out ↦ rw out (run-Conserved ops f)
  | inr got ↦ rw got (
      sym (append_assoc f.items (p ∷ []) (queued ops))
      ∙ run-Conserved ops (record f { items = f.items ++ (p ∷ []) }))
]
run-Conserved (Op.pop ∷ ops) f =
    pop-Conserved ops (run-Conserved ops) f.items f.shutdown f.interrupted
run-Conserved (Op.signal_shutdown ∷ ops) f = run-Conserved ops (record f { shutdown = true })
run-Conserved (Op.signal_interrupt ∷ ops) f = run-Conserved ops (record f { interrupted = true })
run-Conserved (Op.check_interrupt ∷ ops) f = run-Conserved ops (record f { interrupted = false })
run-Conserved (Op.is_shutdown ∷ ops) f = run-Conserved ops f

-- However the calls of the main thread, none of them a push, come between the reader's, with `malloc`
-- returning NULL or free cells: the queue touches no freed memory, and of the packets that waited and
-- those that the reader queued, in order, the main thread is handed the first ones, and the linked
-- queue holds all the others at the end.
pub handoff :
    (es : List Effect) (calls ops : List Op) (q : Queue) (c : Cells)
    → IsQueue q c
    → All (λ (op : Op). pushes op ≡ false) calls
    → Interleaved (queue_calls es) calls ops
    → Allocates q ops
    → (replies : List Reply) × (q' : Queue) × (c' : Cells) × (run q ops ≡ ok replies)
      × (queue_after q ops ≡ ok q')
      × IsQueue q' c'
      × (packets c ++ queued (queue_calls es) ≡ handed_out replies ++ packets c')
handoff es calls ops q c v quiet i a =
    let (q', c', ends, v', left) = queue_after-IsQueue ops q c v a in
    let replies = Fifo.run (view q c) (map spec_of ops) in
    (
      replies,
      q',
      c',
      run_refines ops q c v a,
      ends,
      v',
      ap (λ ps. packets c ++ ps) (sym (queued-Interleaved (queue_calls es) calls ops quiet i))
          ∙ run-Conserved ops (view q c)
          ∙ ap (λ (f : Fifo). handed_out replies ++ f.items) (sym left),
    )
