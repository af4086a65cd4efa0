-- ===== src/PktQueue/Destroy.antt =====
-- `pktqueue_destroy` frees the nodes of the queue, each once, and nothing else.
use mini_gdbstub.Base.{
  ℕ, zero, suc, ◌≤◌, ◌≡◌, refl, sym, subst, ◌∙◌, Bool, true, false, ◌||◌, Option, none, [], ◌∷◌,
  arith, length, ◌==◌, ne→==, if◌then◌else◌, ok,
}
use mini_gdbstub.Packet.{Packet}
use mini_gdbstub.PktQueue.{null, Node, Heap, write, Queue, free_nodes, pktqueue_destroy}
use mini_gdbstub.PktQueue.Chain.{Cells, Distinct, Chain, Chain-write, IsQueue}

-- Whether an address is that of a node.
abbrev pub owns : Cells → ℕ → Bool
owns [] x = false
owns ((a, p) ∷ c) x = x == a || owns c x

abbrev pub Freed : Heap → Cells → Heap → Type 0
Freed h c h' = (x : ℕ) → h' x ≡ (if owns c x then none else h x)

either_free :
    (o b : Bool) (v : Option Node)
    → (if o then none else (if b then none else v)) ≡ (if b || o then none else v)
either_free true true v = refl
either_free true false v = refl
either_free false true v = refl
either_free false false v = refl

Freed-step :
    (h : Heap) (a : ℕ) (p : Packet) (c : Cells) (h' : Heap)
    → Freed (write h a none) c h'
    → Freed h ((a, p) ∷ c) h'
Freed-step h a p c h' f x = f x ∙ either_free (owns c x) (x == a) (h x)

free_nodes-ok :
    (fuel : ℕ) (h : Heap) (node : ℕ) (c : Cells)
    → length c ≤ fuel
    → Chain h node c
    → Distinct c
    → (h' : Heap) × (free_nodes fuel h node ≡ ok h') × Freed h c h'
unfolding free_nodes
free_nodes-ok zero h node [] enough e d = (h, rw e refl, λ x. refl)
free_nodes-ok (suc fuel) h node [] enough e d = (h, rw e refl, λ x. refl)
free_nodes-ok zero h node (e ∷ c) enough chain d = absurd (omega arith)
free_nodes-ok (suc fuel) h node ((a, p) ∷ c) enough (e, ne, n, at, rest) d =
    let (h', run, freed) =
      free_nodes-ok fuel (write h a none) n c (omega arith) (Chain-write h n a none c d.0 rest)
        d.1 in
    (
      h',
      subst (λ x. free_nodes (suc fuel) h x ≡ ok h') (sym e)
          (rw (ne→== a null ne, at, free_nodes) run),
      Freed-step h a p c h' freed,
    )

-- With a round for each node of a linked queue, `pktqueue_destroy` ends without touching freed
-- memory; the nodes are free afterwards, every other cell is as it was, and the queue is empty.
pub pktqueue_destroy-frees :
    (fuel : ℕ) (q : Queue) (c : Cells)
    → IsQueue q c
    → length c ≤ fuel
    → (q' : Queue) × (pktqueue_destroy fuel q ≡ ok q') × IsQueue q' [] × Freed q.heap c q'.heap
unfolding pktqueue_destroy
pktqueue_destroy-frees fuel q c v enough =
    let (h', run, freed) = free_nodes-ok fuel q.heap q.head c enough v.chain v.distinct in
    (
      record q { head = null; tail = null; heap = h' },
      rw run refl,
      record { chain = refl; tail = refl; distinct = tt },
      freed,
    )
