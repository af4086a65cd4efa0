-- ===== src/PktQueue/Push.antt =====
-- `pktqueue_push` links a node in behind the last one.
use mini_gdbstub.Base.{
  ℕ, ◌≡◌, ◌≢◌, refl, sym, ◌∙◌, true, false, none, some, [], ◌∷◌, ◌++◌, ◌==◌, ne→==, ==_refl, ok,
  subst, append_assoc,
}
use mini_gdbstub.Packet.{Packet}
use mini_gdbstub.PktQueue.{null, Node, write, Queue, set_next, link, pktqueue_push}
use mini_gdbstub.PktQueue.Chain.{
  Cells, Avoids, Chain, Avoids-free, Chain-link, Distinct-snoc, last-snoc, snoc-cases, IsQueue,
  Chain-last, Avoids-last,
}

abbrev pub fresh : Packet → Node
fresh p = record { pkt = p; next = null }

-- A push has linked the node in behind the cells.
abbrev pub Pushed : Queue → Cells → ℕ → Packet → Type 0
Pushed q c node p =
    (q' : Queue) × (pktqueue_push q node p ≡ ok (true, q'))
    × IsQueue q' (c ++ ((node, p) ∷ []))
    × (q'.shutdown ≡ q.shutdown)
    × (q'.interrupted ≡ q.interrupted)

push-empty : (q : Queue) (node : ℕ) (p : Packet) → IsQueue q [] → node ≢ null → Pushed q [] node p
unfolding pktqueue_push
push-empty q node p v ne = (
  record q { head = node; tail = node; heap = write q.heap node (some (fresh p)) },
  rw (ne→== node null ne) (rw (v.tail, link) refl),
  record { chain = (refl, ne, null, rw (==_refl node), refl); tail = refl; distinct = (tt, tt) },
  refl,
  refl,
)

link-ok :
    (q : Queue) (l node : ℕ) (old p : Packet) (n : ℕ)
    → l ≢ null
    → q.tail ≡ l
    → write q.heap node (some (fresh p)) l ≡ some (record { pkt = old; next = n })
    → link (record q { heap = write q.heap node (some (fresh p)) }) node
      ≡ ok (record q {
        tail = node;
        heap =
            write (write q.heap node (some (fresh p))) l (some (record { pkt = old; next = node }));
      })
unfolding link set_next
link-ok q l node old p n nl tail at = rw tail (rw (ne→== l null nl) (rw (at, set_next) refl))

push-behind :
    (q : Queue) (init : Cells) (l node : ℕ) (old p : Packet)
    → IsQueue q (init ++ ((l, old) ∷ []))
    → node ≢ null
    → q.heap node ≡ none
    → Pushed q (init ++ ((l, old) ∷ [])) node p
unfolding pktqueue_push
push-behind q init l node old p v ne free =
    let cs = init ++ ((l, old) ∷ []) in
    let (nl, n, at) = Chain-last q.heap q.head l old init v.chain in
    let out : Avoids node cs = Avoids-free q.heap q.head node cs free v.chain in
    let tail : q.tail ≡ l = v.tail ∙ last-snoc init l old in
    let at' : write q.heap node (some (fresh p)) l ≡ some (record { pkt = old; next = n }) =
      rw (ne→== l node (Avoids-last node l old init out)) at in
    (
      record q {
        tail = node;
        heap =
            write (write q.heap node (some (fresh p))) l (some (record { pkt = old; next = node }));
      },
      rw (ne→== node null ne) (rw (link-ok q l node old p n nl tail at') refl),
      record {
        chain =
            subst (Chain _ q.head) (sym (append_assoc init ((l, old) ∷ []) ((node, p) ∷ [])))
              (Chain-link q.heap q.head node l old p init ne out v.distinct v.chain);
        tail = sym (last-snoc cs node p);
        distinct = Distinct-snoc cs node p out v.distinct;
      },
      refl,
      refl,
    )

-- With a free node, a push succeeds and links it in last.
pub push-link :
    (q : Queue) (c : Cells) (node : ℕ) (p : Packet)
    → IsQueue q c
    → node ≢ null
    → q.heap node ≡ none
    → Pushed q c node p
push-link q [] node p v ne free = push-empty q node p v ne
push-link q (e ∷ c) node p v ne free =
    let (init, l, old, split) = snoc-cases c e in
    subst (λ cs. Pushed q cs node p) (sym split)
      (push-behind q init l node old p (subst (IsQueue q) split v) ne free)

pub push-null :
    (q : Queue) (node : ℕ) (p : Packet)
    → (node == null) ≡ true
    → pktqueue_push q node p ≡ ok (false, q)
unfolding pktqueue_push
push-null q node p e = rw e
