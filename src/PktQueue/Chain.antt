-- ===== src/PktQueue/Chain.antt =====
-- The nodes of the queue in memory: a chain of distinct addresses that ends in NULL.
use mini_gdbstub.Base.{
  ℕ, ◌≡◌, ◌≢◌, refl, sym, ap, Option, none, some, List, [], ◌∷◌, ◌++◌, All, ne→==, ==_refl,
}
use mini_gdbstub.Packet.{Packet}
use mini_gdbstub.PktQueue.{null, Node, Heap, write, Queue}

-- Address and packet of each node, in order.
abbrev pub Cells : Type 0
Cells = List (ℕ × Packet)

abbrev pub packets : Cells → List Packet
packets [] = []
packets ((a, p) ∷ c) = p ∷ packets c

abbrev pub Avoids : ℕ → Cells → Type 0
Avoids a = All (λ (e : ℕ × Packet). e.0 ≢ a)

abbrev pub Distinct : Cells → Type 0
Distinct [] = Unit {0}
Distinct ((a, p) ∷ c) = Avoids a c × Distinct c

-- From `p` the `next` pointers lead through the nodes of `c` to NULL.
abbrev pub Chain : Heap → ℕ → Cells → Type 0
Chain h p [] = p ≡ null
Chain h p ((a, pkt) ∷ c) =
    (p ≡ a) × (a ≢ null) × (n : ℕ) × (h a ≡ some (record { pkt = pkt; next = n })) × Chain h n c

abbrev pub last : Cells → ℕ
last [] = null
last ((a, p) ∷ []) = a
last ((a, p) ∷ e ∷ c) = last (e ∷ c)

-- A write elsewhere leaves the chain as it is.
pub Chain-write :
    (h : Heap) (p a : ℕ) (v : Option Node) (c : Cells)
    → Avoids a c
    → Chain h p c
    → Chain (write h a v) p c
Chain-write h p a v [] out e = e
Chain-write h p a v ((b, pkt) ∷ c) out (e, ne, n, at, rest) =
    (e, ne, n, rw (ne→== b a out.0) at, Chain-write h n a v c out.1 rest)

-- A free address is in no chain.
pub Avoids-free : (h : Heap) (p a : ℕ) (c : Cells) → h a ≡ none → Chain h p c → Avoids a c
Avoids-free h p a [] free e = tt
Avoids-free h p a ((b, pkt) ∷ c) free (e, ne, n, at, rest) =
    ((λ q. cc (ap h q)), Avoids-free h n a c free rest)

pub Avoids-last : (b l : ℕ) (p : Packet) (c : Cells) → Avoids b (c ++ ((l, p) ∷ [])) → l ≢ b
Avoids-last b l p [] out = out.0
Avoids-last b l p (e ∷ c) out = Avoids-last b l p c out.1

Avoids-snoc :
    (b : ℕ) (c : Cells) (a : ℕ) (p : Packet) → Avoids b c → a ≢ b → Avoids b (c ++ ((a, p) ∷ []))
Avoids-snoc b [] a p out ne = (ne, tt)
Avoids-snoc b (e ∷ c) a p out ne = (out.0, Avoids-snoc b c a p out.1 ne)

-- The last node is allocated.
pub Chain-last :
    (h : Heap) (p l : ℕ) (old : Packet) (c : Cells)
    → Chain h p (c ++ ((l, old) ∷ []))
    → (l ≢ null) × (n : ℕ) × (h l ≡ some (record { pkt = old; next = n }))
Chain-last h p l old [] (e, ne, n, at, rest) = (ne, n, at)
Chain-last h p l old ((b, q) ∷ c) (e, ne, n, at, rest) = Chain-last h n l old c rest

-- Linking a new node behind the last one.
pub Chain-link :
    (h : Heap) (p node l : ℕ) (old new : Packet) (c : Cells)
    → node ≢ null
    → Avoids node (c ++ ((l, old) ∷ []))
    → Distinct (c ++ ((l, old) ∷ []))
    → Chain h p (c ++ ((l, old) ∷ []))
    → Chain
        (write
          (write h node (some (record { pkt = new; next = null })))
          l
          (some (record { pkt = old; next = node })))
        p
        (c ++ ((l, old) ∷ (node, new) ∷ []))
Chain-link h p node l old new [] ne out d (e, nl, n, at, end) = (
  e,
  nl,
  node,
  rw (==_refl l),
  (refl, ne, null, rw (ne→== node l (λ q. out.0 (sym q)), ==_refl node), refl),
)
Chain-link h p node l old new ((b, pkt) ∷ c) ne out d (e, nb, n, at, rest) = (
  e,
  nb,
  n,
  rw (ne→== b l (λ q. Avoids-last b l old c d.0 (sym q)), ne→== b node out.0) at,
  Chain-link h n node l old new c ne out.1 d.1 rest,
)

pub Distinct-snoc :
    (c : Cells) (a : ℕ) (p : Packet) → Avoids a c → Distinct c → Distinct (c ++ ((a, p) ∷ []))
Distinct-snoc [] a p out d = (tt, tt)
Distinct-snoc ((b, q) ∷ c) a p out d =
    (Avoids-snoc b c a p d.0 (λ e. out.0 (sym e)), Distinct-snoc c a p out.1 d.1)

pub last-snoc : (c : Cells) (a : ℕ) (p : Packet) → last (c ++ ((a, p) ∷ [])) ≡ a
last-snoc [] a p = refl
last-snoc (e ∷ []) a p = refl
last-snoc (e ∷ f ∷ c) a p = last-snoc (f ∷ c) a p

pub packets-snoc :
    (c : Cells) (a : ℕ) (p : Packet) → packets (c ++ ((a, p) ∷ [])) ≡ packets c ++ (p ∷ [])
packets-snoc [] a p = refl
packets-snoc ((b, q) ∷ c) a p = ap (◌∷◌ q) (packets-snoc c a p)

-- The last node of a chain that is not empty, split off.
pub snoc-cases :
    (c : Cells) (e : ℕ × Packet)
    → (init : Cells) × (l : ℕ) × (p : Packet) × (e ∷ c ≡ init ++ ((l, p) ∷ []))
snoc-cases [] (l, p) = ([], l, p, refl)
snoc-cases (f ∷ c) e = let (init, l, p, q) = snoc-cases c f in (e ∷ init, l, p, ap (◌∷◌ e) q)

-- The nodes `c` make up the queue.
pub record IsQueue (q : Queue) (c : Cells) : Type 0 where
  pub chain : Chain q.heap q.head c
  pub tail : q.tail ≡ last c
  pub distinct : Distinct c
