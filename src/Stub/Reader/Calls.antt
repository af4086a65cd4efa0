-- ===== src/Stub/Reader/Calls.antt =====
-- What `socket_reader` of src/gdbstub.c calls for the bytes and the packets that have come.
use mini_gdbstub.Base.{
  ℕ, ◌+◌, ◌≡◌, ◌≢◌, Bool, true, false, ◌&&◌, List, [], ◌∷◌, ◌==◌, ==_iff, Bool-cases, inl, inr,
  arith,
}
use mini_gdbstub.Packet.{Packet}
use mini_gdbstub.PktQueue.{null}
use mini_gdbstub.Stub.Reader.{
  Effect, on_interrupt, signal_interrupt, push, try_ack, scan, delivered, intr_char,
}
use mini_gdbstub.Stub.Reader.Drain.{deliveries}

-- The calls for bytes, the first of them number `i`: for each interrupt character and no other byte,
-- the queue hears of it, and just before it the target, if it runs then and has a handler.
pub data Heard (has_handler : Bool) (async : ℕ → Bool) : ℕ → List ℕ → List Effect → Type 0 where
  silence : (i : ℕ) → Heard has_handler async i [] []
  other :
      (i b : ℕ) (bs : List ℕ) (es : List Effect)
      → b ≢ intr_char
      → Heard has_handler async (i + 1) bs es
      → Heard has_handler async i (b ∷ bs) es
  handled :
      (i : ℕ) (bs : List ℕ) (es : List Effect)
      → async i ≡ true
      → has_handler ≡ true
      → Heard has_handler async (i + 1) bs es
      → Heard has_handler async i (intr_char ∷ bs) (on_interrupt ∷ signal_interrupt ∷ es)
  noted :
      (i : ℕ) (bs : List ℕ) (es : List Effect)
      → (async i && has_handler) ≡ false
      → Heard has_handler async (i + 1) bs es
      → Heard has_handler async i (intr_char ∷ bs) (signal_interrupt ∷ es)

-- The calls for packets, the first of them number `k`: each goes to the queue, and is acknowledged at
-- once exactly if there is memory for its node.
pub data Queued (node : ℕ → ℕ) : ℕ → List Packet → List Effect → Type 0 where
  no_more : (k : ℕ) → Queued node k [] []
  acknowledged :
      (k : ℕ) (p : Packet) (ps : List Packet) (es : List Effect)
      → node k ≢ null
      → Queued node (k + 1) ps es
      → Queued node k (p ∷ ps) (push (node k) p ∷ try_ack ∷ es)
  lost :
      (k : ℕ) (p : Packet) (ps : List Packet) (es : List Effect)
      → node k ≡ null
      → Queued node (k + 1) ps es
      → Queued node k (p ∷ ps) (push (node k) p ∷ es)

pub scan-Heard :
    (handler : Bool) (async : ℕ → Bool) (i : ℕ) (bs : List ℕ)
    → Heard handler async i bs (scan handler async i bs)
unfolding scan
scan-Heard handler async i [] = silence i
scan-Heard handler async i (b ∷ bs) =
    let rest = scan handler async (i + 1) bs in
    let h = scan-Heard handler async (i + 1) bs in
    elim (Bool-cases (b == intr_char)) [
      | inr apart ↦ rw (scan, apart) (other i b bs rest (λ e. cc ((==_iff b intr_char).1 e)) h)
      | inl intr ↦
          let e : b ≡ intr_char = (==_iff b intr_char).0 intr in
          rw (scan, intr)
            (elim (Bool-cases (async i && handler)) [
              | inl runs ↦
                  rw (runs, e) (handled i bs rest (ground (arith, runs)) (ground (arith, runs)) h)
              | inr idle ↦ rw (idle, e) (noted i bs rest idle h)
            ])
    ]

pub delivered-Queued :
    (node : ℕ → ℕ) (k : ℕ) (p : Packet) (ps : List Packet) (es : List Effect)
    → Queued node (k + 1) ps es
    → Queued node k (p ∷ ps) (delivered (node k) p es)
unfolding delivered
delivered-Queued node k p ps es q = elim (Bool-cases (node k == null)) [
  | inl out ↦ rw (out, delivered) (lost k p ps es ((==_iff (node k) null).0 out) q)
  | inr got ↦ rw (got, delivered) (acknowledged k p ps es (λ e. cc ((==_iff (node k) null).1 e)) q)
]

pub deliveries-Queued :
    (node : ℕ → ℕ) (k : ℕ) (ps : List Packet) → Queued node k ps (deliveries node k ps)
unfolding deliveries
deliveries-Queued node k [] = no_more k
deliveries-Queued node k (p ∷ ps) =
    delivered-Queued node k p ps _ (deliveries-Queued node (k + 1) ps)
