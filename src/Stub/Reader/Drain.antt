-- ===== src/Stub/Reader/Drain.antt =====
-- The loop of `socket_reader` in src/gdbstub.c over the packets that are complete.
use mini_gdbstub.Base.{
  ℕ, zero, suc, ◌+◌, ◌≤◌, ◌<◌, ◌≡◌, refl, ◌∙◌, arith, Bool, true, false, ◌||◌, Option, none, some,
  List, [], ◌∷◌, length, length-take, take, find_index, find_index-lt, ltb, leb, ◌==◌, leb→le,
  Bool-cases, Option-cases, inl, inr, Result, ok, fault, ◌>>=◌,
}
use mini_gdbstub.Packet.{
  Packet, Pktbuf, pktbuf_clear, move_head, check_end, pktbuf_is_complete, popped, pop_at,
  pktbuf_pop_packet,
}
use mini_gdbstub.Packet.Invariant.{
  IsValid, pktbuf_clear-IsValid, move_head-IsValid, end_pos-move_head,
}
use mini_gdbstub.Packet.Delivery.{IsIdle, popped-IsIdle}
use mini_gdbstub.Stub.Reader.{Effect, delivered, drain}

-- The calls for packets in order, the first of them number `k`.
unfoldable pub deliveries : (node : ℕ → ℕ) → (k : ℕ) → List Packet → List Effect
deliveries node k [] = []
deliveries node k (p ∷ ps) = delivered (node k) p (deliveries node (k + 1) ps)

-- Packets are taken out until none is complete, or one cannot be.
pub data Drained (node : ℕ → ℕ) (k : ℕ) : Result (Option (List Effect × Pktbuf)) → Type 0 where
  broken : Drained node k fault
  drained :
      (pkts : List Packet) (b : Pktbuf)
      → IsIdle b
      → Drained node k (ok (some (deliveries node k pkts, b)))

-- What `pktbuf_is_complete` finds in a waiting buffer of `n` bytes.
data Found (n : ℕ) : Bool × Pktbuf → Type 0 where
  missing : (b : Pktbuf) → IsIdle b → Found n (false, b)
  found : (b : Pktbuf) (e : ℕ) → IsValid b → b.end_pos ≡ some e → b.size ≤ n → Found n (true, b)

check_end-Found :
    (b : Pktbuf) (n : ℕ) → IsValid b → b.end_pos ≡ none → b.size ≤ n → Found n (check_end b)
unfolding check_end
check_end-Found b n v idle small = elim (Option-cases (find_index b'#' (take b.size b.block))) [
  | inl miss ↦ rw (check_end, miss) (missing b (record { valid = v; idle = idle }))
  | inr (p, hit) ↦ elim (Bool-cases (ltb b.size (p + 2))) [
    | inl short ↦ rw (check_end, hit) (rw short (missing b (record { valid = v; idle = idle })))
    | inr long ↦
        rw (check_end, hit)
          (rw long (
            found (record b { end_pos = some (p + 2) }) (p + 2)
              (record { block_size = v.block_size; fits = v.fits; end_in = λ k q. ground arith })
              refl small))
  ]
]

size-move_head : (b : Pktbuf) (h : ℕ) → (move_head b h).size ≤ b.size
unfolding move_head
size-move_head b h = ground arith

complete-Found : (b : Pktbuf) → IsIdle b → Found b.size (pktbuf_is_complete b)
unfolding pktbuf_is_complete
complete-Found b i = elim (Option-cases (find_index b'$' (take b.size b.block))) [
  | inl miss ↦
      rw (pktbuf_is_complete, miss)
        (missing (pktbuf_clear b)
          (record { valid = pktbuf_clear-IsValid b i.valid; idle = unfold pktbuf_clear in refl }))
  | inr (h, hit) ↦
      rw (pktbuf_is_complete, hit)
        (check_end-Found (move_head b h) b.size
          (move_head-IsValid b h i.valid
            (omega (arith, find_index-lt _ _ h hit, length-take b.size b.block)) i.idle)
          (end_pos-move_head b h ∙ i.idle) (size-move_head b h))
]

-- A packet is taken out, which takes bytes, or the copy is undefined.
data Taken (n : ℕ) : Result (Option Packet × Pktbuf) → Type 0 where
  lost : Taken n fault
  taken : (p : Packet) (b : Pktbuf) → IsIdle b → b.size < n → Taken n (ok (some p, b))

pop-Taken :
    (b : Pktbuf) (e n : ℕ)
    → IsValid b
    → b.end_pos ≡ some e
    → b.size ≤ n
    → Taken n (pktbuf_pop_packet b)
unfolding pktbuf_pop_packet pop_at
pop-Taken b e n v at small =
    rw (at, pktbuf_pop_packet)
      (elim (Bool-cases (leb (e + 1) (length b.block))) [
        | inr out ↦ rw out lost
        | inl in_block ↦ elim (Bool-cases (leb (e + 1) b.size)) [
          | inr out ↦ rw (in_block, out) lost
          | inl whole ↦ elim (Bool-cases (b.size == e + 1 || ltb b.size (length b.block))) [
            | inr out ↦ rw (in_block, whole, out) lost
            | inl room ↦
                rw (in_block, whole, room)
                  (taken (popped b e).0 (popped b e).1 (popped-IsIdle b e v)
                    (shorter (leb→le (e + 1) b.size whole)))
          ]
        ]
      ])
  where
    shorter : e + 1 ≤ b.size → (popped b e).1.size < n
    shorter h = unfold popped in omega (arith, h, small)

module _ (fuel : ℕ) (node : ℕ → ℕ) (k : ℕ) where
  -- What a turn of the loop does with the rest, with a packet, and with what is found.
  abbrev pub on_rest :
      Packet → Result (Option (List Effect × Pktbuf)) → Result (Option (List Effect × Pktbuf))
  on_rest pkt rest = do
    r ← rest
    elim r [ none ↦ ok none | some (rest, b) ↦ ok (some (delivered (node k) pkt rest, b)) ]

  abbrev pub on_pop : Result (Option Packet × Pktbuf) → Result (Option (List Effect × Pktbuf))
  on_pop r = do
    (p, b) ← r
    elim p [ none ↦ drain fuel node k b | some pkt ↦ on_rest pkt (drain fuel node (k + 1) b) ]

  abbrev pub on_complete : Bool × Pktbuf → Result (Option (List Effect × Pktbuf))
  on_complete (complete, b) = elim complete [
    | false ↦ ok (some ([], b))
    | true ↦ on_pop (pktbuf_pop_packet b)
  ]

  rest-Drained :
      (p : Packet) (r : Result (Option (List Effect × Pktbuf)))
      → Drained node (k + 1) r
      → Drained node k (on_rest p r)
  unfolding deliveries
  rest-Drained p _ broken = broken
  rest-Drained p _ (drained ps b i) = drained (p ∷ ps) b i

  module _ (n : ℕ) (enough : n ≤ fuel)
      (again : (b : Pktbuf)
        → IsIdle b
        → b.size < n
        → Drained node (k + 1) (drain fuel node (k + 1) b)) where
    pop-Drained : (r : Result (Option Packet × Pktbuf)) → Taken n r → Drained node k (on_pop r)
    pop-Drained _ lost = broken
    pop-Drained _ (taken p b i less) = rest-Drained p (drain fuel node (k + 1) b) (again b i less)

    turn-Drained : (r : Bool × Pktbuf) → Found n r → Drained node k (on_complete r)
    unfolding deliveries
    turn-Drained _ (missing b i) = drained [] b i
    turn-Drained _ (found b e v at small) =
        pop-Drained (pktbuf_pop_packet b) (pop-Taken b e n v at small)

-- From a waiting buffer, with more fuel than bytes, the loop ends: it has put each packet that it took
-- out into the queue, in order, each acknowledged if it went in; or a packet could not be taken out.
pub drain-Drained :
    (fuel : ℕ) (node : ℕ → ℕ) (k : ℕ) (b : Pktbuf)
    → IsIdle b
    → b.size < fuel
    → Drained node k (drain fuel node k b)
unfolding drain
drain-Drained zero node k b i lt = absurd (omega arith)
drain-Drained (suc fuel) node k b i lt =
    turn-Drained fuel node k b.size (omega (arith, lt))
      (λ b1 i1 less. drain-Drained fuel node (k + 1) b1 i1 (omega (arith, lt, less)))
      (pktbuf_is_complete b) (complete-Found b i)
