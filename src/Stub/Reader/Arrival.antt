-- ===== src/Stub/Reader/Arrival.antt =====
-- A packet that arrives at `socket_reader` of src/gdbstub.c.
use mini_gdbstub.Base.{
  ℕ, suc, ◌+◌, ◌-◌, ◌≡◌, refl, ap, ◌∙◌, arith, Bool, true, false, Option, none, some, List, [], ◌∷◌,
  ◌++◌, length, take, drop, find_index, if◌then◌else◌, ok, length-append, take-drop, drop-append,
}
use mini_gdbstub.Packet.{Packet, Pktbuf, pktbuf_clear, pktbuf_is_complete, pktbuf_pop_packet}
use mini_gdbstub.Packet.Invariant.{pktbuf_clear-IsValid}
use mini_gdbstub.Packet.Fill.{contents}
use mini_gdbstub.Packet.Complete.{Holds, length-contents, size_parts}
use mini_gdbstub.Packet.Extract.{next_packet, packet_of}
use mini_gdbstub.Packet.Delivery.{IsIdle, deliver_alone}
use mini_gdbstub.Stub.Reader.Calls.{Heard, Queued, no_more, scan-Heard, delivered-Queued}
use mini_gdbstub.Stub.Reader.{Effect, Round, scan, delivered, drain, take_in}
use mini_gdbstub.Stub.Reader.Drain.{on_rest, on_complete}

complete-empty : (b : Pktbuf) → contents b ≡ [] → pktbuf_is_complete b ≡ (false, pktbuf_clear b)
unfolding pktbuf_is_complete
complete-empty b h =
    let missing : find_index b'$' (contents b) ≡ none =
      ap (find_index b'$') h ∙ unfold find_index in refl in
    rw (pktbuf_is_complete, missing)

module _ (fuel : ℕ) (node : ℕ → ℕ) (k : ℕ) where
  -- A turn in which `next_packet` hands out a packet.
  turn-packet :
      (p : Packet) (b' : Pktbuf) (r : Bool × Pktbuf)
      → (if r.0 then pktbuf_pop_packet r.1 else ok (none, r.1)) ≡ ok (some p, b')
      → on_complete fuel node k r ≡ on_rest fuel node k p (drain fuel node (k + 1) b')
  turn-packet p b' (false, b) h = cc
  turn-packet p b' (true, b) h = rw h

  drain-packet :
      (b b' : Pktbuf) (p : Packet)
      → next_packet b ≡ ok (some p, b')
      → drain (suc fuel) node k b ≡ on_rest fuel node k p (drain fuel node (k + 1) b')
  unfolding next_packet drain
  drain-packet b b' p h = turn-packet p b' (pktbuf_is_complete b) h

  -- A turn on an empty buffer.
  drain-empty :
      (b : Pktbuf) → contents b ≡ [] → drain (suc fuel) node k b ≡ ok (some ([], pktbuf_clear b))
  unfolding drain
  drain-empty b h = ap (on_complete fuel node k) (complete-empty b h)

module _ (realloc : List ℕ → ℕ → Option (List ℕ)) (handler : Bool) where
  pub last_bytes :
      (b : Pktbuf) (before got : List ℕ)
      → IsIdle b
      → contents b ≡ before ++ got
      → take (length got) (drop (b.size - length got) b.block) ≡ got
  last_bytes b before got i h =
      let size : b.size ≡ length before + length got =
        omega (arith, length-contents b i.valid, ap length h, length-append before got) in
      let from : b.size - length got ≡ length before = omega (arith, size) in
      let count : length got ≡ b.size - length before = omega (arith, size) in
      rw from (
        ap (λ n. take n (drop (length before) b.block)) count
        ∙ take-drop (length before) b.size b.block
        ∙ ap (drop (length before)) h
        ∙ drop-append before got)

  -- When the bytes that have come complete a packet at the end of the buffer, whatever its checksum,
  -- behind bytes without a `$`: for each interrupt character among the new bytes the queue is told,
  -- and the target before it if it runs and has a handler; then the packet is put into the queue with
  -- its frame intact, and acknowledged exactly if there is memory for its node; and the buffer is
  -- empty.
  pub take_in-packet :
      (r : Round) (b : Pktbuf) (before got junk body : List ℕ) (c1 c2 : ℕ)
      → IsIdle b
      → contents b ≡ before ++ got
      → Holds b junk body (c1 ∷ c2 ∷ [])
      → (signals calls : List Effect) × (b' : Pktbuf) × (take_in realloc handler r (length got) b
          ≡ ok (some (signals ++ calls, b')))
        × Heard handler r.async 0 got signals
        × Queued r.node 0 (packet_of body c1 c2 ∷ []) calls
        × IsIdle b'
        × (contents b' ≡ [])
  unfolding take_in
  take_in-packet r b before got junk body c1 c2 i h holds =
      let (b', next, i', empty) = deliver_alone b junk body c1 c2 i holds in
      let fuel : b.size + 1 ≡ suc (suc (b.size - 1)) =
        omega (arith, size_parts b junk body (c1 ∷ c2 ∷ []) i.valid holds) in
      let run : drain (b.size + 1) r.node 0 b
          ≡ ok (some (delivered (r.node 0) (packet_of body c1 c2) [], pktbuf_clear b')) =
        ap (λ n. drain n r.node 0 b) fuel
        ∙ drain-packet (suc (b.size - 1)) r.node 0 b b' (packet_of body c1 c2) next
        ∙ ap (on_rest (suc (b.size - 1)) r.node 0 (packet_of body c1 c2))
            (drain-empty (b.size - 1) r.node (0 + 1) b' empty) in
      (
        scan handler r.async 0 got,
        delivered (r.node 0) (packet_of body c1 c2) [],
        pktbuf_clear b',
        rw (run, last_bytes b before got i h),
        scan-Heard handler r.async 0 got,
        delivered-Queued r.node 0 (packet_of body c1 c2) [] [] (no_more 1),
        record { valid = pktbuf_clear-IsValid b' i'.valid; idle = unfold pktbuf_clear in refl },
        unfold pktbuf_clear in refl,
      )
