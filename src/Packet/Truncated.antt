-- ===== src/Packet/Truncated.antt =====
-- A packet whose last checksum digit has not arrived yet.
use mini_gdbstub.Base.{
  ℕ, ◌+◌, ◌≡◌, refl, inl, inr, List, [], ◌∷◌, arith, length, leb, Bool-cases, fault, lt→leb, ◌<◌,
  some,
}
use mini_gdbstub.Packet.{Pktbuf, move_head, pop_at, pktbuf_pop_packet}
use mini_gdbstub.Packet.Complete.{Holds, complete_lem, moved_size}
use mini_gdbstub.Packet.Extract.{next_packet}
use mini_gdbstub.Packet.Delivery.{IsIdle}

pop_at-fault : (b : Pktbuf) (e : ℕ) → b.size < e + 1 → pop_at b e ≡ fault
unfolding pop_at
pop_at-fault b e h = elim (Bool-cases (leb (e + 1) (length b.block))) [
  | inl fits ↦ rw (fits, lt→leb (e + 1) b.size h) refl
  | inr over ↦ rw over refl
]

-- In a waiting buffer with the `$`, the body without `#`, the `#` and one digit of the checksum
-- received, the packet counts as complete, and taking it out makes `memmove` move a negative number
-- of bytes.
pub next_packet-truncated :
    (b : Pktbuf) (junk body : List ℕ) (c1 : ℕ)
    → IsIdle b
    → Holds b junk body (c1 ∷ [])
    → next_packet b ≡ fault
unfolding next_packet pktbuf_pop_packet
next_packet-truncated b junk body c1 i h =
    let at : Pktbuf = record (move_head b (length junk)) { end_pos = some (length body + 3) } in
    rw
      (
        complete_lem b junk body (c1 ∷ []) i.valid h,
        pop_at-fault at (length body + 3)
            (omega (arith, moved_size b junk body (c1 ∷ []) i.valid h)),
      )
      refl
