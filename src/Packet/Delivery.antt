-- ===== src/Packet/Delivery.antt =====
-- Packets reach the reader whole: alone in the buffer without loss, and pipelined with one.
use mini_gdbstub.Base.{
  ℕ, ◌+◌, ◌^◌, ◌<◌, ◌≡◌, refl, inl, inr, none, some, List, [], ◌∷◌, ◌++◌, arith, length, get_or, ok,
  get_or-blit, ◌-◌, ◌≤◌, false, ◌&&◌, take, drop, leb, ltb, if◌then◌else◌, Bool-cases, length-take,
  length-drop, ◌∙◌, ap, sym, append_assoc, drop-append, length-append,
}
use mini_gdbstub.Packet.{Packet, Pktbuf, popped, move_head}
use mini_gdbstub.Packet.Invariant.{IsValid, popped-IsValid}
use mini_gdbstub.Packet.Fill.{contents}
use mini_gdbstub.Packet.Complete.{Holds, size_parts}
use mini_gdbstub.Packet.Extract.{
  next_packet, packet_of, frame, length-frame, ready, ready-IsValid, ready-Ready, ready_size,
  next_packet-popped, popped_empty, popped_rest, Ready,
}

-- The buffer waits for a packet.
pub record IsIdle (b : Pktbuf) : Type 0 where
  pub valid : IsValid b
  pub idle : b.end_pos ≡ none

-- What `next_packet` hands out, and the bytes that it leaves.
abbrev pub Delivers : Pktbuf → Packet → List ℕ → Type 0
Delivers b p left =
    (b' : Pktbuf) × (next_packet b ≡ ok (some p, b')) × IsIdle b' × (contents b' ≡ left)

pub popped-IsIdle : (b : Pktbuf) (e : ℕ) → IsValid b → IsIdle (popped b e).1
unfolding popped
popped-IsIdle b e v = record { valid = popped-IsValid b e v; idle = refl }

-- In a waiting buffer, a whole packet behind bytes without a `$` (an acknowledgement, an
-- interrupt), with a body without `#` and nothing behind it, is taken out with its frame intact,
-- and nothing is left.
pub deliver_alone :
    (b : Pktbuf) (junk body : List ℕ) (c1 c2 : ℕ)
    → IsIdle b
    → Holds b junk body (c1 ∷ c2 ∷ [])
    → Delivers b (packet_of body c1 c2) []
deliver_alone b junk body c1 c2 i h =
    let r = ready b junk body c1 c2 [] i.valid i.idle h (inl refl) in
    let rr = ready-Ready b junk body c1 c2 [] i.valid i.idle h (inl refl) in
    let rv = ready-IsValid b junk body c1 c2 [] i.valid i.idle h (inl refl) in
    (
      (popped r (length body + 3)).1,
      next_packet-popped b junk body c1 c2 [] i.valid i.idle h (inl refl),
      popped-IsIdle r (length body + 3) rv,
      popped_empty r (length body + 3) (omega (arith, ready_size r body c1 c2 [] rr)),
    )

popped_left :
    (r : Pktbuf) (body : List ℕ) (c1 c2 next : ℕ) (more : List ℕ)
    → Ready r body c1 c2 (next ∷ more)
    → contents (popped r (length body + 3)).1 ≡ more ++ (get_or r.block r.size 0 ∷ [])
popped_left r body c1 c2 next more h =
    let size = ready_size r body c1 c2 (next ∷ more) h in
    let room : r.size < 2 ^ r.cap = elim h.room [ inl e ↦ cc | inr q ↦ q ] in
    let gone = frame body c1 c2 ++ (next ∷ []) in
    let n : length body + 3 + 1 + 1 ≡ length gone =
      omega (arith, length-append (frame body c1 c2) (next ∷ []), length-frame body c1 c2) in
    let split : contents r ≡ gone ++ more =
      h.bytes ∙ sym (append_assoc (frame body c1 c2) (next ∷ []) more) in
    popped_rest r (length body + 3) h.valid (omega (arith, size)) room
    ∙ ap (λ xs. xs ++ (get_or r.block r.size 0 ∷ [])) {y = more}
        (rw (split, n) (drop-append gone more))

-- The byte behind the ones that `move_head` moves stays.
byte_behind :
    (b : Pktbuf) (h : ℕ)
    → IsValid b
    → h ≤ b.size
    → get_or (move_head b h).block (move_head b h).size 0 ≡ get_or b.block (b.size - h) 0
unfolding move_head
byte_behind b h v le = elim (Bool-cases (ltb 0 h)) [
  | inr stays ↦ let e : b.size - h ≡ b.size = ground arith in rw (stays, e) refl
  | inl moves ↦
      let n = b.size - h in
      let src = take n (drop h b.block) in
      let size : length src ≡ n =
        omega (
          arith,
          length-take n (drop h b.block),
          length-drop h b.block,
          v.block_size,
          v.fits,
          le,
        ) in
      let past : (leb 0 n && ltb n (0 + length src)) ≡ false = ground (arith, size) in
      rw moves (
        get_or-blit b.block src 0 n (omega (arith, size, v.block_size, v.fits))
        ∙ ap (λ t. if t then get_or src (n - 0) 0 else get_or b.block n 0) past)
]

-- In a waiting buffer that is not full, a packet behind bytes without a `$`, with a body without
-- `#` and other bytes behind it, is taken out with its frame intact; of the bytes behind it the
-- first is lost, and one byte is added that was not received there: the one that stood in the block
-- at the number of bytes from the `$` on, beyond the received ones if the `$` came first.
pub deliver_pipelined :
    (b : Pktbuf) (junk body : List ℕ) (c1 c2 next : ℕ) (more : List ℕ)
    → IsIdle b
    → b.size < 2 ^ b.cap
    → Holds b junk body (c1 ∷ c2 ∷ next ∷ more)
    → Delivers b (packet_of body c1 c2) (more ++ (get_or b.block (b.size - length junk) 0 ∷ []))
deliver_pipelined b junk body c1 c2 next more i room h =
    let r = ready b junk body c1 c2 (next ∷ more) i.valid i.idle h (inr room) in
    let rr = ready-Ready b junk body c1 c2 (next ∷ more) i.valid i.idle h (inr room) in
    let rv = ready-IsValid b junk body c1 c2 (next ∷ more) i.valid i.idle h (inr room) in
    (
      (popped r (length body + 3)).1,
      next_packet-popped b junk body c1 c2 (next ∷ more) i.valid i.idle h (inr room),
      popped-IsIdle r (length body + 3) rv,
      popped_left r body c1 c2 next more rr
          ∙ ap (λ x. more ++ (x ∷ []))
              (byte_behind b (length junk) i.valid
                (omega (arith, size_parts b junk body (c1 ∷ c2 ∷ next ∷ more) i.valid h))),
    )
