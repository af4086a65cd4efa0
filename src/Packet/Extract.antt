-- ===== src/Packet/Extract.antt =====
-- What `pktbuf_pop_packet` takes out of the buffer once a packet is complete, and what it leaves.
use mathlib.Core.Option
use mini_gdbstub.Base.{
  ℕ, suc, ◌+◌, ◌-◌, ◌^◌, ◌≤◌, ◌<◌, ◌≡◌, ◌⊎◌, refl, sym, ap, ◌∙◌, true, ◌||◌, inl, inr, Option, none,
  some, List, [], ◌∷◌, ◌++◌, arith, length, take, drop, Result, ok, le→leb, ltb, ==_refl, lt→ltb,
  ◌==◌, take-take, take-append, take-drop, take-suc, take-move_down, length-append, length-drop,
  get_or, get_or-drop, ap₂, append_assoc, if◌then◌else◌, or-true,
}
use mini_gdbstub.Packet.{
  Packet, Pktbuf, move_head, pktbuf_is_complete, popped, pop_at, pktbuf_pop_packet,
}
use mini_gdbstub.Packet.Invariant.{IsValid, move_head-IsValid}
use mini_gdbstub.Packet.Fill.{contents}
use mini_gdbstub.Packet.Complete.{
  Holds, from_head, complete_lem, moved_bytes, moved_size, move_head-contents, length-contents,
  size_parts,
}

-- The bytes of a packet on the wire.
abbrev pub frame : List ℕ → ℕ → ℕ → List ℕ
frame body c1 c2 = b'$' ∷ (body ++ (b'#' ∷ c1 ∷ c2 ∷ []))

abbrev pub packet_of : List ℕ → ℕ → ℕ → Packet
packet_of body c1 c2 = record { end_pos = length body + 3; content = frame body c1 c2 ++ (0 ∷ []) }

pub length-frame : (body : List ℕ) (c1 c2 : ℕ) → length (frame body c1 c2) ≡ length body + 4
length-frame body c1 c2 = omega (arith, length-append body (b'#' ∷ c1 ∷ c2 ∷ []))

frame-append :
    (body more : List ℕ) (c1 c2 : ℕ) → from_head body (c1 ∷ c2 ∷ more) ≡ frame body c1 c2 ++ more
frame-append body more c1 c2 = ap (◌∷◌ b'$') (sym (append_assoc body (b'#' ∷ c1 ∷ c2 ∷ []) more))

-- The accesses of `pop_at` are in bounds.
pop_at-ok :
    (b : Pktbuf) (e : ℕ)
    → IsValid b
    → e + 1 ≤ b.size
    → (b.size ≡ e + 1) ⊎ (b.size < 2 ^ b.cap)
    → pop_at b e ≡ ok (popped b e)
unfolding pop_at
pop_at-ok b e v h room =
    let size = v.block_size in
    rw (le→leb (e + 1) (length b.block) (omega (arith, v.fits, size)), le→leb (e + 1) b.size h)
      (rw (in_room room) refl)
  where
    in_room :
        (b.size ≡ e + 1) ⊎ (b.size < 2 ^ b.cap)
        → (b.size == e + 1 || ltb b.size (length b.block)) ≡ true
    in_room (inl q) = rw q (rw (==_refl (e + 1)) refl)
    in_room (inr q) =
        rw (lt→ltb b.size (length b.block) (omega (arith, v.block_size)))
          (or-true (b.size == e + 1))

popped_packet :
    (b : Pktbuf) (e : ℕ)
    → e + 1 ≤ b.size
    → (popped b e).0 ≡ record { end_pos = e; content = take (e + 1) (contents b) ++ (0 ∷ []) }
unfolding popped
popped_packet b e h = rw (take-take (e + 1) b.size b.block h)

-- Nothing is left behind the last packet; behind any other, the byte next to it is gone, and a byte
-- from beyond the valid ones is added.
pub popped_empty : (b : Pktbuf) (e : ℕ) → b.size ≡ e + 1 → contents (popped b e).1 ≡ []
unfolding popped
popped_empty b e h = let z : b.size - (e + 1) ≡ 0 = omega arith in rw z

pub popped_rest :
    (b : Pktbuf) (e : ℕ)
    → IsValid b
    → e + 1 < b.size
    → b.size < 2 ^ b.cap
    → contents (popped b e).1 ≡ drop (e + 1 + 1) (contents b) ++ (get_or b.block b.size 0 ∷ [])
unfolding popped
popped_rest b e v h room =
    take-move_down b.block (e + 1 + 1) (b.size - (e + 1)) (omega (arith, v.block_size))
    ∙ ap (λ n. take n (drop (e + 1 + 1) b.block)) count
    ∙ take-suc k (drop (e + 1 + 1) b.block) 0
        (omega (arith, length-drop (e + 1 + 1) b.block, v.block_size))
    ∙ ap₂ (λ xs y. xs ++ (y ∷ [])) (take-drop (e + 1 + 1) b.size b.block)
        (get_or-drop (e + 1 + 1) k b.block 0 ∙ ap (λ n. get_or b.block n 0) here)
  where
    k : ℕ
    k = b.size - (e + 1 + 1)

    count : b.size - (e + 1) ≡ suc k
    count = omega arith

    here : e + 1 + 1 + k ≡ b.size
    here = omega arith

-- A complete packet at the front of a buffer, found there by `pktbuf_is_complete`.
pub record Ready (b : Pktbuf) (body : List ℕ) (c1 c2 : ℕ) (more : List ℕ) : Type 0 where
  pub valid : IsValid b
  pub bytes : contents b ≡ frame body c1 c2 ++ more
  pub room : (more ≡ []) ⊎ (b.size < 2 ^ b.cap)

module _ (b : Pktbuf) (body : List ℕ) (c1 c2 : ℕ) (more : List ℕ)
    (r : Ready b body c1 c2 more) where
  pub ready_size : b.size ≡ length body + 4 + length more
  ready_size = omega (
    arith,
    length-contents b r.valid,
    ap length r.bytes,
    length-append (frame body c1 c2) more,
    length-frame body c1 c2,
  )

  ready_room : (b.size ≡ length body + 3 + 1) ⊎ (b.size < 2 ^ b.cap)
  ready_room = first r.room
    where
      first :
          (more ≡ []) ⊎ (b.size < 2 ^ b.cap) → (b.size ≡ length body + 3 + 1) ⊎ (b.size < 2 ^ b.cap)
      first (inl e) = inl (omega (arith, ready_size, ap length e))
      first (inr h) = inr h

  ready_packet : (popped b (length body + 3)).0 ≡ packet_of body c1 c2
  ready_packet =
      let n : length body + 3 + 1 ≡ length (frame body c1 c2) =
        omega (arith, length-frame body c1 c2) in
      popped_packet b (length body + 3) (omega (arith, ready_size))
      ∙ ap (λ xs. record { end_pos = length body + 3; content = xs ++ (0 ∷ []) })
          {y = frame body c1 c2} (rw (r.bytes, n) (take-append (frame body c1 c2) more))

  -- The accesses are in bounds, and the packet is exactly the bytes of the frame and a NUL.
  ready_popped :
      pop_at b (length body + 3) ≡ ok (packet_of body c1 c2, (popped b (length body + 3)).1)
  ready_popped =
      pop_at-ok b (length body + 3) r.valid (omega (arith, ready_size)) ready_room
      ∙ ap (λ p. ok (p, (popped b (length body + 3)).1)) ready_packet

-- One turn of the reader's loop: is a packet complete, and if so which.
unfoldable pub next_packet : Pktbuf → Result (Option Packet × Pktbuf)
next_packet b =
    let (complete, b') = pktbuf_is_complete b in
    if complete then pktbuf_pop_packet b' else ok (none, b')

module _ (b : Pktbuf) (junk body : List ℕ) (c1 c2 : ℕ) (more : List ℕ) (v : IsValid b)
    (idle : b.end_pos ≡ none) (h : Holds b junk body (c1 ∷ c2 ∷ more))
    (room : (more ≡ []) ⊎ (b.size < 2 ^ b.cap)) where
  abbrev pub ready : Pktbuf
  ready = record (move_head b (length junk)) { end_pos = some (length body + 3) }

  pub ready-IsValid : IsValid ready
  ready-IsValid =
      let m =
        move_head-IsValid b (length junk) v
          (omega (arith, size_parts b junk body (c1 ∷ c2 ∷ more) v h)) idle in
      record {
        block_size = m.block_size;
        fits = m.fits;
        end_in = λ e q.
            omega
              (arith, moved_size b junk body (c1 ∷ c2 ∷ more) v h, ap (λ o. Option.get_or o 0) q);
      }

  moved_room : (more ≡ []) ⊎ (b.size < 2 ^ b.cap) → (more ≡ []) ⊎ (ready.size < 2 ^ ready.cap)
  moved_room (inl e) = inl e
  moved_room (inr q) =
      let m =
        move_head-contents b (length junk) v
          (omega (arith, size_parts b junk body (c1 ∷ c2 ∷ more) v h)) in
      inr (rw (m.2) (omega (arith, m.1)))

  pub ready-Ready : Ready ready body c1 c2 more
  ready-Ready = record {
    valid = ready-IsValid;
    bytes = moved_bytes b junk body (c1 ∷ c2 ∷ more) v h ∙ frame-append body more c1 c2;
    room = moved_room room;
  }

  pub next_packet-popped :
      next_packet b ≡ ok (some (packet_of body c1 c2), (popped ready (length body + 3)).1)
  unfolding next_packet pktbuf_pop_packet
  next_packet-popped =
      rw
        (
          complete_lem b junk body (c1 ∷ c2 ∷ more) v h,
          ready_popped ready body c1 c2 more ready-Ready,
        )
        refl
