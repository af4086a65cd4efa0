-- ===== src/Packet/Invariant.antt =====
-- The representation invariant of the packet buffer.
use mini_gdbstub.Base.{
  ℕ, ◌+◌, ◌-◌, ◌^◌, ◌≤◌, ◌<◌, ◌≡◌, inl, inr, Option, none, some, arith, length, take, find_index,
  ok, length-move_down, ◌∙◌, length-take, length-replicate, find_index-lt, ltb, Option-cases,
  Bool-cases,
}
use mini_gdbstub.Packet.{
  Packet, Pktbuf, pktbuf_clear, pktbuf_init, move_head, check_end, pktbuf_is_complete, popped,
  pop_at, pktbuf_pop_packet, default_cap,
}

-- The block has `1 << cap` bytes, the valid ones fit, and a recorded end is one past the last valid
-- byte at most.
pub record IsValid (b : Pktbuf) : Type 0 where
  pub block_size : length b.block ≡ 2 ^ b.cap
  pub fits : b.size ≤ 2 ^ b.cap
  pub end_in : (e : ℕ) → b.end_pos ≡ some e → (e ≤ b.size) × (2 ≤ e)

pub pktbuf_clear-IsValid : (b : Pktbuf) → IsValid b → IsValid (pktbuf_clear b)
unfolding pktbuf_clear
pktbuf_clear-IsValid b v = record {
  block_size = v.block_size;
  fits = omega arith;
  end_in = λ e h. cc;
}

pub pktbuf_init-IsValid : IsValid pktbuf_init
unfolding pktbuf_init
pktbuf_init-IsValid = record {
  block_size = length-replicate {A = ℕ} (2 ^ default_cap) 0;
  fits = omega arith;
  end_in = λ e h. cc;
}

pub move_head-IsValid :
    (b : Pktbuf) (head : ℕ)
    → IsValid b
    → head < b.size
    → b.end_pos ≡ none
    → IsValid (move_head b head)
unfolding move_head
move_head-IsValid b head v h e = elim (Bool-cases (ltb 0 head)) [
  | inr z ↦ rw (z, move_head) v
  | inl p ↦
      rw (p, move_head)
        (record {
          block_size =
              length-move_down b.block head (b.size - head) (omega (arith, v.fits, v.block_size))
              ∙ v.block_size;
          fits = omega (arith, v.fits);
          end_in = λ k q. cc;
        })
]

pub end_pos-move_head : (b : Pktbuf) (head : ℕ) → (move_head b head).end_pos ≡ b.end_pos
unfolding move_head
end_pos-move_head b head = ground arith

pub check_end-IsValid : (b : Pktbuf) → IsValid b → b.end_pos ≡ none → IsValid (check_end b).1
unfolding check_end
check_end-IsValid b v e = elim (Option-cases (find_index b'#' (take b.size b.block))) [
  | inl miss ↦ rw (miss, check_end) v
  | inr (p, hit) ↦ elim (Bool-cases (ltb b.size (p + 2))) [
    | inl short ↦ rw (hit, check_end) (rw short v)
    | inr long ↦
        rw (hit, check_end)
          (rw long
            (record { block_size = v.block_size; fits = v.fits; end_in = λ k q. ground arith }))
  ]
]

-- `pktbuf_is_complete` keeps the invariant of a buffer in which no packet waits to be popped.
pub pktbuf_is_complete-IsValid :
    (b : Pktbuf) → IsValid b → b.end_pos ≡ none → IsValid (pktbuf_is_complete b).1
unfolding pktbuf_is_complete
pktbuf_is_complete-IsValid b v e = elim (Option-cases (find_index b'$' (take b.size b.block))) [
  | inl miss ↦ rw (miss, pktbuf_is_complete) (pktbuf_clear-IsValid b v)
  | inr (h, hit) ↦
      rw (hit, pktbuf_is_complete)
        (check_end-IsValid (move_head b h)
          (move_head-IsValid b h v
            (omega (arith, find_index-lt _ _ h hit, length-take b.size b.block)) e)
          (end_pos-move_head b h ∙ e))
]

pub popped-IsValid : (b : Pktbuf) (e : ℕ) → IsValid b → IsValid (popped b e).1
unfolding popped
popped-IsValid b e v = record {
  block_size =
      length-move_down b.block (e + 1 + 1) (b.size - (e + 1)) (omega (arith, v.fits, v.block_size))
      ∙ v.block_size;
  fits = omega (arith, v.fits);
  end_in = λ k q. cc;
}

-- `pop_at` succeeds with the packet popped, or not at all.
pub pop_at_inv :
    (b : Pktbuf) (e : ℕ) {p : Packet} {b' : Pktbuf}
    → pop_at b e ≡ ok (p, b')
    → (popped b e ≡ (p, b')) × (e + 1 ≤ b.size)
unfolding pop_at
pop_at_inv b e h = ground arith

-- When `pktbuf_pop_packet` returns from a valid buffer, the buffer is valid still and no packet
-- waits in it.
pub pktbuf_pop_packet-IsValid :
    (b : Pktbuf) (p : Option Packet) (b' : Pktbuf)
    → IsValid b
    → pktbuf_pop_packet b ≡ ok (p, b')
    → IsValid b' × (b'.end_pos ≡ none)
unfolding pktbuf_pop_packet pop_at popped
pktbuf_pop_packet-IsValid b p b' v h = elim (Option-cases b.end_pos) [
  | inl idle ↦ ground arith
  | inr (e, at) ↦ ground (arith, popped-IsValid b e v)
]
