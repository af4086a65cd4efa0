-- ===== src/Packet/Complete.antt =====
-- What `pktbuf_is_complete` finds in the buffer: the first `$`, and the first `#` behind it.
use mini_gdbstub.Base.{
  ℕ, zero, suc, ◌+◌, ◌-◌, ◌≤◌, ◌<◌, ◌≡◌, refl, ap, ◌∙◌, true, false, some, List, [], ◌∷◌, ◌++◌,
  arith, length, drop, find_index, Lacks, le→ltb, drop-append, take-drop, take-move_down,
  length-append, length-take, find_index-append, lt→ltb, is_nil, if◌then◌else◌,
}
use mini_gdbstub.Packet.{Pktbuf, move_head, check_end, pktbuf_is_complete}
use mini_gdbstub.Packet.Invariant.{IsValid}
use mini_gdbstub.Packet.Fill.{contents}

pub length-contents : (b : Pktbuf) → IsValid b → length (contents b) ≡ b.size
length-contents b v = omega (arith, length-take b.size b.block, v.block_size, v.fits)

pub move_head-contents :
    (b : Pktbuf) (head : ℕ)
    → IsValid b
    → head ≤ b.size
    → (contents (move_head b head) ≡ drop head (contents b))
      × ((move_head b head).size ≡ b.size - head)
      × ((move_head b head).cap ≡ b.cap)
unfolding move_head
move_head-contents b zero v h = (refl, omega arith, refl)
move_head-contents b (suc k) v h =
    rw (lt→ltb 0 (suc k) (omega arith), move_head)
      (
        take-move_down b.block (suc k) (b.size - suc k) (omega (arith, v.block_size, v.fits))
            ∙ take-drop (suc k) b.size b.block,
        refl,
        refl,
      )

pub check_end-true :
    (b : Pktbuf) (p : ℕ)
    → find_index b'#' (contents b) ≡ some p
    → p + 2 ≤ b.size
    → check_end b ≡ (true, record b { end_pos = some (p + 2) })
unfolding check_end
check_end-true b p hit h = rw (hit, check_end) (rw (le→ltb b.size (p + 2) h) refl)

pub check_end-false :
    (b : Pktbuf) (p : ℕ)
    → find_index b'#' (contents b) ≡ some p
    → b.size < p + 2
    → check_end b ≡ (false, b)
unfolding check_end
check_end-false b p hit h = rw (hit, check_end) (rw (lt→ltb b.size (p + 2) h) refl)

abbrev pub from_head : List ℕ → List ℕ → List ℕ
from_head body rest = b'$' ∷ (body ++ (b'#' ∷ rest))

-- A buffer in which `$` stands behind `junk`, and `#` behind `body`.
pub record Holds (b : Pktbuf) (junk body rest : List ℕ) : Type 0 where
  pub bytes : contents b ≡ junk ++ from_head body rest
  pub no_head : Lacks b'$' junk
  pub no_end : Lacks b'#' body

module _ (b : Pktbuf) (junk body rest : List ℕ) (v : IsValid b) (h : Holds b junk body rest) where
  pub size_parts : b.size ≡ length junk + 2 + length body + length rest
  size_parts = omega (
    arith,
    length-contents b v,
    ap length h.bytes,
    length-append junk (from_head body rest),
    length-append body (b'#' ∷ rest),
  )

  pub at_head : pktbuf_is_complete b ≡ check_end (move_head b (length junk))
  unfolding pktbuf_is_complete
  at_head =
      let hit : find_index b'$' (contents b) ≡ some (length junk) =
        rw h.bytes (find_index-append b'$' junk (body ++ (b'#' ∷ rest)) h.no_head) in
      rw (hit, pktbuf_is_complete) refl

  pub moved_bytes : contents (move_head b (length junk)) ≡ from_head body rest
  moved_bytes =
      (move_head-contents b (length junk) v (omega (arith, size_parts))).0
      ∙ ap (drop (length junk)) h.bytes
      ∙ drop-append junk (from_head body rest)

  pub end_found : find_index b'#' (contents (move_head b (length junk))) ≡ some (suc (length body))
  end_found = rw moved_bytes (find_index-append b'#' (b'$' ∷ body) rest (omega arith, h.no_end))

  pub moved_size : (move_head b (length junk)).size ≡ 2 + length body + length rest
  moved_size =
      let m = move_head-contents b (length junk) v (omega (arith, size_parts)) in
      omega (arith, m.1, size_parts)

-- With a first `$` and a first `#` behind it in a valid buffer, a packet counts as complete exactly
-- when one byte at least follows the `#`. What stands before the `$` is dropped either way.
pub complete_lem :
    (b : Pktbuf) (junk body rest : List ℕ)
    → IsValid b
    → Holds b junk body rest
    → pktbuf_is_complete b ≡ (
        if is_nil rest
        then (false, move_head b (length junk))
        else (true, record (move_head b (length junk)) { end_pos = some (length body + 3) }))
complete_lem b junk body [] v h =
    at_head b junk body [] v h
    ∙ check_end-false _ _ (end_found b junk body [] v h)
        (omega (arith, moved_size b junk body [] v h))
complete_lem b junk body (x ∷ rest) v h =
    let e : suc (length body) + 2 ≡ length body + 3 = omega arith in
    at_head b junk body (x ∷ rest) v h
    ∙ check_end-true _ _ (end_found b junk body (x ∷ rest) v h)
        (omega (arith, moved_size b junk body (x ∷ rest) v h))
    ∙ ap (λ k. (true, record (move_head b (length junk)) { end_pos = some k })) e
