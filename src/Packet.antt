-- ===== src/Packet.antt =====
-- src/packet.c: the buffer in which the reader thread assembles packets.
-- The capacity `1 << cap` is a plain number: a buffer of 2 GiB, where `int` ends, is out of scope.
pub mod Invariant
pub mod Fill
pub mod Complete
pub mod Extract
pub mod Delivery
pub mod Truncated
pub mod Tests
use mini_gdbstub.Base.{
  ℕ, zero, suc, ◌+◌, ◌-◌, ◌^◌, Bool, true, false, ◌||◌, Option, none, some, List, [], ◌∷◌, ◌++◌,
  length, take, drop, replicate, ltb, leb, ◌==◌, if◌then◌else◌, blit, move_down, find_index, Result,
  ok, fault, ◌>>=◌, ◌>>◌, assert, defined,
}

abbrev pub csum_size : ℕ
csum_size = 2

-- `packet_t`
pub record Packet : Type 0 where
  pub end_pos : ℕ
  pub content : List ℕ

-- `pktbuf_t`: `block` is the whole of `data`, and an `end_pos` of -1 is `none`.
pub record Pktbuf : Type 0 where
  pub size : ℕ
  pub cap : ℕ
  pub end_pos : Option ℕ
  pub block : List ℕ

-- What `read` returns: the bytes stored (none at the end of the stream), or -1 with `errno`.
pub data ReadResult : Type 0 where
  bytes : List ℕ → ReadResult
  failed : ℕ → ReadResult

unfoldable pub pktbuf_clear : Pktbuf → Pktbuf
pktbuf_clear b = record b { end_pos = none; size = 0 }

abbrev pub default_cap : ℕ
default_cap = 10

-- `calloc` gives zeros. (A NULL from it is not looked at by the code, and not modelled.)
unfoldable pub pktbuf_init : Pktbuf
unfolding pktbuf_clear
pktbuf_init =
    pktbuf_clear (record {
      size = 0;
      cap = default_cap;
      end_pos = none;
      block = replicate (2 ^ default_cap) 0;
    })

-- The buffer after a `read` at its end.
unfoldable pub stored : Pktbuf → ReadResult → Pktbuf
stored b (bytes got) = record b { size = b.size + length got; block = blit b.block b.size got }
stored b (failed errno) = b

-- `realloc block n` is the enlarged block, `none` for NULL, which the code goes on to use.
-- `read left` is the outcome of reading at most `left` bytes from the socket.
module _ (realloc : List ℕ → ℕ → Option (List ℕ)) (read : ℕ → ReadResult) where
  unfoldable pub pktbuf_enlarge : Pktbuf → Result Pktbuf
  pktbuf_enlarge b =
      if 2 ^ b.cap == b.size
      then (elim (realloc b.block (2 ^ (b.cap + 1))) [
        | none ↦ fault
        | some block ↦ ok (record b { cap = b.cap + 1; block = block })
      ])
      else ok b

  unfoldable pub pktbuf_store : Pktbuf → ReadResult × Pktbuf
  unfolding stored
  pktbuf_store b = let r = read (2 ^ b.cap - b.size) in (r, stored b r)

  unfoldable pub pktbuf_fill_from_file : Pktbuf → Result (ReadResult × Pktbuf)
  unfolding pktbuf_enlarge pktbuf_store
  pktbuf_fill_from_file b = do
    assert (leb b.size (2 ^ b.cap))
    b ← pktbuf_enlarge b
    ok (pktbuf_store b)

-- `memmove` of the packet's head to the start of the buffer.
unfoldable pub move_head : Pktbuf → ℕ → Pktbuf
move_head b head =
    if ltb 0 head
    then record b { block = move_down b.block head (b.size - head); size = b.size - head }
    else b

-- The second half of `pktbuf_is_complete`, with the packet's head at 0.
unfoldable pub check_end : Pktbuf → Bool × Pktbuf
check_end b = elim (find_index b'#' (take b.size b.block)) [
  | none ↦ (false, b)
  | some p ↦
      if ltb b.size (p + csum_size)
      then (false, b)
      else (true, record b { end_pos = some (p + csum_size) })
]

unfoldable pub pktbuf_is_complete : Pktbuf → Bool × Pktbuf
unfolding pktbuf_clear move_head check_end
pktbuf_is_complete b = elim (find_index b'$' (take b.size b.block)) [
  | none ↦ (false, pktbuf_clear b)
  | some head ↦ check_end (move_head b head)
]

-- The packet at the front is copied out, and what follows it is moved down.
unfoldable pub popped : Pktbuf → ℕ → Packet × Pktbuf
popped b end_pos =
    let old = end_pos + 1 in
    (
      record { end_pos = end_pos; content = take old b.block ++ 0 ∷ [] },
      record b {
        block = move_down b.block (old + 1) (b.size - old);
        size = b.size - old;
        end_pos = none;
      },
    )

-- A negative count of `memmove` is a huge `size_t`, and a read past the block is undefined too. With
-- a count of 0 nothing is read, and where the pointer stands then is not looked at.
unfoldable pub pop_at : Pktbuf → ℕ → Result (Packet × Pktbuf)
unfolding popped
pop_at b end_pos = do
  defined (leb (end_pos + 1) (length b.block))
  defined (leb (end_pos + 1) b.size)
  defined (b.size == end_pos + 1 || ltb b.size (length b.block))
  ok (popped b end_pos)

unfoldable pub pktbuf_pop_packet : Pktbuf → Result (Option Packet × Pktbuf)
unfolding pop_at
pktbuf_pop_packet b = elim b.end_pos [
  | none ↦ ok (none, b)
  | some end_pos ↦ do (p, b) ← pop_at b end_pos; ok (some p, b)
]
