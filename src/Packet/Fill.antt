-- ===== src/Packet/Fill.antt =====
-- Filling the buffer: what `read` delivers is appended, and the buffer grows when it is full.
use mini_gdbstub.Base.{ℕ, ◌^◌, ◌≤◌, ◌<◌, ◌≡◌, Option, some, List, [], ◌++◌, length, take}
use mini_gdbstub.Packet.{Pktbuf, ReadResult, bytes, failed}
use mini_gdbstub.Packet.Invariant.{IsValid}

-- The valid bytes.
abbrev pub contents : Pktbuf → List ℕ
contents b = take b.size b.block

abbrev pub received : ReadResult → List ℕ
received (bytes got) = got
received (failed errno) = []

-- `realloc` when it has memory: a block of the size asked for, which begins with the old one.
pub record Enlarges (realloc : List ℕ → ℕ → Option (List ℕ)) : Type 0 where
  pub block :
      (old : List ℕ) (n : ℕ)
      → length old ≤ n
      → (new : List ℕ) × (realloc old n ≡ some new)
        × (length new ≡ n)
        × (take (length old) new ≡ old)

-- `read` stores no more than it was asked for.
abbrev pub Fits : (ℕ → ReadResult) → Type 0
Fits read = (left : ℕ) → length (received (read left)) ≤ left

module _ (realloc : List ℕ → ℕ → Option (List ℕ)) (read : ℕ → ReadResult)
    (enlarges : Enlarges realloc) (small : Fits read) where
  -- The outcome of making room.
  record Roomy (b b' : Pktbuf) : Type 0 where
    valid : IsValid b'
    room : b'.size < 2 ^ b'.cap
    same : contents b' ≡ contents b
    idle : b'.end_pos ≡ b.end_pos

  -- What filling has done: the bytes read are appended to the valid ones.
  pub record Filled (b b' : Pktbuf) (r : ReadResult) : Type 0 where
    pub valid : IsValid b'
    pub appended : contents b' ≡ contents b ++ received r
    pub idle : b'.end_pos ≡ b.end_pos
    -- what one `read` of at most `asked` bytes delivered
    pub asked : ℕ
    pub outcome : read asked ≡ r
