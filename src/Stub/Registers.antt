-- ===== src/Stub/Registers.antt =====
-- The register packets of src/gdbstub.c: `g`, `p`, `G`, `P`.
use mini_gdbstub.Base.{
  ℕ, zero, suc, ◌+◌, ◌*◌, ◌%◌, ◌^◌, Bool, true, false, not, Option, none, some, List, [], ◌∷◌, ◌++◌,
  length, take, drop, ◌==◌, if◌then◌else◌, codes,
}
use mini_gdbstub.Base
use mini_gdbstub.Base.Int.{ℤ, pos, negsuc}
use mini_gdbstub.Base.Format.{scan_x}
use mini_gdbstub.Translate.{hex_to_str, str_to_hex}
use mini_gdbstub.Regbuf.{regbuf_get}
use mini_gdbstub.Stub.Types.{Env}
use mini_gdbstub.Stub.Monad.{
  Cmd, ◌>>=◌, ◌>>◌, pure, lift, asserted, non_null, get, put, put_target, reply, done, einval,
  error_text, text_in, store_at, split_at, test◌then◌else◌,
}

-- `!ret`
unfoldable pub is_zero : ℤ → Bool
is_zero (pos n) = n == 0
is_zero (negsuc n) = false

-- How the first loop of `process_reg_write` ends.
pub data Saved : Type 0 where
  unreadable : ℤ → Saved
  saved : (new_values backup_values : List ℕ) → Saved

module _ {T : Type 0} (env : Env T) where
  abbrev pub reg_bytes : ℕ → ℕ
  reg_bytes i = env.ops.get_reg_bytes i

  -- The scratch block for a register; it is used without a look at NULL.
  unfoldable pub reg_block : (reg_sz : ℕ) → Cmd T (List ℕ)
  reg_block reg_sz = do
    s ← get
    r ← non_null (regbuf_get env.malloc s.regbuf reg_sz)
    put (record s { regbuf = r })
    non_null r.buf

  -- `read_reg` into that block: its return code, and the block.
  unfoldable pub read_value : (T → ℕ → ℤ × List ℕ × T) → ℕ → Cmd T (ℤ × List ℕ)
  unfolding reg_block
  read_value read i = do
    block ← reg_block (reg_bytes i)
    s ← get
    let (ret, stored, t) = read s.target i
    value ← lift (store_at block 0 stored)
    put (record s { target = t; regbuf = record (s.regbuf) { buf = some value } })
    pure (ret, value)

  -- The loop of `process_reg_read` over the registers left, `i` next.
  unfoldable pub read_loop : (T → ℕ → ℤ × List ℕ × T) → (left i : ℕ) → List ℕ → Cmd T (List ℕ)
  unfolding read_value is_zero
  read_loop read zero i packet = pure packet
  read_loop read (suc left) i packet = do
    (ret, value) ← read_value read i
    test is_zero ret
        then (do
          packet ←
              lift (store_at packet (i * reg_bytes i * 2) (hex_to_str (take (reg_bytes i) value)))
          read_loop read left (i + 1) packet)
        else lift (store_at packet 0 (error_text ret ++ (0 ∷ [])))

  unfoldable pub process_reg_read : (T → ℕ → ℤ × List ℕ × T) → Cmd T (Unit {0})
  unfolding read_loop
  process_reg_read read = do
    packet ← read_loop read env.reg_num 0 env.stack
    str ← lift (text_in packet)
    reply str

  unfoldable pub process_reg_read_one : (T → ℕ → ℤ × List ℕ × T) → List ℕ → Cmd T (Unit {0})
  unfolding read_value is_zero
  process_reg_read_one read payload = do
    (regno, rest) ← asserted (scan_x payload)
    (ret, value) ← read_value read regno
    packet ← lift (
        store_at env.stack 0 (
          if is_zero ret
          then hex_to_str (take (reg_bytes regno) value)
          else error_text ret ++ (0 ∷ [])))
    str ← lift (text_in packet)
    reply str

  -- Every new value is parsed and every old value saved before anything is written. `read_reg` is
  -- called without a look at NULL.
  unfoldable pub save_loop :
      (left i payload_offset storage_offset : ℕ)
      → (payload new_values backup_values : List ℕ) → Cmd T Saved
  unfolding is_zero
  save_loop zero i po so payload new backup = pure (saved new backup)
  save_loop (suc left) i po so payload new backup = do
    chunk ← non_null (str_to_hex (drop po payload) (reg_bytes i))
    new ← lift (store_at new so chunk)
    read ← non_null env.ops.read_reg
    s ← get
    let (ret, stored, t) = read s.target i
    backup ← lift (store_at backup so stored)
    put_target t
    test is_zero ret
        then save_loop left (i + 1) (po + reg_bytes i * 2) (so + reg_bytes i) payload new backup
        else pure (unreadable ret)

  -- The register that could not be written, and its error.
  unfoldable pub commit_loop :
      (T → ℕ → List ℕ → ℤ × T)
      → (left i storage_offset : ℕ) → (new_values : List ℕ) → Cmd T (Option (ℕ × ℤ))
  unfolding is_zero
  commit_loop write zero i so new = pure none
  commit_loop write (suc left) i so new = do
    s ← get
    let (ret, t) = write s.target i (take (reg_bytes i) (drop so new))
    put_target t
    test is_zero ret
        then commit_loop write left (i + 1) (so + reg_bytes i) new
        else pure (some (i, ret))

  -- The registers before the failed one get their old values; errors are not looked at.
  unfoldable pub rollback_loop :
      (T → ℕ → List ℕ → ℤ × T)
      → (left i storage_offset : ℕ) → (backup_values : List ℕ) → Cmd T (Unit {0})
  rollback_loop write zero i so backup = pure tt
  rollback_loop write (suc left) i so backup = do
    s ← get
    let (ret, t) = write s.target i (take (reg_bytes i) (drop so backup))
    put_target t
    rollback_loop write left (i + 1) (so + reg_bytes i) backup

  unfoldable pub finish_commit :
      (T → ℕ → List ℕ → ℤ × T) → (backup_values : List ℕ) → Option (ℕ × ℤ) → Cmd T (Unit {0})
  unfolding rollback_loop
  finish_commit write backup none = reply done
  finish_commit write backup (some (regno, ret)) = do
    rollback_loop write regno 0 0 backup
    reply (error_text ret)

  unfoldable pub commit_values :
      (T → ℕ → List ℕ → ℤ × T) → (new_values backup_values : List ℕ) → Cmd T (Unit {0})
  unfolding commit_loop finish_commit
  commit_values write new backup = do
    failed ← commit_loop write env.reg_num 0 0 new
    finish_commit write backup failed

  -- What is done once the values are saved.
  unfoldable pub commit_saved : (T → ℕ → List ℕ → ℤ × T) → Saved → Cmd T (Unit {0})
  unfolding commit_values
  commit_saved write (unreadable ret) = reply (error_text ret)
  commit_saved write (saved new backup) = commit_values write new backup

  -- The two blocks that `malloc` returns; one failing call of the two answers as both failing do.
  unfoldable pub write_all :
      (T → ℕ → List ℕ → ℤ × T) → (payload : List ℕ) → Option (List ℕ) → Cmd T (Unit {0})
  unfolding save_loop commit_saved
  write_all write payload none = reply (codes "E12")
  write_all write payload (some block) = do
    outcome ← save_loop env.reg_num 0 0 0 payload block block
    commit_saved write outcome

  unfoldable pub process_reg_write : (T → ℕ → List ℕ → ℤ × T) → List ℕ → Cmd T (Unit {0})
  unfolding write_all
  process_reg_write write payload = do
    s ← get
    test s.total_reg_bytes == 0
        then reply done
        else (test not (length payload == s.total_reg_bytes * 2 % 2 ^ 64)
            then reply einval
            else write_all write payload (env.malloc s.total_reg_bytes))

  unfoldable pub process_reg_write_one : (T → ℕ → List ℕ → ℤ × T) → List ℕ → Cmd T (Unit {0})
  unfolding reg_block is_zero
  process_reg_write_one write payload = do
    let (regno_str, data_str) = split_at b'=' payload
    (regno, rest) ← asserted (scan_x regno_str)
    block ← reg_block (reg_bytes regno)
    text ← non_null data_str
    lift (Base.assert (length text == reg_bytes regno * 2))
    value ← non_null (str_to_hex text (reg_bytes regno))
    block ← lift (store_at block 0 value)
    s ← get
    let (ret, t) = write s.target regno (take (reg_bytes regno) block)
    put (record s { target = t; regbuf = record (s.regbuf) { buf = some block } })
    test is_zero ret then reply done else reply (error_text ret)
