-- ===== src/Stub/Memory.antt =====
-- The memory packets of src/gdbstub.c: `m`, `M`, `X`.
use mathlib.Core.Option
use mini_gdbstub.Base
use mini_gdbstub.Base.{
  ℕ, zero, suc, ◌+◌, ◌*◌, ◌%◌, ◌^◌, Bool, true, false, Option, none, some, List, [], ◌∷◌, ◌++◌,
  length, take, drop, ◌==◌, leb, if◌then◌else◌, Result, ok, fault, is_nil, cstr, ◌-◌,
}
use mini_gdbstub.Base.Int.{ℤ}
use mini_gdbstub.Base.Format.{scan_lx, scan_char}
use mini_gdbstub.Translate.{int_count, hex_to_str, str_to_hex, unescape}
use mini_gdbstub.Stub.Types.{Env}
use mini_gdbstub.Stub.Monad.{
  Cmd, ◌>>=◌, ◌>>◌, lift, asserted, non_null, get, put_target, reply, done, error_text, text_in,
  store_at, split_at, test◌then◌else◌,
}
use mini_gdbstub.Stub.Registers.{is_zero}

-- `sscanf(payload, "%lx,%lx", &maddr, &mlen) == 2`
unfoldable pub scan_range : List ℕ → Option (ℕ × ℕ)
scan_range s = elim (scan_lx s) [
  | none ↦ none
  | some (addr, r) ↦ elim (scan_char b',' r) [
    | none ↦ none
    | some r' ↦ elim (scan_lx r') [ none ↦ none | some (len, _) ↦ some (addr, len) ]
  ]
]

-- The `mlen` bytes at a block: what `read_mem` stored, over what `malloc` left there. A NULL block
-- holds nothing.
unfoldable pub filled : Option (List ℕ) → List ℕ → Result (List ℕ)
filled none stored = if is_nil stored then ok [] else fault
filled (some block) stored = store_at block 0 stored

-- The first `n` bytes of a block, all of which must be there.
unfoldable pub first_bytes : ℕ → List ℕ → Result (List ℕ)
first_bytes n block = if leb n (length block) then ok (take n block) else fault

module _ {T : Type 0} (env : Env T) where
  -- The text of the answer is built in a local buffer of 4096 bytes. `hex_to_str` takes the length as
  -- an `int`: for a negative one it stores a NUL in front of the buffer.
  unfoldable pub process_mem_read :
      (T → (addr len : ℕ) → ℤ × List ℕ × T) → List ℕ → Cmd T (Unit {0})
  unfolding filled first_bytes scan_range is_zero int_count
  process_mem_read read payload = do
    (maddr, mlen) ← asserted (scan_range payload)
    s ← get
    let (ret, stored, t) = read s.target maddr mlen
    mval ← lift (filled (env.malloc mlen) stored)
    put_target t
    packet ←
        (test is_zero ret
          then (do
            bytes ← non_null (int_count mlen)
            value ← lift (first_bytes bytes mval)
            lift (store_at env.stack 0 (hex_to_str value)))
          else lift (store_at env.stack 0 (error_text ret ++ (0 ∷ []))))
    str ← lift (text_in packet)
    reply str

  -- `raw` is the packet's block from the payload on; the C string in it ends at the first NUL.
  -- `str_to_hex` takes the length as an `int`, and stores nothing for a negative one.
  unfoldable pub process_mem_write :
      (T → (addr len : ℕ) → List ℕ → ℤ × T) → List ℕ → Cmd T (Unit {0})
  unfolding filled first_bytes scan_range is_zero int_count
  process_mem_write write raw = do
    let (range, content) = split_at b':' (cstr raw)
    (maddr, mlen) ← asserted (scan_range range)
    _ ← non_null content
    value ← non_null (str_to_hex (drop (length range + 1) raw) (Option.get_or (int_count mlen) 0))
    mval ← lift (filled (env.malloc mlen) value)
    bytes ← lift (first_bytes mlen mval)
    s ← get
    let (ret, t) = write s.target maddr mlen bytes
    put_target t
    test is_zero ret then reply done else reply (error_text ret)

  -- `packet_end` is `payload_len` bytes behind the payload, and a NUL stands there. The return code
  -- of `write_mem` is not looked at.
  unfoldable pub process_mem_xwrite :
      (T → (addr len : ℕ) → List ℕ → ℤ × T) → (payload_len : ℕ) → List ℕ → Cmd T (Unit {0})
  unfolding scan_range
  process_mem_xwrite write payload_len raw = do
    let (range, content) = split_at b':' (cstr raw)
    (maddr, mlen) ← asserted (scan_range range)
    _ ← non_null content
    let text = take (payload_len - (length range + 1)) (drop (length range + 1) raw)
    let bytes = unescape text 0
    lift (Base.assert (length bytes == mlen % 2 ^ 32))
    lift (Base.defined (length bytes == mlen))
    s ← get
    let (ret, t) = write s.target maddr mlen bytes
    put_target t
    reply done
