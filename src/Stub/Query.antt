-- ===== src/Stub/Query.antt =====
-- The query and set packets of src/gdbstub.c: `q`, `Q`, `vCont?` and the target description.
use mini_gdbstub.Base
use mini_gdbstub.Base.{
  ℕ, zero, suc, ◌+◌, ◌-◌, ◌*◌, ◌%◌, ◌^◌, Bool, true, false, ◌&&◌, ◌||◌, not, Option, none, some,
  List, [], ◌∷◌, ◌++◌, length, take, drop, ◌==◌, leb, ltb, if◌then◌else◌, Result, ok, fault, codes,
  str_eq, cstr, is_some,
}
use mini_gdbstub.Base.Int.{ℤ, pos}
use mini_gdbstub.Base.Format.{scan_x, scan_char, show_int4}
use mini_gdbstub.Conn.{max_data_payload}
use mini_gdbstub.Stub.Types.{Env}
use mini_gdbstub.Stub.Monad.{
  Cmd, ◌>>=◌, ◌>>◌, lift, non_null, get, put, put_target, reply, done, split_at, test◌then◌else◌,
}

-- `strtok` with `:`: the next token, and the text behind its delimiter.
unfoldable pub skip_colons : List ℕ → List ℕ
skip_colons [] = []
skip_colons (c ∷ s) = if c == b':' then skip_colons s else c ∷ s

unfoldable pub strtok : List ℕ → Option (List ℕ × List ℕ)
unfolding skip_colons
strtok s = elim (skip_colons s) [
  | [] ↦ none
  | c ∷ r ↦
      let (token, rest) = split_at b':' (c ∷ r) in
      some (token, elim rest [ none ↦ [] | some t ↦ t ])
]

-- `sscanf(s, "%x,%x", &offset, &length)` on variables that hold 0.
unfoldable pub scan_window : List ℕ → ℕ × ℕ
scan_window s = elim (scan_x s) [
  | none ↦ (0, 0)
  | some (offset, r) ↦ elim (scan_char b',' r) [
    | none ↦ (offset, 0)
    | some r' ↦ elim (scan_x r') [ none ↦ (offset, 0) | some (length, _) ↦ (offset, length) ]
  ]
]

-- `MAX_DATA_PAYLOAD > length ? length : MAX_DATA_PAYLOAD`, for an `int` from 0 on.
unfoldable pub payload_length : ℕ → ℕ
payload_length length = if ltb length max_data_payload then length else max_data_payload

-- The answer for a window of the description: its first letter, and what `snprintf` stores behind
-- it, one byte less than its limit. A window that starts behind the description, which an `int` that
-- is negative does too, is read out of bounds; with length 0 nothing is stored behind the letter, and
-- a negative length is a limit past the buffer: all are undefined, so that the numbers left are not
-- negative. A description whose length is not an `int` is undefined here.
unfoldable pub xfer_window : (desc : List ℕ) → (offset length : ℕ) → Result (List ℕ)
unfolding payload_length
xfer_window desc offset len =
    if leb offset (length desc) && ltb (length desc) (2 ^ 31) && ltb 0 len && ltb len (2 ^ 31)
    then ok (
        (if ltb (length desc - offset) (payload_length len) then b'l' else b'm')
        ∷ take (payload_length len - 1) (drop offset desc))
    else fault

module _ {T : Type 0} (env : Env T) where
  -- The words of the packet, then its window.
  unfoldable pub xfer_read : (desc : List ℕ) → List ℕ → Cmd T (Unit {0})
  unfolding scan_window xfer_window strtok
  xfer_read desc args = do
    (action, rest) ← non_null (strtok args)
    lift (Base.assert (str_eq action (codes "read")))
    (annex, rest) ← non_null (strtok rest)
    lift (Base.assert (str_eq annex (codes "target.xml")))
    (window, _) ← non_null (strtok rest)
    let (offset, len) = scan_window window
    answer ← lift (xfer_window desc offset len)
    reply answer

  unfoldable pub process_xfer : List ℕ → Cmd T (Unit {0})
  unfolding xfer_read
  process_xfer s =
      let (name, args) = split_at b':' s in
      test str_eq name (codes "features") && is_some env.target_desc
      then (do desc ← non_null env.target_desc; args ← non_null args; xfer_read desc args)
      else reply []

  -- The list of CPUs, `left` of them from `cpuid` on.
  unfoldable pub thread_list : (left cpuid : ℕ) → List ℕ
  thread_list zero cpuid = []
  thread_list (suc left) cpuid = show_int4 (pos cpuid) ++ (b',' ∷ thread_list left (cpuid + 1))

  -- `packet_str` holds 4096 bytes: the letter, five for each CPU, and the NUL.
  unfoldable pub process_thread_info : Cmd T (Unit {0})
  unfolding thread_list
  process_thread_info = do
    let smp = if env.smp == 0 then 1 else env.smp
    lift (Base.assert (ltb smp 10000))
    lift (Base.defined (leb (5 * smp + 2) 4096))
    reply (b'm' ∷ thread_list smp 0)

  unfoldable pub current_cpu : Option (T → ℤ × T) → Cmd T (Unit {0})
  current_cpu none = reply []
  current_cpu (some get_cpu) = do
    s ← get
    let (cpuid, t) = get_cpu (s.target)
    put_target t
    reply (codes "QC" ++ show_int4 cpuid)

  abbrev pub supported : List ℕ
  supported = elim env.target_desc [
    | none ↦ codes "PacketSize=1024;QStartNoAckMode+"
    | some desc ↦ codes "PacketSize=1024;qXfer:features:read+;QStartNoAckMode+"
  ]

  unfoldable pub process_query : List ℕ → Cmd T (Unit {0})
  unfolding current_cpu process_xfer process_thread_info
  process_query payload =
      let (name, qargs) = split_at b':' payload in
      test str_eq name (codes "C")
      then current_cpu env.ops.get_cpu
      else test str_eq name (codes "Supported")
      then reply supported
      else test str_eq name (codes "Attached")
      then reply (codes "1")
      else test str_eq name (codes "Xfer")
      then (do args ← non_null qargs; process_xfer args)
      else test str_eq name (codes "Symbol")
      then reply done
      else test str_eq name (codes "fThreadInfo")
      then process_thread_info
      else test str_eq name (codes "sThreadInfo")
      then reply (codes "l")
      else reply []

unfoldable pub process_general_set : {T : Type 0} → List ℕ → Cmd T (Unit {0})
process_general_set payload =
    let (name, qargs) = split_at b':' payload in
    test str_eq name (codes "StartNoAckMode")
    then (do s ← get; put (record s { conn = record (s.conn) { no_ack_mode = true } }); reply done)
    else reply []
