-- ===== src/Stub/Control.antt =====
-- The packets of src/gdbstub.c that run the target or set it up: `c`, `s`, `vCont`, `z`, `Z`, `H`.
use mini_gdbstub.Base.{
  ℕ, Bool, Option, none, some, List, [], ◌∷◌, ◌++◌, ◌==◌, if◌then◌else◌, codes, str_eq,
}
use mini_gdbstub.Base.Format.{scan_lx, scan_d, scan_char}
use mini_gdbstub.Stub.Types.{Env, Event, event_none, event_cont, event_step}
use mini_gdbstub.Stub.Monad.{
  Cmd, ◌>>=◌, ◌>>◌, pure, asserted, non_null, get, put_target, reply, done, eperm, einval, split_at,
  test◌then◌else◌,
}

-- `sscanf(payload, "%zx,%zx,%zx", &type, &addr, &kind) == 3`: the type and the address.
unfoldable pub scan_break_point : List ℕ → Option (ℕ × ℕ)
scan_break_point s = elim (scan_lx s) [
  | none ↦ none
  | some (type, r) ↦ elim (scan_char b',' r) [
    | none ↦ none
    | some r ↦ elim (scan_lx r) [
      | none ↦ none
      | some (addr, r) ↦ elim (scan_char b',' r) [
        | none ↦ none
        | some r ↦ elim (scan_lx r) [ none ↦ none | some kind ↦ some (type, addr) ]
      ]
    ]
  ]
]

-- `sscanf(payload, "g%d", &cpuid)`, the `g` being there.
unfoldable pub scan_cpu : List ℕ → Option (ℕ × List ℕ)
scan_cpu [] = none
scan_cpu (g ∷ s) = scan_d s

-- `payload[0]` is the NUL of an empty payload.
unfoldable pub first_char : List ℕ → ℕ
first_char [] = 0
first_char (c ∷ s) = c

module _ {T : Type 0} where
  -- An operation that the target may lack: the event, or an error.
  unfoldable pub event_if {ℓ} : {F : Type ℓ} → Option F → Event → Cmd T Event
  event_if none event = do reply eperm; pure event_none
  event_if (some f) event = pure event

  unfoldable pub process_set_break_points :
      (T → (addr type : ℕ) → Bool × T) → List ℕ → Cmd T (Unit {0})
  unfolding scan_break_point
  process_set_break_points set_bp payload = do
    (type, addr) ← asserted (scan_break_point payload)
    s ← get
    let (ret, t) = set_bp (s.target) addr type
    put_target t
    test ret then reply done else reply einval

  unfoldable pub process_del_break_points :
      (T → (addr type : ℕ) → Bool × T) → List ℕ → Cmd T (Unit {0})
  unfolding scan_break_point
  process_del_break_points del_bp payload = do
    (type, addr) ← asserted (scan_break_point payload)
    s ← get
    let (ret, t) = del_bp (s.target) addr type
    put_target t
    test ret then reply done else reply einval

  unfoldable pub process_set_cpu : (T → ℕ → T) → List ℕ → Cmd T (Unit {0})
  unfolding scan_cpu first_char
  process_set_cpu set_cpu payload = do
    (test first_char payload == b'g'
        then (do
          (cpuid, rest) ← asserted (scan_cpu payload)
          s ← get
          put_target (set_cpu (s.target) cpuid))
        else pure tt)
    reply done

module _ {T : Type 0} (env : Env T) where
  unfoldable pub process_cont : Cmd T Event
  unfolding event_if
  process_cont = event_if env.ops.cont event_cont

  unfoldable pub process_stepi : Cmd T Event
  unfolding event_if
  process_stepi = event_if env.ops.stepi event_step

  unfoldable pub process_vcont : List ℕ → Cmd T Event
  unfolding event_if first_char
  process_vcont args =
      test first_char args == b'c'
      then event_if env.ops.cont event_cont
      else test first_char args == b's'
      then event_if env.ops.stepi event_step
      else (do reply eperm; pure event_none)

  unfoldable pub process_vcont_support : Cmd T (Unit {0})
  process_vcont_support =
      let str_s : List ℕ = elim env.ops.stepi [ none ↦ [] | some f ↦ codes "s;" ] in
      let str_c : List ℕ = elim env.ops.cont [ none ↦ [] | some f ↦ codes "c;" ] in
      reply (codes "vCont;" ++ (str_s ++ str_c))

  -- `vCont` with no `;` hands a NULL pointer to `process_vcont`.
  unfoldable pub process_vpacket : List ℕ → Cmd T Event
  unfolding process_vcont process_vcont_support
  process_vpacket payload =
      let (name, args) = split_at b';' payload in
      test str_eq name (codes "Cont")
      then (do a ← non_null args; process_vcont a)
      else test str_eq name (codes "Cont?")
      then (do process_vcont_support; pure event_none)
      else (do reply []; pure event_none)
