-- ===== src/Stub/Monad.antt =====
-- Commands on the stub's state, and the replies that they send.
use mini_gdbstub.Base.{
  ℕ, ◌+◌, Bool, Option, none, some, List, [], ◌∷◌, ◌++◌, length, take, blit, leb, Result, ok, abort,
  fault, codes, find_index, ◌==◌, if◌then◌else◌,
}
use mini_gdbstub.Base.Int.{ℤ}
use mini_gdbstub.Base.Format.{show_int}
use mini_gdbstub.Conn.{conn_send_pktstr}
use mini_gdbstub.Stub.Types.{Stub}

-- A command returns the new state and its value, unless the process stops.
abbrev pub Cmd : Type 0 → Type 0 → Type 0
Cmd T A = Stub T → Result (A × Stub T)

module _ {T : Type 0} where
  infixl 5 ◌>>=◌ ◌>>◌
  unfoldable pub ◌>>=◌ : {A B : Type 0} → Cmd T A → (A → Cmd T B) → Cmd T B
  ◌>>=◌ m f s = elim (m s) [ ok (a, s') ↦ f a s' | abort ↦ abort | fault ↦ fault ]

  unfoldable pub ◌>>◌ : {B : Type 0} → Cmd T (Unit {0}) → Cmd T B → Cmd T B
  ◌>>◌ m k s = elim (m s) [ ok (a, s') ↦ k s' | abort ↦ abort | fault ↦ fault ]

  unfoldable pub pure : {A : Type 0} → A → Cmd T A
  pure a s = ok (a, s)

  unfoldable pub lift : {A : Type 0} → Result A → Cmd T A
  lift (ok a) s = ok (a, s)
  lift abort s = abort
  lift fault s = fault

  -- A value that the code asserts to be there, or uses without a check.
  unfoldable pub asserted : {A : Type 0} → Option A → Cmd T A
  asserted none s = abort
  asserted (some a) s = ok (a, s)

  unfoldable pub non_null : {A : Type 0} → Option A → Cmd T A
  non_null none s = fault
  non_null (some a) s = ok (a, s)

  unfoldable pub get : Cmd T (Stub T)
  get s = ok (s, s)

  unfoldable pub put : Stub T → Cmd T (Unit {0})
  put s' s = ok (tt, s')

  unfoldable pub put_target : T → Cmd T (Unit {0})
  put_target t s = ok (tt, record s { target = t })

  -- A branch between two commands, kept shut so that its parts can be read off.
  infix 1 test◌then◌else◌
  unfoldable pub test◌then◌else◌ : {A : Type 0} → Bool → Cmd T A → Cmd T A → Cmd T A
  test b then m else k = if b then m else k

  -- `conn_send_pktstr` on the connection. Whether the socket takes the text is not looked at.
  unfoldable pub reply : List ℕ → Cmd T (Unit {0})
  unfolding conn_send_pktstr
  reply str s = elim (conn_send_pktstr str) [
    | ok text ↦ ok (tt, record s { sent = s.sent ++ (text ∷ []) })
    | abort ↦ abort
    | fault ↦ fault
  ]

abbrev pub eperm : List ℕ
eperm = codes "E01"

abbrev pub einval : List ℕ
einval = codes "E22"

abbrev pub done : List ℕ
done = codes "OK"

-- `sprintf(packet_str, "E%d", ret)`
unfoldable pub error_text : ℤ → List ℕ
error_text ret = b'E' ∷ show_int ret

-- `conn_send_pktstr` of a local buffer: its text up to the NUL, which must be there.
unfoldable pub text_in : List ℕ → Result (List ℕ)
text_in buf = elim (find_index 0 buf) [ none ↦ fault | some n ↦ ok (take n buf) ]

-- A store of `xs` at `off` inside a buffer.
unfoldable pub store_at : List ℕ → ℕ → List ℕ → Result (List ℕ)
store_at buf off xs = if leb (off + length xs) (length buf) then ok (blit buf off xs) else fault

-- `strchr` and the cut at its place: the text before the first `c`, and the text behind it.
unfoldable pub split_at : ℕ → List ℕ → List ℕ × Option (List ℕ)
split_at c [] = ([], none)
split_at c (x ∷ s) =
    if x == c then ([], some s) else (let (name, args) = split_at c s in (x ∷ name, args))
