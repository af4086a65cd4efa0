-- ===== src/Stub/Steps.antt =====
-- One step of a command whose result is known.
use mini_gdbstub.Base.{
  ℕ, ◌+◌, ◌≤◌, ◌≡◌, refl, ap, Bool, true, false, Option, some, List, Result, ok, if◌then◌else◌,
  length, blit, le→leb, lt→leb, ◌<◌, fault,
}
use mini_gdbstub.Stub.Types.{Stub}
use mini_gdbstub.Stub.Monad.{
  Cmd, ◌>>=◌, ◌>>◌, asserted, lift, non_null, get, put_target, store_at, test◌then◌else◌,
}

module _ {T A : Type 0} where
  pub bind-ok :
      {B : Type 0} (m : Cmd T A) (f : A → Cmd T B) (s : Stub T) {a : A} {s' : Stub T}
      → m s ≡ ok (a, s')
      → (m >>= f) s ≡ f a s'
  unfolding ◌>>=◌
  bind-ok m f s e = rw (e, ◌>>=◌) refl

  pub test-true : (b : Bool) (m k : Cmd T A) → b ≡ true → (test b then m else k) ≡ m
  unfolding test◌then◌else◌
  test-true b m k e = rw e refl

  pub test-false : (b : Bool) (m k : Cmd T A) → b ≡ false → (test b then m else k) ≡ k
  unfolding test◌then◌else◌
  test-false b m k e = rw e refl

module _ {T B : Type 0} where
  pub then-ok :
      (m : Cmd T (Unit {0})) (k : Cmd T B) (s : Stub T) {u : Unit {0}} {s' : Stub T}
      → m s ≡ ok (u, s')
      → (m >> k) s ≡ k s'
  unfolding ◌>>◌
  then-ok m k s e = rw (e, ◌>>◌) refl

module _ {T A : Type 0} where
  pub non_null-some : (o : Option A) (s : Stub T) {a : A} → o ≡ some a → non_null o s ≡ ok (a, s)
  unfolding non_null
  non_null-some o s e = rw e refl

  pub lift-ok : (r : Result A) (s : Stub T) {a : A} → r ≡ ok a → lift r s ≡ ok (a, s)
  unfolding lift
  lift-ok r s e = rw e refl

  pub lift-fault : (r : Result A) (s : Stub T) → r ≡ fault → lift r s ≡ fault
  unfolding lift
  lift-fault r s e = rw e refl

  pub bind-fault :
      {B : Type 0} (m : Cmd T A) (f : A → Cmd T B) (s : Stub T) → m s ≡ fault → (m >>= f) s ≡ fault
  unfolding ◌>>=◌
  bind-fault m f s e = rw (e, ◌>>=◌) refl

  -- Two commands that do the same in a state do so in front of any other.
  pub bind-same :
      {B : Type 0} (m k : Cmd T A) (f : A → Cmd T B) (s : Stub T)
      → m s ≡ k s
      → (m >>= f) s ≡ (k >>= f) s
  unfolding ◌>>=◌
  bind-same m k f s e = rw (e, ◌>>=◌) refl

  pub asserted-some : (o : Option A) (s : Stub T) {a : A} → o ≡ some a → asserted o s ≡ ok (a, s)
  unfolding asserted
  asserted-some o s e = rw e refl

module _ {T : Type 0} where
  pub put_target-ok : (t : T) (s : Stub T) → put_target t s ≡ ok (tt, record s { target = t })
  unfolding put_target
  put_target-ok t s = refl

  pub put_target-same : (t : T) (s : Stub T) → t ≡ s.target → put_target t s ≡ ok (tt, s)
  unfolding put_target
  put_target-same t s e = ap (λ u. ok (tt, record s { target = u })) e

  pub get-ok : (s : Stub T) → get s ≡ ok (s, s)
  unfolding get
  get-ok s = refl

pub store_at-ok :
    (buf xs : List ℕ) (off : ℕ)
    → off + length xs ≤ length buf
    → store_at buf off xs ≡ ok (blit buf off xs)
unfolding store_at
store_at-ok buf xs off h = rw (le→leb (off + length xs) (length buf) h) refl

pub store_at-fault :
    (buf xs : List ℕ) (off : ℕ) → length buf < off + length xs → store_at buf off xs ≡ fault
unfolding store_at
store_at-fault buf xs off h = rw (lt→leb (off + length xs) (length buf) h) refl
