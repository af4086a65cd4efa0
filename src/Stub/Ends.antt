-- ===== src/Stub/Ends.antt =====
-- Postconditions of commands, for the runs that do not stop the process.
use mini_gdbstub.Base.{
  ℕ, ◌≡◌, ap, Bool, true, false, Option, none, some, List, [], ◌∷◌, ◌++◌, Result, ok, abort, fault,
  if◌then◌else◌, Bool-cases, ltb, length, ◌+◌, inl, inr,
}
use mini_gdbstub.Conn.{packet_text, max_send_packet_size}
use mini_gdbstub.Stub.Types.{Stub}
use mini_gdbstub.Stub.Monad.{
  Cmd, ◌>>=◌, ◌>>◌, pure, lift, asserted, non_null, get, put, put_target, reply, test◌then◌else◌,
}

-- If the command returns, its value and its state satisfy `P`.
pub data Ends {T A : Type 0} (P : A → Stub T → Type 0) : Result (A × Stub T) → Type 0 where
  returns : {a : A} {s : Stub T} → P a s → Ends P (ok (a, s))
  aborts : Ends P abort
  faults : Ends P fault

module _ {T A B : Type 0} where
  pub bind :
      (P : A → Stub T → Type 0) (Q : B → Stub T → Type 0) (m : Cmd T A) (f : A → Cmd T B)
      (s : Stub T)
      → Ends P (m s)
      → ((a : A) (s' : Stub T) → P a s' → Ends Q (f a s'))
      → Ends Q ((m >>= f) s)
  unfolding ◌>>=◌
  bind P Q m f s e next = go (m s) e
    where
      go :
          (r : Result (A × Stub T))
          → Ends P r
          → Ends Q (elim r [ ok (a, s') ↦ f a s' | abort ↦ abort | fault ↦ fault ])
      go _ (returns p) = next _ _ p
      go _ aborts = aborts
      go _ faults = faults

-- The command sends nothing after the texts `l`.
pub record IsQuiet {T A : Type 0} (l : List (List ℕ)) (m : Cmd T A) : Type 0 where
  pub ends : (s : Stub T) → s.sent ≡ l → Ends (λ _ s'. s'.sent ≡ l) (m s)

-- One framed reply, and nothing else, is behind the texts `l`.
abbrev pub Answered : {T : Type 0} → List (List ℕ) → Stub T → Type 0
Answered l s = (str : List ℕ) × (s.sent ≡ l ++ (packet_text str ∷ []))

-- The command sends one framed reply after the texts `l`.
pub record Answers {T A : Type 0} (l : List (List ℕ)) (m : Cmd T A) : Type 0 where
  pub ends : (s : Stub T) → s.sent ≡ l → Ends (λ _ s'. Answered l s') (m s)

module _ {T : Type 0} (l : List (List ℕ)) where
  pub pure-IsQuiet : {A : Type 0} (a : A) → IsQuiet {T = T} l (pure a)
  unfolding pure
  pure-IsQuiet a = record { ends = λ s e. returns e }

  pub put-IsQuiet : (s' : Stub T) → s'.sent ≡ l → IsQuiet l (put s')
  unfolding put
  put-IsQuiet s' h = record { ends = λ s e. returns h }

  pub put_target-IsQuiet : (t : T) → IsQuiet l (put_target t)
  unfolding put_target
  put_target-IsQuiet t = record { ends = λ s e. returns e }

  pub lift-IsQuiet : {A : Type 0} (r : Result A) → IsQuiet {T = T} l (lift r)
  unfolding lift
  lift-IsQuiet (ok a) = record { ends = λ s e. returns e }
  lift-IsQuiet abort = record { ends = λ s e. aborts }
  lift-IsQuiet fault = record { ends = λ s e. faults }

  pub asserted-IsQuiet : {A : Type 0} (o : Option A) → IsQuiet {T = T} l (asserted o)
  unfolding asserted
  asserted-IsQuiet none = record { ends = λ s e. aborts }
  asserted-IsQuiet (some a) = record { ends = λ s e. returns e }

  pub non_null-IsQuiet : {A : Type 0} (o : Option A) → IsQuiet {T = T} l (non_null o)
  unfolding non_null
  non_null-IsQuiet none = record { ends = λ s e. faults }
  non_null-IsQuiet (some a) = record { ends = λ s e. returns e }

  pub bind-IsQuiet :
      {A B : Type 0} (m : Cmd T A) (f : A → Cmd T B)
      → IsQuiet l m
      → ((a : A) → IsQuiet l (f a))
      → IsQuiet l (m >>= f)
  bind-IsQuiet m f q r = record {
    ends = λ s e. bind _ _ m f s (q.ends s e) (λ a s' e'. (r a).ends s' e');
  }

  pub then-IsQuiet :
      {B : Type 0} (m : Cmd T (Unit {0})) (k : Cmd T B)
      → IsQuiet l m
      → IsQuiet l k
      → IsQuiet l (m >> k)
  unfolding ◌>>◌ ◌>>=◌
  then-IsQuiet m k q r = record {
    ends = λ s e. bind _ _ m (λ _. k) s (q.ends s e) (λ a s' e'. r.ends s' e');
  }

  pub get-IsQuiet :
      {B : Type 0} (f : Stub T → Cmd T B)
      → ((s : Stub T) → s.sent ≡ l → IsQuiet l (f s))
      → IsQuiet l (get >>= f)
  unfolding get ◌>>=◌
  get-IsQuiet f r = record { ends = λ s e. (r s e).ends s e }

  pub if-IsQuiet :
      {A : Type 0} (b : Bool) (m k : Cmd T A)
      → IsQuiet l m
      → IsQuiet l k
      → IsQuiet l (test b then m else k)
  unfolding test◌then◌else◌
  if-IsQuiet true m k q r = q
  if-IsQuiet false m k q r = r

  reply-Ends : (str : List ℕ) (s : Stub T) → s.sent ≡ l → Ends (λ _ s'. Answered l s') (reply str s)
  unfolding reply
  reply-Ends str s e = elim (Bool-cases (ltb (length str + 2 + 2 + 1) max_send_packet_size)) [
    | inl fits ↦ rw (fits, reply) (returns (str, ap (λ x. x ++ (packet_text str ∷ [])) e))
    | inr over ↦ rw (over, reply) aborts
  ]

  pub reply-Answers : (str : List ℕ) → Answers {T = T} l (reply str)
  reply-Answers str = record { ends = reply-Ends str }

  pub bind-Answers :
      {A B : Type 0} (m : Cmd T A) (f : A → Cmd T B)
      → IsQuiet l m
      → ((a : A) → Answers l (f a))
      → Answers l (m >>= f)
  bind-Answers m f q r = record {
    ends = λ s e. bind _ _ m f s (q.ends s e) (λ a s' e'. (r a).ends s' e');
  }

  pub then-Answers :
      {B : Type 0} (m : Cmd T (Unit {0})) (k : Cmd T B)
      → IsQuiet l m
      → Answers l k
      → Answers l (m >> k)
  unfolding ◌>>◌ ◌>>=◌
  then-Answers m k q r = record {
    ends = λ s e. bind _ _ m (λ _. k) s (q.ends s e) (λ a s' e'. r.ends s' e');
  }

  pub get-Answers :
      {B : Type 0} (f : Stub T → Cmd T B)
      → ((s : Stub T) → s.sent ≡ l → Answers l (f s))
      → Answers l (get >>= f)
  unfolding get ◌>>=◌
  get-Answers f r = record { ends = λ s e. (r s e).ends s e }

  pub if-Answers :
      {A : Type 0} (b : Bool) (m k : Cmd T A)
      → Answers l m
      → Answers l k
      → Answers l (test b then m else k)
  unfolding test◌then◌else◌
  if-Answers true m k q r = q
  if-Answers false m k q r = r
