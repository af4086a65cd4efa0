-- ===== src/Stub/Atomic.antt =====
-- The `G` packet writes all registers or none.
use mini_gdbstub.Base.{
  ℕ, zero, suc, ◌+◌, ◌<◌, ◌≤◌, ◌≡◌, refl, sym, ap, subst, ◌∙◌, inl, inr, true, false, ◌&&◌, Option,
  none, some, List, arith, take, drop, ltb, leb, ◌==◌, if◌then◌else◌, Bool-cases, lt→leb, ltb→lt,
  ==_iff, abort, fault, Result, ok,
}
use mini_gdbstub.Base.Int.{ℤ}
use mini_gdbstub.Stub.Types.{Env, Stub}
use mini_gdbstub.Stub.Monad.{
  ◌>>=◌, ◌>>◌, pure, get, put_target, reply, done, error_text, test◌then◌else◌,
}
use mini_gdbstub.Stub.Registers.{
  is_zero, reg_bytes, commit_loop, rollback_loop, finish_commit, commit_values,
}
use mini_gdbstub.Stub.Steps.{then-ok}

-- What the stub relies on in an emulator's `write_reg`, where `value t i` is what register `i` holds,
-- and `May t i v` that the target is in order and `v` has the form of a value of that register: a write
-- that succeeds changes that register only, one that fails changes none, what may be written still may
-- after a write, and a value that a register has held can be written to it.
pub record IsRegisterFile {T : Type 0} (write : T → ℕ → List ℕ → ℤ × T) (value : T → ℕ → List ℕ)
    (May : T → ℕ → List ℕ → Type 0) : Type 0 where
  pub stays : (t : T) (i j : ℕ) (v w : List ℕ) → May t i v → May t j w → May (write t i v).1 j w
  pub writes :
      (t : T) (i j : ℕ) (v : List ℕ)
      → May t i v
      → value (write t i v).1 j ≡ (if is_zero (write t i v).0 && j == i then v else value t j)
  pub restores :
      (t held : T) (i : ℕ) → May t i (value held i) → is_zero (write t i (value held i)).0 ≡ true

module _ {T : Type 0} (env : Env T) where
  -- Where the value of register `i` stands in a `G` packet's block, and that value.
  unfoldable pub offset : ℕ → ℕ
  offset zero = 0
  offset (suc i) = offset i + reg_bytes env i

  abbrev pub slice : List ℕ → ℕ → List ℕ
  slice block i = take (reg_bytes env i) (drop (offset i) block)

module _ {T : Type 0} (env : Env T) (write : T → ℕ → List ℕ → ℤ × T) (value : T → ℕ → List ℕ)
    (May : T → ℕ → List ℕ → Type 0) (file : IsRegisterFile write value May) where
  -- The values of the first `n` registers in `block` may be written.
  abbrev pub Allowed : (n : ℕ) → List ℕ → T → Type 0
  Allowed n block t = (j : ℕ) → j < n → May t j (slice env block j)

  Allowed-write :
      (n i : ℕ) (new block : List ℕ) (t : T)
      → May t i (slice env new i)
      → Allowed n block t
      → Allowed n block (write t i (slice env new i)).1
  Allowed-write n i new block t may allowed j lt =
      file.stays t i j (slice env new i) (slice env block j) may (allowed j lt)

  -- Registers `i` up to `k` hold their values in `block`, the others are as in `t`.
  abbrev pub Written : (i k : ℕ) → List ℕ → (t t' : T) → Type 0
  Written i k block t t' =
      (j : ℕ) → value t' j ≡ (if leb i j && ltb j k then slice env block j else value t j)

  Written-none :
      (i : ℕ) (block : List ℕ) (t t' : T)
      → ((j : ℕ) → value t' j ≡ value t j)
      → Written i i block t t'
  Written-none i block t t' same j =
      let off : (leb i j && ltb j i) ≡ false = ground arith in rw off (same j)

  -- One write that succeeded, and the ones behind it.
  Written-step :
      (i k : ℕ) (block : List ℕ) (t t' : T)
      → i < k
      → May t i (slice env block i)
      → is_zero (write t i (slice env block i)).0 ≡ true
      → Written (i + 1) k block (write t i (slice env block i)).1 t'
      → Written i k block t t'
  Written-step i k block t t' lt may good w j = elim (Bool-cases (j == i)) [
    | inl same ↦
        let e : i ≡ j = sym ((==_iff j i).0 same) in
        let low : leb (i + 1) j ≡ false = lt→leb (i + 1) j (omega (arith, e)) in
        let within : (leb i j && ltb j k) ≡ true = ground arith in
        rw within (
          w j
          ∙ ap
              (λ b.
                if b && ltb j k
                then slice env block j
                else value (write t i (slice env block i)).1 j)
              low
          ∙ file.writes t i j (slice env block i) may
          ∙ ap (λ b. if b && j == i then slice env block i else value t j) good
          ∙ ap (λ b. if b then slice env block i else value t j) same
          ∙ ap (slice env block) e)
    | inr other ↦
        let shift : leb (i + 1) j ≡ leb i j = ground arith in
        w j
        ∙ ap
            (λ b.
              if b && ltb j k then slice env block j else value (write t i (slice env block i)).1 j)
            shift
        ∙ ap (λ x. if leb i j && ltb j k then slice env block j else x)
            (file.writes t i j (slice env block i) may
              ∙ ap (λ b. if b && j == i then slice env block i else value t j) good
              ∙ ap (λ b. if b then slice env block i else value t j) other)
  ]

  next_offset : (i so : ℕ) → so ≡ offset env i → so + reg_bytes env i ≡ offset env (i + 1)
  unfolding offset
  next_offset i so at = let e : i + 1 ≡ suc i = omega arith in rw (e, at) refl

  -- How the loop ends from register `i` on, `n` being the end: it stops at the first write that fails,
  -- which changes nothing itself.
  data Ended (i n : ℕ) (new : List ℕ) (s : Stub T) : Result (Option (ℕ × ℤ) × Stub T) → Type 0 where
    all_written :
        (t' : T)
        → Written i n new s.target t'
        → Ended i n new s (ok (none, record s { target = t' }))
    stopped :
        (t' : T) (k : ℕ) (ret : ℤ)
        → is_zero ret ≡ false
        → i ≤ k
        → k < n
        → Written i k new s.target t'
        → ((j : ℕ) (w : List ℕ) → May s.target j w → May t' j w)
        → Ended i n new s (ok (some (k, ret), record s { target = t' }))

  Ended-step :
      (i n : ℕ) (new : List ℕ) (s : Stub T) (r : Result (Option (ℕ × ℤ) × Stub T))
      → i < n
      → May s.target i (slice env new i)
      → is_zero (write s.target i (slice env new i)).0 ≡ true
      → Ended (i + 1) n new (record s { target = (write s.target i (slice env new i)).1 }) r
      → Ended i n new s r
  Ended-step i n new s _ lt may good (all_written t' w) =
      all_written t' (Written-step i n new s.target t' lt may good w)
  Ended-step i n new s _ lt may good (stopped t' k ret bad le before w stays) =
      stopped t' k ret bad (omega arith) before
        (Written-step i k new s.target t' (omega arith) may good w)
        (λ j v m. stays j v (file.stays s.target i j (slice env new i) v may m))

  commit_ends :
      (left i so n : ℕ) (new : List ℕ) (s : Stub T)
      → Allowed n new s.target
      → so ≡ offset env i
      → i + left ≡ n
      → Ended i n new s (commit_loop env write left i so new s)
  unfolding commit_loop get ◌>>=◌ ◌>>◌ put_target pure test◌then◌else◌
  commit_ends zero i so n new s allowed at all =
      let e : n ≡ i = omega (arith, all) in
      rw e (all_written s.target (Written-none i new s.target s.target (λ j. refl)))
  commit_ends (suc left) i so n new s allowed at all =
      let may = allowed i (omega (arith, all)) in
      rw at (elim (Bool-cases (is_zero (write s.target i (slice env new i)).0)) [
        | inl good ↦ rw good (
            Ended-step i n new s _ (omega (arith, all)) may good (
              commit_ends left (i + 1) (offset env i + reg_bytes env i) n new
                (record s { target = (write s.target i (slice env new i)).1 })
                (Allowed-write n i new new s.target may allowed) (next_offset i (offset env i) refl)
                (omega (arith, all))))
        | inr bad ↦ rw bad (
            stopped (write s.target i (slice env new i)).1 i _ bad (omega arith)
              (omega (arith, all))
              (Written-none i new s.target _ (λ j.
                file.writes s.target i j (slice env new i) may
                ∙ ap (λ b. if b && j == i then slice env new i else value s.target j) bad))
              (λ j v m. file.stays s.target i j (slice env new i) v may m))
      ])

  rollback_ends :
      (left i so n : ℕ) (backup : List ℕ) (held : T) (s : Stub T)
      → ((j : ℕ) → j < n → slice env backup j ≡ value held j)
      → Allowed n backup s.target
      → so ≡ offset env i
      → i + left ≡ n
      → (t' : T) × (rollback_loop env write left i so backup s ≡ ok (tt, record s { target = t' }))
        × Written i n backup s.target t'
  unfolding rollback_loop get ◌>>=◌ ◌>>◌ put_target pure
  rollback_ends zero i so n backup held s saved allowed at all =
      let e : n ≡ i = omega (arith, all) in
      (s.target, refl, rw e (Written-none i backup s.target s.target (λ j. refl)))
  rollback_ends (suc left) i so n backup held s saved allowed at all =
      let may = allowed i (omega (arith, all)) in
      let same = saved i (omega (arith, all)) in
      let good : is_zero (write s.target i (slice env backup i)).0 ≡ true =
        rw same (file.restores s.target held i (subst (May s.target i) same may)) in
      let (t', run, w) =
        rollback_ends left (i + 1) (offset env i + reg_bytes env i) n backup held
          (record s { target = (write s.target i (slice env backup i)).1 }) saved
          (Allowed-write n i backup backup s.target may allowed) (next_offset i (offset env i) refl)
          (omega (arith, all)) in
      (t', rw at run, Written-step i n backup s.target t' (omega (arith, all)) may good w)

  -- Values written over the first `k` registers, and the old ones written back over them.
  undone :
      (k : ℕ) (new backup : List ℕ) (t t1 t2 : T)
      → ((j : ℕ) → j < k → slice env backup j ≡ value t j)
      → Written 0 k new t t1
      → Written 0 k backup t1 t2
      → (j : ℕ) → value t2 j ≡ value t j
  undone k new backup t t1 t2 saved w back j = elim (Bool-cases (ltb j k)) [
    | inl low ↦
        let within : (leb 0 j && ltb j k) ≡ true = ground arith in
        back j
        ∙ ap (λ b. if b then slice env backup j else value t1 j) within
        ∙ saved j (ltb→lt j k low)
    | inr high ↦
        let beyond : (leb 0 j && ltb j k) ≡ false = ground arith in
        back j
        ∙ ap (λ b. if b then slice env backup j else value t1 j) beyond
        ∙ w j
        ∙ ap (λ b. if b then slice env new j else value t j) beyond
  ]

  -- What sending the answer of a `G` packet starts from, and which answer it is.
  pub data Committed (new : List ℕ) (s : Stub T) : Result (Unit {0} × Stub T) → Type 0 where
    committed :
        (t' : T)
        → Written 0 env.reg_num new s.target t'
        → Committed new s (reply done (record s { target = t' }))
    rolled_back :
        (t' : T) (ret : ℤ)
        → is_zero ret ≡ false
        → ((j : ℕ) → value t' j ≡ value s.target j)
        → Committed new s (reply (error_text ret) (record s { target = t' }))

  answered :
      (new backup : List ℕ) (s : Stub T)
      → ((j : ℕ) → j < env.reg_num → slice env backup j ≡ value s.target j)
      → Allowed env.reg_num backup s.target
      → (r : Result (Option (ℕ × ℤ) × Stub T)) → Ended 0 env.reg_num new s r
      → Committed new s (elim r [
        | ok (a, s') ↦ finish_commit env write backup a s'
        | abort ↦ abort
        | fault ↦ fault
      ])
  unfolding finish_commit
  answered new backup s saved allowed _ (all_written t' w) = committed t' w
  answered new backup s saved allowed _ (stopped t' k ret bad le before w stays) =
      let (t2, run, back) =
        rollback_ends k 0 0 k backup s.target (record s { target = t' })
          (λ j lt. saved j (omega arith))
          (λ j lt. stays j (slice env backup j) (allowed j (omega arith))) (unfold offset in refl)
          (omega arith) in
      subst (λ r. Committed new s r)
        (sym (
          then-ok (rollback_loop env write k 0 0 backup) (reply (error_text ret))
            (record s { target = t' }) run))
        (rolled_back t2 ret bad
          (undone k new backup s.target t' t2 (λ j lt. saved j (omega arith)) w back))

  -- With the old values saved, the old and the new ones such as may be written, and a `write_reg` that
  -- keeps its contract, the commit of a `G` packet ends with one reply: `OK` with every register holding its new value and no other changed, or an
  -- error with each register as it was.
  pub commit_values-Committed :
      (new backup : List ℕ) (s : Stub T)
      → ((j : ℕ) → j < env.reg_num → slice env backup j ≡ value s.target j)
      → Allowed env.reg_num new s.target
      → Allowed env.reg_num backup s.target
      → Committed new s (commit_values env write new backup s)
  unfolding commit_values ◌>>=◌
  commit_values-Committed new backup s saved new_allowed old_allowed =
      answered new backup s saved old_allowed _ (
        commit_ends env.reg_num 0 0 env.reg_num new s new_allowed (unfold offset in refl)
          (omega arith))
