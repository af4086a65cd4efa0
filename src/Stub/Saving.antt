-- ===== src/Stub/Saving.antt =====
-- The first loop of a `G` packet parses every new value and saves every old one.
use mini_gdbstub.Base.{
  ℕ, zero, suc, ◌+◌, ◌*◌, ◌<◌, ◌≤◌, ◌≡◌, refl, sym, ap, subst, ◌∙◌, inl, inr, true, false, Option,
  some, List, arith, length, take, drop, blit, Bool-cases, ltb, ltb→lt, ltb→le, Result, ok,
  if◌then◌else◌, length-blit, slice-blit, slice-blit_before, length-drop, IsBytes,
}
use mini_gdbstub.Base.Int.{ℤ}
use mini_gdbstub.Translate.{str_to_hex}
use mini_gdbstub.Translate.Parse.{str_to_hex-ok}
use mini_gdbstub.Stub.Types.{Env, Stub}
use mini_gdbstub.Stub.Monad.{pure, get, put_target, lift, non_null, store_at, test◌then◌else◌}
use mini_gdbstub.Stub.Registers.{is_zero, reg_bytes, Saved, unreadable, saved, save_loop}
use mini_gdbstub.Stub.Steps.{
  bind-ok, then-ok, test-true, test-false, non_null-some, lift-ok, put_target-same, get-ok,
  store_at-ok,
}
use mini_gdbstub.Stub.Atomic.{offset, slice}

-- What the stub relies on in an emulator's `read_reg`, for each register of the target: it changes
-- nothing, stores no more than the register's size, and on success the register's value, which has
-- that size and consists of bytes.
pub record IsReader {T : Type 0} (env : Env T) (read : T → ℕ → ℤ × List ℕ × T)
    (value : T → ℕ → List ℕ) : Type 0 where
  pub there : env.ops.read_reg ≡ some read
  pub keeps : (t : T) (i : ℕ) → i < env.reg_num → (read t i).2 ≡ t
  pub fits : (t : T) (i : ℕ) → i < env.reg_num → length (read t i).1 ≤ reg_bytes env i
  pub gives :
      (t : T) (i : ℕ) → i < env.reg_num → is_zero (read t i).0 ≡ true → (read t i).1 ≡ value t i
  pub sizes : (t : T) (i : ℕ) → i < env.reg_num → length (value t i) ≡ reg_bytes env i
  pub bytes : (t : T) (i : ℕ) → i < env.reg_num → IsBytes (value t i)

module _ {T : Type 0} (env : Env T) where
  pub offset_suc : (i : ℕ) → offset env (i + 1) ≡ offset env i + reg_bytes env i
  unfolding offset
  offset_suc i = let e : i + 1 ≡ suc i = omega arith in rw e refl

  pub offset_mono : (j i : ℕ) → j < i → offset env j + reg_bytes env j ≤ offset env i
  unfolding offset
  offset_mono j zero h = absurd (omega arith)
  offset_mono j (suc i) h = elim (Bool-cases (ltb j i)) [
    | inl low ↦ omega (arith, offset_mono j i (ltb→lt j i low))
    | inr last ↦ let e : j ≡ i = omega (arith, h, ltb→le j i last) in rw e (omega arith)
  ]

  -- The value that a `G` packet's text holds for a register.
  abbrev pub parsed : List ℕ → ℕ → Option (List ℕ)
  parsed payload j = str_to_hex (drop (offset env j * 2) payload) (reg_bytes env j)

  -- A store for register `i` leaves the values of the ones before it.
  slice-store :
      (block xs : List ℕ) (i j : ℕ)
      → offset env i ≤ length block
      → j < i
      → slice env (blit block (offset env i) xs) j ≡ slice env block j
  slice-store block xs i j h lt =
      slice-blit_before block xs (offset env i) (offset env j) (reg_bytes env j) h
        (offset_mono j i lt)

  slice-stored :
      (block xs : List ℕ) (i : ℕ)
      → offset env i ≤ length block
      → length xs ≡ reg_bytes env i
      → slice env (blit block (offset env i) xs) i ≡ xs
  slice-stored block xs i h size =
      ap (λ n. take n (drop (offset env i) (blit block (offset env i) xs))) (sym size)
      ∙ slice-blit block xs (offset env i) h

  -- The blocks and the text have room for all registers.
  pub record Room (payload new backup : List ℕ) : Type 0 where
    pub new_size : offset env env.reg_num ≤ length new
    pub backup_size : offset env env.reg_num ≤ length backup
    pub text : offset env env.reg_num * 2 ≤ length payload

module _ {T : Type 0} (env : Env T) (read : T → ℕ → ℤ × List ℕ × T) (value : T → ℕ → List ℕ)
    (reader : IsReader env read value) (payload : List ℕ) (s : Stub T) where
  -- The first `i` registers are parsed and saved.
  abbrev pub Kept : (i : ℕ) → (new backup : List ℕ) → Type 0
  Kept i new backup =
      (j : ℕ)
      → j < i
      → (parsed env payload j ≡ some (slice env new j)) × (slice env backup j ≡ value s.target j)

  pub data SavedAll : Result (Saved × Stub T) → Type 0 where
    saved_all :
        (new backup : List ℕ) → Kept env.reg_num new backup → SavedAll (ok (saved new backup, s))
    not_readable : (ret : ℤ) → is_zero ret ≡ false → SavedAll (ok (unreadable ret, s))

  Kept-step :
      (i : ℕ) (new backup chunk old : List ℕ)
      → i < env.reg_num
      → offset env i ≤ length new
      → offset env i ≤ length backup
      → parsed env payload i ≡ some chunk
      → length chunk ≡ reg_bytes env i
      → old ≡ value s.target i
      → Kept i new backup
      → Kept (i + 1) (blit new (offset env i) chunk) (blit backup (offset env i) old)
  Kept-step i new backup chunk old low hn hb p size was kept j lt = elim (Bool-cases (ltb j i)) [
    | inl before ↦
        let (a, b) = kept j (ltb→lt j i before) in
        (
          a ∙ ap some (sym (slice-store env new chunk i j hn (ltb→lt j i before))),
          slice-store env backup old i j hb (ltb→lt j i before) ∙ b,
        )
    | inr last ↦
        let e : j ≡ i = omega (arith, lt, ltb→le j i last) in
        rw e (
          p ∙ ap some (sym (slice-stored env new chunk i hn size)),
          slice-stored env backup old i hb (ap length was ∙ reader.sizes s.target i low) ∙ was,
        )
  ]

  -- One round of the loop, with the text long enough and the blocks large enough.
  save_round :
      (left i : ℕ) (new backup chunk : List ℕ)
      → i < env.reg_num
      → parsed env payload i ≡ some chunk
      → offset env i + length chunk ≤ length new
      → offset env i + reg_bytes env i ≤ length backup
      → save_loop env (suc left) i (offset env i * 2) (offset env i) payload new backup s
        ≡ (test is_zero (read s.target i).0
              then save_loop env left
                  (i + 1)
                  (offset env i * 2 + reg_bytes env i * 2)
                  (offset env i + reg_bytes env i)
                  payload
                  (blit new (offset env i) chunk)
                  (blit backup (offset env i) (read s.target i).1)
              else pure (unreadable (read s.target i).0))
            s
  unfolding save_loop
  save_round left i new backup chunk low p hn hb =
      bind-ok (non_null (parsed env payload i)) _ s (non_null-some _ s p)
      ∙ bind-ok (lift (store_at new (offset env i) chunk)) _ s
          (lift-ok _ s (store_at-ok new chunk (offset env i) hn))
      ∙ bind-ok (non_null env.ops.read_reg) _ s (non_null-some _ s reader.there)
      ∙ bind-ok get _ s (get-ok s)
      ∙ bind-ok (lift (store_at backup (offset env i) (read s.target i).1)) _ s (
          lift-ok _ s (
            store_at-ok backup (read s.target i).1 (offset env i)
              (omega (arith, reader.fits s.target i low, hb))))
      ∙ then-ok (put_target (read s.target i).2) _ s
          (put_target-same _ s (reader.keeps s.target i low))

  pub save_ends :
      (left i po so : ℕ) (new backup : List ℕ)
      → so ≡ offset env i
      → po ≡ offset env i * 2
      → i + left ≡ env.reg_num
      → Room env payload new backup
      → Kept i new backup
      → SavedAll (save_loop env left i po so payload new backup s)
  save_ends zero i po so new backup at text all room kept =
      let e : env.reg_num ≡ i = omega (arith, all) in
      unfold save_loop pure in saved_all new backup (λ j lt. kept j (omega (arith, e)))
  save_ends (suc left) i po so new backup at text all room kept =
      let low : i < env.reg_num = omega (arith, all) in
      let within : offset env i + reg_bytes env i ≤ offset env env.reg_num =
        offset_mono env i env.reg_num low in
      let hn : offset env i + reg_bytes env i ≤ length new = omega (arith, within, room.new_size) in
      let hb : offset env i + reg_bytes env i ≤ length backup =
        omega (arith, within, room.backup_size) in
      let (chunk, p, size) =
        str_to_hex-ok (drop (offset env i * 2) payload) (reg_bytes env i)
          (omega (arith, within, room.text, length-drop (offset env i * 2) payload)) in
      let stored : offset env i + length chunk ≤ length new = omega (arith, hn, size) in
      rw (at, text, save_round left i new backup chunk low p stored hb)
        (elim (Bool-cases (is_zero (read s.target i).0)) [
          | inl good ↦
              let kept' =
                Kept-step i new backup chunk (read s.target i).1 low (omega (arith, hn))
                  (omega (arith, hb)) p size (reader.gives s.target i low good) kept in
              subst (λ m. SavedAll (m s)) (sym (test-true _ _ _ good))
                (save_ends left (i + 1) _ _ (blit new (offset env i) chunk)
                  (blit backup (offset env i) (read s.target i).1) (sym (offset_suc env i))
                  (omega (arith, offset_suc env i)) (omega (arith, all))
                  (record {
                    new_size =
                        omega (arith, room.new_size, length-blit new (offset env i) chunk stored);
                    backup_size = omega (
                      arith,
                      room.backup_size,
                      length-blit backup (offset env i) (read s.target i).1
                          (omega (arith, hb, reader.fits s.target i low)),
                    );
                    text = room.text;
                  })
                  kept')
          | inr bad ↦
              subst (λ m. SavedAll (m s)) (sym (test-false _ _ _ bad))
                (unfold pure in not_readable (read s.target i).0 bad)
        ])
