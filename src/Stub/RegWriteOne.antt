-- ===== src/Stub/RegWriteOne.antt =====
-- What a `P` packet of src/gdbstub.c does.
use mini_gdbstub.Base.{
  ℕ, ◌+◌, ◌*◌, ◌^◌, ◌<◌, ◌≤◌, ◌≡◌, refl, sym, ap, subst, ◌∙◌, inl, inr, true, false, ◌&&◌, Option,
  some, List, ◌∷◌, arith, length, take, blit, Bool-cases, ◌==◌, ==_iff, if◌then◌else◌, ok, Result,
  slice-blit, IsBytes,
}
use mini_gdbstub.Base
use mini_gdbstub.Base.Int.{ℤ}
use mini_gdbstub.Base.Format.{scan_x}
use mini_gdbstub.Translate.{str_to_hex}
use mini_gdbstub.Translate.Parse.{str_to_hex-ok, str_to_hex-some}
use mini_gdbstub.Regbuf.{Regbuf}
use mini_gdbstub.Regbuf.Growth.{IsValid}
use mini_gdbstub.Stub.Types.{Env, Stub}
use mini_gdbstub.Stub.Monad.{
  ◌>>◌, asserted, lift, non_null, get, put, reply, done, error_text, store_at, split_at,
  test◌then◌else◌,
}
use mini_gdbstub.Stub.Registers.{is_zero, reg_bytes, reg_block, process_reg_write_one}
use mini_gdbstub.Stub.Steps.{
  bind-ok, then-ok, test-true, test-false, non_null-some, lift-ok, get-ok, store_at-ok,
  asserted-some,
}
use mini_gdbstub.Stub.Atomic.{IsRegisterFile}
use mini_gdbstub.Stub.RegRead.{HasMemory, regbuf_get-block, block_found}

module _ {T : Type 0} (env : Env T) (value : T → ℕ → List ℕ) (text : List ℕ) (i : ℕ)
    (s : Stub T) where
  -- The one reply, and what the registers hold when it is sent: with `OK` the register has the value
  -- of the text and the others the old ones, with an error all have the old ones.
  pub data WritesOne : Result (Unit {0} × Stub T) → Type 0 where
    written_one :
        (t' : T) (r' : Regbuf) (v : List ℕ)
        → str_to_hex text (reg_bytes env i) ≡ some v
        → ((j : ℕ) → value t' j ≡ (if j == i then v else value s.target j))
        → WritesOne (reply done (record s { target = t'; regbuf = r' }))
    refused_one :
        (t' : T) (r' : Regbuf) (ret : ℤ)
        → is_zero ret ≡ false
        → ((j : ℕ) → value t' j ≡ value s.target j)
        → WritesOne (reply (error_text ret) (record s { target = t'; regbuf = r' }))

module _ {T : Type 0} (env : Env T) (write : T → ℕ → List ℕ → ℤ × T) (value : T → ℕ → List ℕ)
    (May : T → ℕ → List ℕ → Type 0) (file : IsRegisterFile write value May)
    (payload rest text held : List ℕ) (i : ℕ) (s : Stub T)
    (named : scan_x (split_at b'=' payload).0 ≡ some (i, rest))
    (valued : (split_at b'=' payload).1 ≡ some text) (size : length text ≡ reg_bytes env i * 2)
    (may : (v : List ℕ) → length v ≡ reg_bytes env i → IsBytes v → May s.target i v)
    (memory : HasMemory env.malloc) (valid : IsValid s.regbuf)
    (there : s.regbuf.buf ≡ some held) where
  ends_in :
      (v : List ℕ) (r' : Regbuf)
      → str_to_hex text (reg_bytes env i) ≡ some v
      → WritesOne env value text i s (
          (test is_zero (write s.target i v).0
              then reply done
              else reply (error_text (write s.target i v).0))
            (record s { target = (write s.target i v).1; regbuf = r' }))
  ends_in v r' parsed =
      let (len, bytes) = str_to_hex-some text (reg_bytes env i) v parsed in
      let allowed : May s.target i v = may v len bytes in
      let after : Stub T = record s { target = (write s.target i v).1; regbuf = r' } in
      elim (Bool-cases (is_zero (write s.target i v).0)) [
        | inl good ↦
            subst (λ m. WritesOne env value text i s (m after)) (sym (test-true _ _ _ good))
              (written_one (write s.target i v).1 r' v parsed (λ j.
                file.writes s.target i j v allowed
                ∙ ap (λ b. if b && j == i then v else value s.target j) good))
        | inr bad ↦
            subst (λ m. WritesOne env value text i s (m after)) (sym (test-false _ _ _ bad))
              (refused_one (write s.target i v).1 r' _ bad (λ j.
                file.writes s.target i j v allowed
                ∙ ap (λ b. if b && j == i then v else value s.target j) bad))
      ]

  -- A `P` packet with a register of at most 2^63 bytes and a text of two characters for each of them
  -- ends with one reply: `OK` with exactly the value of the text in that register and no other
  -- changed, or an error with every register as it was. The target's write_reg keeps its contract,
  -- the scratch buffer is valid and malloc has memory.
  pub process_reg_write_one-WritesOne :
      reg_bytes env i ≤ 2 ^ 63
      → WritesOne env value text i s (process_reg_write_one env write payload s)
  unfolding process_reg_write_one put
  process_reg_write_one-WritesOne small =
      let n = reg_bytes env i in
      let (r, block, run, got, room) =
        regbuf_get-block env.malloc s.regbuf n held memory valid there small in
      let (v, parsed, len) = str_to_hex-ok text n (omega (arith, size)) in
      let s1 : Stub T = record s { regbuf = r } in
      let taken : take n (blit block 0 v) ≡ v =
        ap (λ k. take k (blit block 0 v)) (sym len) ∙ slice-blit block v 0 (omega arith) in
      let r' : Regbuf = record r { buf = some (blit block 0 v) } in
      let steps =
        bind-ok (asserted (scan_x (split_at b'=' payload).0)) _ s (asserted-some _ s named)
        ∙ bind-ok (reg_block env n) _ s (block_found env s i r block run got)
        ∙ bind-ok (non_null (split_at b'=' payload).1) _ s1 (non_null-some _ s1 valued)
        ∙ then-ok (lift (Base.assert (length text == n * 2))) _ s1
            (lift-ok _ s1 (ap Base.assert ((==_iff (length text) (n * 2)).1 size)))
        ∙ bind-ok (non_null (str_to_hex text n)) _ s1 (non_null-some _ s1 parsed)
        ∙ bind-ok (lift (store_at block 0 v)) _ s1
            (lift-ok _ s1 (store_at-ok block v 0 (omega (arith, room, len))))
        ∙ bind-ok get _ s1 (get-ok s1) in
      subst (WritesOne env value text i s)
        (sym (
          steps
          ∙ ap
              (λ w.
                (put (record s1 { target = (write s.target i w).1; regbuf = r' })
                    >> (test is_zero (write s.target i w).0
                        then reply done
                        else reply (error_text (write s.target i w).0)))
                  s1)
              taken
          ∙ then-ok (put (record s1 { target = (write s.target i v).1; regbuf = r' })) _ s1 refl))
        (ends_in v r' parsed)
