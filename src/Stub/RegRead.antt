-- ===== src/Stub/RegRead.antt =====
-- What a `p` packet of src/gdbstub.c answers.
use mini_gdbstub.Base.{
  ℕ, ◌+◌, ◌*◌, ◌^◌, ◌<◌, ◌≤◌, ◌≡◌, refl, sym, ap, ◌∙◌, inl, inr, true, some, List, [], ◌∷◌, ◌++◌,
  arith, length, take, blit, Bool-cases, leb, leb→le, if◌then◌else◌, ok, slice-blit, length-append,
  Option, IsBytes,
}
use mini_gdbstub.Base.Int.{ℤ}
use mini_gdbstub.Base.Format.{scan_x}
use mini_gdbstub.Conn.{packet_text}
use mini_gdbstub.Translate.{hex_digits, hex_to_str}
use mini_gdbstub.Translate.HexRoundTrip.{length-hex_digits, hex_digits-Lacks}
use mini_gdbstub.Regbuf.{Regbuf, regbuf_get}
use mini_gdbstub.Regbuf.Growth.{IsValid, grow_total}
use mini_gdbstub.Stub.Types.{Env, Stub}
use mini_gdbstub.Stub.Monad.{
  ◌>>◌, asserted, lift, non_null, get, put, pure, error_text, text_in, store_at,
}
use mini_gdbstub.Stub.Registers.{is_zero, reg_bytes, reg_block, read_value, process_reg_read_one}
use mini_gdbstub.Stub.Steps.{
  bind-ok, then-ok, non_null-some, lift-ok, get-ok, store_at-ok, asserted-some,
}
use mini_gdbstub.Stub.MemRead.{text_in-blit, reply-ok}
use mini_gdbstub.Stub.Saving.{IsReader}

-- A `malloc` that always has a block of the size asked for.
abbrev pub HasMemory : (ℕ → Option (List ℕ)) → Type 0
HasMemory malloc = (n : ℕ) → (b : List ℕ) × (malloc n ≡ some b) × (length b ≡ n)

pub regbuf_get-block :
    (malloc : ℕ → Option (List ℕ)) (r : Regbuf) (n : ℕ) (held : List ℕ)
    → HasMemory malloc
    → IsValid r
    → r.buf ≡ some held
    → n ≤ 2 ^ 63
    → (r' : Regbuf) × (block : List ℕ) × (regbuf_get malloc r n ≡ some r')
      × (r'.buf ≡ some block)
      × (n ≤ length block)
unfolding regbuf_get
regbuf_get-block malloc r n held memory v e b = elim (Bool-cases (leb n r.sz)) [
  | inl fits ↦ (r, held, rw fits refl, e, omega (arith, leb→le n r.sz fits, v.block held e))
  | inr small ↦
      let (s, run, g) =
        grow_total 63 n r.sz (omega (arith, v.min_size)) b (omega (arith, v.min_size)) in
      let (block, got, size) = memory s in
      (
        record { buf = malloc s; sz = s },
        block,
        rw (small, run) refl,
        got,
        omega (arith, g.fits, size),
      )
]

module _ {T : Type 0} (env : Env T) (s : Stub T) (i : ℕ) where
  pub block_found :
      (r : Regbuf) (block : List ℕ)
      → regbuf_get env.malloc s.regbuf (reg_bytes env i) ≡ some r
      → r.buf ≡ some block
      → reg_block env (reg_bytes env i) s ≡ ok (block, record s { regbuf = r })
  unfolding reg_block put
  block_found r block run held =
      bind-ok get _ s (get-ok s)
      ∙ bind-ok (non_null (regbuf_get env.malloc s.regbuf (reg_bytes env i))) _ s
          (non_null-some _ s run)
      ∙ then-ok (put (record s { regbuf = r })) _ s refl
      ∙ non_null-some r.buf (record s { regbuf = r }) held

module _ {T : Type 0} (env : Env T) (read : T → ℕ → ℤ × List ℕ × T) (value : T → ℕ → List ℕ)
    (reader : IsReader env read value) (s : Stub T) (i : ℕ) (low : i < env.reg_num)
    (good : is_zero (read s.target i).0 ≡ true) where
  read_value-ok :
      (r : Regbuf) (block : List ℕ)
      → regbuf_get env.malloc s.regbuf (reg_bytes env i) ≡ some r
      → r.buf ≡ some block
      → reg_bytes env i ≤ length block
      → (r' : Regbuf) × (read_value env read i s
          ≡ ok (((read s.target i).0, blit block 0 (value s.target i)), record s { regbuf = r' }))
  unfolding read_value put pure ◌>>◌
  read_value-ok r block run held room =
      let same : (read s.target i).1 ≡ value s.target i = reader.gives s.target i low good in
      let stored : List ℕ = blit block 0 (value s.target i) in
      (
        record r { buf = some stored },
        bind-ok (reg_block env (reg_bytes env i)) _ s (block_found env s i r block run held)
            ∙ bind-ok get _ (record s { regbuf = r }) (get-ok (record s { regbuf = r }))
            ∙ bind-ok (lift (store_at block 0 (read s.target i).1)) _ (record s { regbuf = r })
                (lift-ok _ (record s { regbuf = r })
                  (store_at-ok block (read s.target i).1 0
                      (omega (arith, room, reader.fits s.target i low))
                    ∙ ap (λ xs. ok (blit block 0 xs)) same))
            ∙ ap
                (λ t. ok (
                  ((read s.target i).0, stored),
                  record s { target = t; regbuf = record r { buf = some stored } },
                ))
                (reader.keeps s.target i low),
      )

  module _ (payload rest held : List ℕ) (scanned : scan_x payload ≡ some (i, rest))
      (memory : HasMemory env.malloc) (valid : IsValid s.regbuf) (there : s.regbuf.buf ≡ some held)
      (stack : length env.stack ≡ 4096) where
    -- A `p` packet for a register of the target of at most 2045 bytes, that the target reads with
    -- success, is answered with exactly the register's value in hexadecimal, and changes no register:
    -- the target's read_reg keeps its contract, the scratch buffer is valid and malloc has memory.
    pub process_reg_read_one-sends :
        reg_bytes env i ≤ 2045
        → (r' : Regbuf) × (process_reg_read_one env read payload s
            ≡ ok (
              tt,
              record s {
                regbuf = r';
                sent = s.sent ++ (packet_text (hex_digits (value s.target i)) ∷ []);
              },
            ))
    unfolding process_reg_read_one hex_to_str
    process_reg_read_one-sends few =
        let v = value s.target i in
        let size : length v ≡ reg_bytes env i = reader.sizes s.target i low in
        let bytes : IsBytes v = reader.bytes s.target i low in
        let (r, block, run, got, room) =
          regbuf_get-block env.malloc s.regbuf (reg_bytes env i) held memory valid there
            (omega arith) in
        let (r', value_read) = read_value-ok r block run got room in
        let after : Stub T = record s { regbuf = r' } in
        let taken : take (reg_bytes env i) (blit block 0 v) ≡ v =
          ap (λ n. take n (blit block 0 v)) (sym size) ∙ slice-blit block v 0 (omega arith) in
        let text_size : length (hex_digits v ++ (0 ∷ [])) ≡ 2 * reg_bytes env i + 1 =
          omega (arith, length-hex_digits v, length-append (hex_digits v) (0 ∷ []), size) in
        let chosen =
          ap
            (λ b.
              lift {T = T}
                (store_at env.stack 0 (
                  if b
                  then hex_to_str (take (reg_bytes env i) (blit block 0 v))
                  else error_text (read s.target i).0 ++ (0 ∷ [])))
                after)
            good
          ∙ ap (λ xs. lift {T = T} (store_at env.stack 0 (hex_to_str xs)) after) taken
          ∙ lift-ok _ after
              (store_at-ok env.stack (hex_to_str v) 0 (omega (arith, stack, text_size, few))) in
        (
          r',
          bind-ok (asserted (scan_x payload)) _ s (asserted-some _ s scanned)
              ∙ bind-ok (read_value env read i) _ s value_read
              ∙ bind-ok _ _ after chosen
              ∙ bind-ok (lift (text_in (blit env.stack 0 (hex_to_str v)))) _ after (
                  lift-ok _ after
                    (text_in-blit env.stack (hex_digits v) (hex_digits-Lacks v bytes)))
              ∙ reply-ok (hex_digits v) after (omega (arith, length-hex_digits v, size, few)),
        )
