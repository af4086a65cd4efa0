-- ===== src/Stub/MemWrite.antt =====
-- What an `M` packet hands to the target.
use mathlib.Core.Option
use mini_gdbstub.Base.{
  ◌<◌, ◌%◌, ◌^◌, le→leb, lt→ltb, length-blit, ℕ, ◌+◌, ◌≡◌, refl, sym, ap, ◌∙◌, some, List, [], ◌∷◌,
  ◌++◌, arith, length, drop, blit, ==_refl, ne→==, ok, if◌then◌else◌, Lacks, cstr, IsBytes,
  drop-append, slice-blit, length-append, append_assoc,
}
use mini_gdbstub.Base.Int.{ℤ}
use mini_gdbstub.Translate.{hex_digits, str_to_hex, int_count}
use mini_gdbstub.Translate.HexRoundTrip.{str_to_hex-hex_digits}
use mini_gdbstub.Stub.Types.{Env, Stub}
use mini_gdbstub.Stub.Monad.{
  asserted, get, put_target, lift, non_null, reply, done, error_text, split_at, test◌then◌else◌,
}
use mini_gdbstub.Stub.Registers.{is_zero}
use mini_gdbstub.Stub.Memory.{scan_range, filled, first_bytes, process_mem_write}
use mini_gdbstub.Stub.Steps.{
  bind-ok, then-ok, non_null-some, lift-ok, get-ok, store_at-ok, asserted-some, put_target-ok,
}

-- The C string of a text that goes on behind a colon.
pub cstr-append : (xs ys : List ℕ) → Lacks 0 xs → cstr (xs ++ (b':' ∷ ys)) ≡ xs ++ (b':' ∷ cstr ys)
unfolding cstr
cstr-append [] ys h = refl
cstr-append (x ∷ xs) ys h = rw (ne→== x 0 h.0, cstr-append xs ys h.1) refl

pub split_at-append :
    (c : ℕ) (xs ys : List ℕ) → Lacks c xs → split_at c (xs ++ (c ∷ ys)) ≡ (xs, some ys)
unfolding split_at
split_at-append c [] ys h = rw (==_refl c) refl
split_at-append c (x ∷ xs) ys h = rw (ne→== x c h.0, split_at-append c xs ys h.1) refl

-- What stands behind the colon.
pub behind_colon : (range tail : List ℕ) → drop (length range + 1) (range ++ (b':' ∷ tail)) ≡ tail
behind_colon range tail =
    let at : length range + 1 ≡ length (range ++ (b':' ∷ [])) =
      omega (arith, length-append range (b':' ∷ [])) in
    ap (λ n. drop n (range ++ (b':' ∷ tail))) at
    ∙ ap (drop (length (range ++ (b':' ∷ [])))) (sym (append_assoc range (b':' ∷ []) tail))
    ∙ drop-append (range ++ (b':' ∷ [])) tail

pub filled-ok :
    (block value : List ℕ)
    → length block ≡ length value
    → filled (some block) value ≡ ok (blit block 0 value)
unfolding filled
filled-ok block value h = store_at-ok block value 0 (omega (arith, h))

pub int_count-small : (n : ℕ) → n < 2 ^ 31 → int_count n ≡ some n
unfolding int_count
int_count-small n h = let e : n % 2 ^ 32 ≡ n = omega arith in rw (e, lt→ltb n (2 ^ 31) h) refl

pub first_bytes-filled :
    (block value : List ℕ)
    → length block ≡ length value
    → first_bytes (length value) (blit block 0 value) ≡ ok value
unfolding first_bytes
first_bytes-filled block value h =
    rw
      (le→leb (length value) (length (blit block 0 value))
        (omega (arith, length-blit block 0 value (omega (arith, h)), h)))
      (ap ok (slice-blit block value 0 (omega arith)))

module _ {T : Type 0} (env : Env T) (write : T → (addr len : ℕ) → List ℕ → ℤ × T) where
  -- An `M` packet whose text is a range, a colon and the hexadecimal text of as many bytes hands
  -- exactly these bytes to `write_mem`, once, and answers as its return code says, if `malloc` has a
  -- block of that size, below 2^31 bytes.
  pub process_mem_write-passes :
      (range value rest block : List ℕ) (addr : ℕ) (s : Stub T)
      → scan_range range ≡ some (addr, length value)
      → Lacks 0 range
      → Lacks b':' range
      → IsBytes value
      → env.malloc (length value) ≡ some block
      → length block ≡ length value
      → length value < 2 ^ 31
      → process_mem_write env write (range ++ (b':' ∷ (hex_digits value ++ (0 ∷ rest)))) s
        ≡ (test is_zero (write s.target addr (length value) value).0
              then reply done
              else reply (error_text (write s.target addr (length value) value).0))
            (record s { target = (write s.target addr (length value) value).1 })
  unfolding process_mem_write
  process_mem_write-passes range value rest block addr s scanned text no_colon bytes there size
        small =
      let tail = hex_digits value ++ (0 ∷ rest) in
      let raw = range ++ (b':' ∷ tail) in
      let count : int_count (length value) ≡ some (length value) = int_count-small _ small in
      let parse : str_to_hex (drop (length range + 1) raw)
            (Option.get_or (int_count (length value)) 0)
          ≡ some value =
        ap (λ o. str_to_hex (drop (length range + 1) raw) (Option.get_or o 0)) count
        ∙ ap (λ xs. str_to_hex xs (length value)) (behind_colon range tail)
        ∙ str_to_hex-hex_digits value (0 ∷ rest) bytes in
      rw
        (
          cstr-append range tail text,
          split_at-append b':' range (cstr tail) no_colon,
          process_mem_write,
        )
        (bind-ok (asserted (scan_range range)) _ s (asserted-some _ s scanned)
          ∙ bind-ok (non_null (some (cstr tail))) _ s (non_null-some _ s refl)
          ∙ bind-ok
              (non_null (
                str_to_hex (drop (length range + 1) raw)
                  (Option.get_or (int_count (length value)) 0)))
              _ s (non_null-some _ s parse)
          ∙ bind-ok (lift (filled (env.malloc (length value)) value)) _ s
              (lift-ok _ s (ap (λ o. filled o value) there ∙ filled-ok block value size))
          ∙ bind-ok (lift (first_bytes (length value) (blit block 0 value))) _ s
              (lift-ok _ s (first_bytes-filled block value size))
          ∙ bind-ok get _ s (get-ok s)
          ∙ then-ok (put_target (write s.target addr (length value) value).1) _ s
              (put_target-ok _ s))
