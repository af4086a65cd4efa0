-- ===== src/Stub/MemRead.antt =====
-- What an `m` packet sends, and how much fits.
use mini_gdbstub.Base.{
  none, Option, ◌/◌, ◌%◌, ◌^◌, ltb, if◌then◌else◌, Bool-cases, inl, inr, length-take, take-take,
  take-all, ℕ, zero, suc, ◌+◌, ◌*◌, ◌≤◌, ◌≡◌, refl, sym, ap, subst, ◌∙◌, true, some, List, [], ◌∷◌,
  ◌++◌, arith, length, take, drop, blit, le→leb, lt→ltb, ok, fault, Lacks, IsBytes, take-append,
  slice-blit, length-append, append_assoc, find_index-append, length-blit,
}
use mini_gdbstub.Base.Int.{ℤ, pos, negsuc}
use mini_gdbstub.Base.Format.{dec_digits, show_int}
use mini_gdbstub.Conn.{packet_text, max_send_packet_size}
use mini_gdbstub.Translate.{hex_digits, hex_to_str, int_count}
use mini_gdbstub.Translate.HexRoundTrip.{length-hex_digits, hex_digits-Lacks}
use mini_gdbstub.Stub.Types.{Env, Stub}
use mini_gdbstub.Stub.Monad.{
  Cmd, ◌>>=◌, asserted, get, put_target, lift, non_null, reply, error_text, text_in, store_at,
}
use mini_gdbstub.Stub.Registers.{is_zero}
use mini_gdbstub.Stub.Memory.{scan_range, filled, first_bytes, process_mem_read}
use mini_gdbstub.Stub.Steps.{
  bind-ok, bind-fault, bind-same, then-ok, test-true, lift-ok, lift-fault, get-ok, store_at-ok,
  store_at-fault, asserted-some, non_null-some, put_target-ok,
}
use mini_gdbstub.Stub.MemWrite.{filled-ok, int_count-small}

-- A text and its NUL at the start of a buffer read back as the text.
pub text_in-blit : (buf xs : List ℕ) → Lacks 0 xs → text_in (blit buf 0 (xs ++ (0 ∷ []))) ≡ ok xs
unfolding text_in
text_in-blit buf xs h =
    let rest = drop (0 + length (xs ++ (0 ∷ []))) buf in
    let same : blit buf 0 (xs ++ (0 ∷ [])) ≡ xs ++ (0 ∷ rest) = append_assoc xs (0 ∷ []) rest in
    subst (λ ys. text_in ys ≡ ok xs) (sym same)
      (rw (find_index-append 0 xs rest h, text_in) (ap ok (take-append xs (0 ∷ rest))))

pub reply-ok :
    {T : Type 0} (str : List ℕ) (s : Stub T)
    → length str ≤ 4090
    → reply str s ≡ ok (tt, record s { sent = s.sent ++ (packet_text str ∷ []) })
unfolding reply
reply-ok str s h =
    rw (lt→ltb (length str + 2 + 2 + 1) max_send_packet_size (omega arith), reply) refl

length-dec_digits :
    (fuel n : ℕ) (digits : List ℕ) → length (dec_digits fuel n digits) ≤ fuel + length digits
unfolding dec_digits
length-dec_digits zero n digits = omega arith
length-dec_digits (suc fuel) n digits =
    let more = length-dec_digits fuel (n / 10) ((b'0' + n % 10) ∷ digits) in ground (arith, more)

-- The text of an error is short.
pub error_reply-ok :
    {T : Type 0} (ret : ℤ) (s : Stub T)
    → reply (error_text ret) s
      ≡ ok (tt, record s { sent = s.sent ++ (packet_text (error_text ret) ∷ []) })
unfolding error_text show_int
error_reply-ok (pos n) s = reply-ok _ s (omega (arith, length-dec_digits 10 n []))
error_reply-ok (negsuc n) s = reply-ok _ s (omega (arith, length-dec_digits 10 (suc n) []))

module _ {T : Type 0} (env : Env T) (read : T → (addr len : ℕ) → ℤ × List ℕ × T)
    (payload block : List ℕ) (addr mlen : ℕ) (s : Stub T)
    (scanned : scan_range payload ≡ some (addr, mlen))
    (good : is_zero (read s.target addr mlen).0 ≡ true)
    (size : length (read s.target addr mlen).1 ≡ mlen) (bytes : IsBytes (read s.target addr mlen).1)
    (there : env.malloc mlen ≡ some block) (room : length block ≡ mlen)
    (stack : length env.stack ≡ 4096) where
  abbrev value : List ℕ
  value = (read s.target addr mlen).1

  abbrev after : Stub T
  after = record s { target = (read s.target addr mlen).2 }

  -- The text that is stored for a length, and what is left once the target has been read.
  stores : Option ℕ → Cmd T (List ℕ)
  stores count = do
    bytes ← non_null count
    text ← lift (first_bytes bytes (blit block 0 value))
    lift (store_at env.stack 0 (hex_to_str text))

  rest : Option ℕ → Cmd T (Unit {0})
  rest count = do packet ← stores count; str ← lift (text_in packet); reply str

  -- As many bytes as `hex_to_str` takes.
  first : (n : ℕ) → n ≤ mlen → first_bytes n (blit block 0 value) ≡ ok (take n value)
  unfolding first_bytes
  first n few =
      let whole : take mlen (blit block 0 value) ≡ value =
        ap (λ k. take k (blit block 0 value)) (sym size) ∙ slice-blit block value 0 (omega arith) in
      rw
        (le→leb n (length (blit block 0 value))
          (omega (arith, room, length-blit block 0 value (omega (arith, room, size)))))
        (ap ok (sym (take-take n mlen (blit block 0 value) few) ∙ ap (take n) whole))

  as_rest : process_mem_read env read payload s ≡ rest (int_count mlen) after
  unfolding process_mem_read rest stores
  as_rest =
      bind-ok (asserted (scan_range payload)) _ s (asserted-some _ s scanned)
      ∙ bind-ok get _ s (get-ok s)
      ∙ bind-ok (lift (filled (env.malloc mlen) value)) _ s
          (lift-ok _ s (ap (λ o. filled o value) there ∙ filled-ok block value (room ∙ sym size)))
      ∙ then-ok (put_target (read s.target addr mlen).2) _ s (put_target-ok _ s)
      ∙ bind-same _ (stores (int_count mlen)) _ after (ap (λ m. m after) (test-true _ _ _ good))

  stores-some :
      (n : ℕ)
      → n ≤ mlen
      → stores (some n) after ≡ lift (store_at env.stack 0 (hex_to_str (take n value))) after
  unfolding stores
  stores-some n few =
      bind-ok (non_null (some n)) _ after (non_null-some _ after refl)
      ∙ bind-ok (lift (first_bytes n (blit block 0 value))) _ after (lift-ok _ after (first n few))

  text_size : (xs : List ℕ) → length (hex_to_str xs) ≡ 2 * length xs + 1
  unfolding hex_to_str
  text_size xs = omega (arith, length-hex_digits xs, length-append (hex_digits xs) (0 ∷ []))

  -- An `m` packet for at most 2045 bytes, that the target reads with success and as many bytes, is
  -- answered with exactly these bytes in hexadecimal, if `malloc` has a block of that size.
  pub process_mem_read-sends :
      mlen ≤ 2045
      → process_mem_read env read payload s
        ≡ ok (tt, record after { sent = s.sent ++ (packet_text (hex_digits value) ∷ []) })
  unfolding rest hex_to_str
  process_mem_read-sends few =
      let all : take mlen value ≡ value = take-all mlen value (omega (arith, size)) in
      as_rest
      ∙ ap (λ o. rest o after) (int_count-small mlen (omega (arith, few)))
      ∙ bind-ok (stores (some mlen)) _ after (
          stores-some mlen (omega arith)
          ∙ ap (λ xs. lift {T = T} (store_at env.stack 0 (hex_to_str xs)) after) all
          ∙ lift-ok _ after (
              store_at-ok env.stack (hex_to_str value) 0
                (omega (arith, stack, text_size value, size))))
      ∙ bind-ok (lift (text_in (blit env.stack 0 (hex_to_str value)))) _ after (
          lift-ok _ after
            (text_in-blit env.stack (hex_digits value) (hex_digits-Lacks value bytes)))
      ∙ reply-ok (hex_digits value) after (omega (arith, length-hex_digits value, size))

  stores-fault : 2048 ≤ mlen % 2 ^ 32 → stores (int_count mlen) after ≡ fault
  unfolding int_count
  stores-fault many = elim (Bool-cases (ltb (mlen % 2 ^ 32) (2 ^ 31))) [
    | inr negative ↦
        ap (λ b. stores (if b then some (mlen % 2 ^ 32) else none) after) negative
        ∙ unfold stores non_null in bind-fault (non_null none) _ after refl
    | inl positive ↦
        let n = mlen % 2 ^ 32 in
        let few : n ≤ mlen = omega arith in
        let count : length (take n value) ≡ n = omega (arith, length-take n value, size, few) in
        ap (λ b. stores (if b then some n else none) after) positive
        ∙ stores-some n few
        ∙ lift-fault _ after (
            store_at-fault env.stack (hex_to_str (take n value)) 0
              (omega (arith, stack, text_size (take n value), count, many)))
  ]

  -- The answer to an `m` packet for a length that is 2048 or more modulo 2^32, that the target reads
  -- with success and as many bytes, is written outside its buffer, if `malloc` has a block of that
  -- size: past its end, or in front of it for a length that is negative as an `int`.
  pub process_mem_read-overflows :
      2048 ≤ mlen % 2 ^ 32 → process_mem_read env read payload s ≡ fault
  unfolding rest
  process_mem_read-overflows many =
      as_rest ∙ bind-fault (stores (int_count mlen)) _ after (stores-fault many)
