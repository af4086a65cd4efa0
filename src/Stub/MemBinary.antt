-- ===== src/Stub/MemBinary.antt =====
-- What an `X` packet hands to the target.
use mini_gdbstub.Base.{
  ℕ, ◌+◌, ◌-◌, ◌%◌, ◌^◌, ◌<◌, ◌≡◌, refl, ap, ◌∙◌, true, some, List, ◌∷◌, ◌++◌, arith, length, take,
  drop, ◌==◌, ==_refl, ==_iff, assert, defined, Lacks, cstr, IsBytes, take-append,
}
use mini_gdbstub.Base.Int.{ℤ}
use mini_gdbstub.Translate.{unescape}
use mini_gdbstub.Translate.Escape.{escape, unescape-escape}
use mini_gdbstub.Stub.Types.{Env, Stub}
use mini_gdbstub.Stub.Monad.{asserted, get, put_target, lift, non_null, reply, done}
use mini_gdbstub.Stub.Memory.{scan_range, process_mem_xwrite}
use mini_gdbstub.Stub.Steps.{
  bind-ok, then-ok, non_null-some, lift-ok, get-ok, asserted-some, put_target-ok,
}
use mini_gdbstub.Stub.MemWrite.{cstr-append, split_at-append, behind_colon}

module _ {T : Type 0} (env : Env T) (write : T → (addr len : ℕ) → List ℕ → ℤ × T) where
  -- An `X` packet whose text is a range, a colon and the escaped form of as many bytes hands exactly
  -- these bytes to `write_mem`, once, and answers `OK`, for fewer than 2^31 bytes.
  pub process_mem_xwrite-passes :
      (range value rest : List ℕ) (addr : ℕ) (s : Stub T)
      → scan_range range ≡ some (addr, length value)
      → Lacks 0 range
      → Lacks b':' range
      → IsBytes value
      → length value < 2 ^ 31
      → process_mem_xwrite env write
          (length range + 1 + length (escape value))
          (range ++ (b':' ∷ (escape value ++ (0 ∷ rest))))
          s
        ≡ reply done (record s { target = (write s.target addr (length value) value).1 })
  unfolding process_mem_xwrite
  process_mem_xwrite-passes range value rest addr s scanned text no_colon bytes small =
      let tail = escape value ++ (0 ∷ rest) in
      let raw = range ++ (b':' ∷ tail) in
      let n : length range + 1 + length (escape value) - (length range + 1)
          ≡ length (escape value) =
        omega arith in
      let plain : unescape
            (take (length range + 1 + length (escape value) - (length range + 1))
              (drop (length range + 1) raw))
            0
          ≡ value =
        ap (λ k. unescape (take k (drop (length range + 1) raw)) 0) n
        ∙ ap (λ xs. unescape (take (length (escape value)) xs) 0) (behind_colon range tail)
        ∙ ap (λ xs. unescape xs 0) (take-append (escape value) (0 ∷ rest))
        ∙ unescape-escape value 0 bytes in
      let fits : (length value == length value % 2 ^ 32) ≡ true =
        (==_iff _ _).1 (omega (arith, small)) in
      rw
        (
          cstr-append range tail text,
          split_at-append b':' range (cstr tail) no_colon,
          process_mem_xwrite,
        )
        (bind-ok (asserted (scan_range range)) _ s (asserted-some _ s scanned)
          ∙ bind-ok (non_null (some (cstr tail))) _ s (non_null-some _ s refl)
          ∙ rw plain (
              then-ok (lift (assert (length value == length value % 2 ^ 32))) _ s
                (lift-ok _ s (ap assert fits))
              ∙ then-ok (lift (defined (length value == length value))) _ s
                  (lift-ok _ s (ap defined (==_refl (length value))))
              ∙ bind-ok get _ s (get-ok s)
              ∙ then-ok (put_target (write s.target addr (length value) value).1) _ s
                  (put_target-ok _ s)))
