-- ===== src/Stub/Xfer.antt =====
-- The target description, read in windows.
use mini_gdbstub.Base.{
  ℕ, zero, suc, ◌+◌, ◌-◌, ◌<◌, ◌≤◌, ◌≡◌, refl, ap, inl, inr, Bool, true, false, Option, none, some,
  List, [], ◌∷◌, ◌++◌, arith, length, take, drop, ltb, ◌==◌, if◌then◌else◌, Bool-cases, ltb→lt,
  ltb→le, lt→ltb, le→ltb, take-all, length-drop, length-take, take-append-drop, drop_add, ok, abort,
  fault, le→leb, ◌∙◌, ◌^◌,
}
use mathlib.Core.Option
use mini_gdbstub.Conn.{max_data_payload, max_send_packet_size, conn_send_pktstr, packet_text}
use mini_gdbstub.Stub.Query.{payload_length, xfer_window}

-- What a client makes of an answer: the data, and whether more is to come.
abbrev pub answer_of : List ℕ → Option (Bool × List ℕ)
answer_of [] = none
answer_of (c ∷ xs) =
    if c == b'l' then some (false, xs) else (if c == b'm' then some (true, xs) else none)

-- A client that reads window after window, each of `len` bytes, from where the last one ended, and
-- takes the text of an answer as it is, without its frame; `none` if the stub is undefined there.
unfoldable pub fetch : ℕ → (desc : List ℕ) → (offset len : ℕ) → Option (List ℕ)
fetch zero desc offset len = none
fetch (suc fuel) desc offset len = elim (xfer_window desc offset len) [
  | abort ↦ none
  | fault ↦ none
  | ok text ↦ elim (answer_of text) [
    | none ↦ none
    | some (false, xs) ↦ some xs
    | some (true, xs) ↦ Option.map (λ rest. xs ++ rest) (fetch fuel desc (offset + length xs) len)
  ]
]

-- The windows that are defined: inside a description whose length is an `int`, of a positive `int`.
pub record InRange (desc : List ℕ) (offset len : ℕ) : Type 0 where
  pub inside : offset ≤ length desc
  pub size : length desc < 2 ^ 31
  pub positive : 0 < len
  pub int : len < 2 ^ 31

abbrev window : List ℕ → ℕ → ℕ → List ℕ
window desc offset len =
    (if ltb (length desc - offset) (payload_length len) then b'l' else b'm')
    ∷ take (payload_length len - 1) (drop offset desc)

window_ok :
    (desc : List ℕ) (offset len : ℕ)
    → InRange desc offset len
    → xfer_window desc offset len ≡ ok (window desc offset len)
unfolding xfer_window
window_ok desc offset len r =
    rw
      (
        le→leb offset (length desc) r.inside,
        lt→ltb (length desc) (2 ^ 31) r.size,
        lt→ltb 0 len r.positive,
        lt→ltb len (2 ^ 31) r.int,
      )
      refl

-- The window is the last one exactly if it holds all that is left.
window_last :
    (desc : List ℕ) (offset len : ℕ)
    → InRange desc offset len
    → length desc - offset < payload_length len
    → xfer_window desc offset len ≡ ok (b'l' ∷ drop offset desc)
window_last desc offset len r h =
    window_ok desc offset len r
    ∙ rw
        (
          lt→ltb (length desc - offset) (payload_length len) h,
          take-all (payload_length len - 1) (drop offset desc)
              (omega (arith, length-drop offset desc, h)),
        )
        refl

window_more :
    (desc : List ℕ) (offset len : ℕ)
    → InRange desc offset len
    → payload_length len ≤ length desc - offset
    → xfer_window desc offset len ≡ ok (b'm' ∷ take (payload_length len - 1) (drop offset desc))
window_more desc offset len r h =
    window_ok desc offset len r ∙ rw (le→ltb (length desc - offset) (payload_length len) h) refl

payload_length-bounds :
    (len : ℕ)
    → 2 ≤ len
    → (2 ≤ payload_length len)
      × (payload_length len ≤ len)
      × (payload_length len ≤ max_data_payload)
unfolding payload_length
payload_length-bounds len h = ground arith

-- The rest of the description is what the next window begins with.
window_join :
    (n offset : ℕ) (desc : List ℕ)
    → n ≤ length desc - offset
    → take n (drop offset desc) ++ drop (offset + length (take n (drop offset desc))) desc
      ≡ drop offset desc
window_join n offset desc h =
    let size : length (take n (drop offset desc)) ≡ n =
      omega (arith, length-take n (drop offset desc), length-drop offset desc, h) in
    rw (size, drop_add offset n desc) (take-append-drop n (drop offset desc))

-- From any place in a description shorter than 2^31, a client that asks for at least two bytes at a
-- time, fewer than 2^31, and has a round for each byte left, puts together exactly the rest of it
-- from the texts of the answers.
pub fetch_lem :
    (fuel : ℕ) (desc : List ℕ) (offset len : ℕ)
    → InRange desc offset len
    → 2 ≤ len
    → length desc - offset < fuel
    → fetch fuel desc offset len ≡ some (drop offset desc)
unfolding fetch
fetch_lem zero desc offset len range two enough = absurd (omega arith)
fetch_lem (suc fuel) desc offset len range two enough =
    elim (Bool-cases (ltb (length desc - offset) (payload_length len))) [
      | inl last ↦ rw (window_last desc offset len range (ltb→lt _ _ last), fetch) refl
      | inr more ↦
          let left : payload_length len ≤ length desc - offset = ltb→le _ _ more in
          let bounds = payload_length-bounds len two in
          let n = payload_length len - 1 in
          let size : length (take n (drop offset desc)) ≡ n =
            omega (arith, length-take n (drop offset desc), length-drop offset desc, left) in
          let range' : InRange desc (offset + length (take n (drop offset desc))) len = record {
            inside = omega (arith, size, left, bounds.0, range.inside);
            size = range.size;
            positive = range.positive;
            int = range.int;
          } in
          rw
            (
              window_more desc offset len range left,
              fetch_lem fuel desc (offset + length (take n (drop offset desc))) len range' two
                  (omega (arith, size, left, bounds.0)),
              fetch,
            )
            (ap some (window_join n offset desc (omega (arith, left))))
    ]

payload_length-le : (len : ℕ) → payload_length len ≤ max_data_payload
unfolding payload_length
payload_length-le len = ground arith

length-window :
    (desc : List ℕ) (offset len : ℕ) → length (window desc offset len) ≤ max_data_payload
length-window desc offset len =
    omega (arith, length-take (payload_length len - 1) (drop offset desc), payload_length-le len)

-- Every window of a positive length below 2^31, that starts inside a description shorter than 2^31 or
-- at its end, is defined, and its answer fits the buffer of `conn_send_pktstr`.
pub xfer_window-fits :
    (desc : List ℕ) (offset len : ℕ)
    → InRange desc offset len
    → (text : List ℕ) × (xfer_window desc offset len ≡ ok text)
      × (conn_send_pktstr text ≡ ok (packet_text text))
unfolding conn_send_pktstr
xfer_window-fits desc offset len range =
    let text = window desc offset len in
    (
      text,
      window_ok desc offset len range,
      rw
          (lt→ltb (length text + 2 + 2 + 1) max_send_packet_size
            (omega (arith, length-window desc offset len)))
          refl,
    )
