-- ===== src/Conn/Delivery.antt =====
-- What the sending loop puts on the wire.
use mini_gdbstub.Base.{
  ℕ, zero, suc, ◌+◌, ◌*◌, ◌<◌, ◌≡◌, refl, ap, ◌∙◌, sym, inl, inr, ◌≢◌, ◌⊎◌, true, false, some, List,
  [], ◌∷◌, ◌++◌, arith, take, drop, take-append-drop, append_assoc, Bool-cases, leb, lt→leb,
  if◌then◌else◌,
}
use mini_gdbstub.Conn.{
  Turn, unwritable, wrote, write_error, retries, Sent, after, send_loop, conn_send_poll_ms,
}

-- A run that sent a prefix of the text; all of it, if it reports success.
abbrev pub Splits : List ℕ → Sent → Type 0
Splits str s = (left : List ℕ) × (str ≡ s.out ++ left) × ((s.result ≢ some true) ⊎ (left ≡ []))

after-Splits :
    (n : ℕ) (str : List ℕ) (s : Sent) → Splits (drop n str) s → Splits str (after (take n str) s)
after-Splits n str s (left, e, whole) = (
  left,
  sym (take-append-drop n str)
      ∙ ap (λ xs. take n str ++ xs) e
      ∙ sym (append_assoc (take n str) s.out left),
  whole,
)

-- Whatever the socket does, the bytes sent are a prefix of the text, in order and with none
-- repeated, and the loop reports success only when it has sent the whole text.
pub send_loop-prefix :
    (timeout waited : ℕ) (str : List ℕ) (turns : List Turn)
    → Splits str (send_loop timeout waited str turns)
unfolding send_loop
send_loop-prefix t w [] turns = ([], refl, inr refl)
send_loop-prefix t w (x ∷ str) [] = (x ∷ str, refl, inl (λ e. cc))
send_loop-prefix t w (x ∷ str) (unwritable ∷ turns) =
    elim (Bool-cases (leb t (w + conn_send_poll_ms))) [
      | inl late ↦ rw late (x ∷ str, refl, inl (λ e. cc))
      | inr early ↦ rw early (send_loop-prefix t (w + conn_send_poll_ms) (x ∷ str) turns)
    ]
send_loop-prefix t w (x ∷ str) (wrote n ∷ turns) =
    after-Splits n (x ∷ str) (send_loop t 0 (drop n (x ∷ str)) turns)
      (send_loop-prefix t 0 (drop n (x ∷ str)) turns)
send_loop-prefix t w (x ∷ str) (write_error e ∷ turns) = elim (Bool-cases (retries t e)) [
  | inl again ↦ rw again (send_loop-prefix t w (x ∷ str) turns)
  | inr fatal ↦ rw fatal (x ∷ str, refl, inl (λ e. cc))
]

-- A socket that takes nothing for `k` polls in a row.
abbrev pub stalled : ℕ → List Turn → List Turn
stalled zero turns = turns
stalled (suc k) turns = unwritable ∷ stalled k turns

-- After any number of polls in a row that time out, with the timeout not reached before the last of
-- them, the loop has sent nothing; it gives up exactly if the timeout is reached now.
pub send_loop-stalled :
    (timeout waited : ℕ) (x : ℕ) (str : List ℕ) (k : ℕ) (turns : List Turn)
    → waited + 100 * k < timeout
    → send_loop timeout waited (x ∷ str) (stalled (suc k) turns) ≡ (
        if leb timeout (waited + 100 * suc k)
        then record { result = some false; out = [] }
        else send_loop timeout (waited + 100 * suc k) (x ∷ str) turns)
unfolding send_loop
send_loop-stalled t w x str zero turns h = let e : w + 100 * 1 ≡ w + 100 = omega arith in rw e refl
send_loop-stalled t w x str (suc k) turns h =
    let e : w + 100 * suc (suc k) ≡ w + 100 + 100 * suc k = omega arith in
    rw (lt→leb t (w + 100) (omega arith), e)
      (send_loop-stalled t (w + 100) x str k turns (omega arith))
