-- ===== src/Conn/Tests.antt =====
-- The sending loop on concrete outcomes of `poll` and `write`.
use mini_gdbstub.Base.{
  ◌+◌, ◌*◌, ◌≡◌, refl, false, some, List, [], ◌∷◌, arith, codes, suc, leb, if◌then◌else◌, ok,
}
use mini_gdbstub.Csum.{compute_checksum}
use mini_gdbstub.Translate.{hexchar}
use mini_gdbstub.Conn.{
  Turn, unwritable, wrote, write_error, eagain, other, send_loop, conn_try_send_str, conn_send_str,
  conn_send_pktstr,
}
use mini_gdbstub.Conn.Delivery.{Splits, stalled, send_loop-prefix, send_loop-stalled}

-- The first byte goes out, the socket stalls, and then it fails.
abbrev turns : List Turn
turns = wrote 1 ∷ unwritable ∷ write_error eagain ∷ write_error other ∷ []

cut_short : conn_send_str (codes "+ab") turns ≡ record { result = some false; out = codes "+" }
unfolding conn_send_str send_loop
cut_short = refl

-- With no timeout the stall ends it.
no_wait :
    conn_try_send_str false (codes "+ab") turns ≡ record { result = some false; out = codes "+" }
unfolding conn_try_send_str send_loop
no_wait = refl

framed : conn_send_pktstr (codes "OK") ≡ ok (codes "$OK#9a")
unfolding conn_send_pktstr hexchar compute_checksum
framed = refl

send_loop-prefix_example : Splits (codes "+ab") (send_loop 5000 0 (codes "+ab") turns)
send_loop-prefix_example = send_loop-prefix 5000 0 (codes "+ab") turns

send_loop-stalled_example : send_loop 5000 0 (codes "+") (stalled (suc 49) turns) ≡ (
    if leb 5000 (0 + 100 * suc 49)
    then record { result = some false; out = [] }
    else send_loop 5000 (0 + 100 * suc 49) (codes "+") turns)
send_loop-stalled_example = send_loop-stalled 5000 0 b'+' [] 49 turns (omega arith)
