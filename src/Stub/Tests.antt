-- ===== src/Stub/Tests.antt =====
-- The stub on a small target: eight registers of four bytes, and no other operation.
use mini_gdbstub.Base.{
  ℕ, ◌%◌, ◌/◌, ◌==◌, ◌≡◌, refl, true, false, none, some, [], ◌∷◌, ◌++◌, map, arith, codes,
  replicate, ok, drop, some, ok, List, zero, suc, IsBytes, length-replicate, fault, length, ◌+◌,
}
use mini_gdbstub.Base.Format.{scan_lx, scan_char}
use mini_gdbstub.Base.Int.{ℤ, pos}
use mini_gdbstub.Csum.{compute_checksum}
use mini_gdbstub.Csum.Laws.{total}
use mini_gdbstub.Translate.{hex_digits, hexchar, str_to_hex}
use mini_gdbstub.Conn.{packet_text, conn_send_pktstr}
use mini_gdbstub.Stub.Query.{xfer_window}
use mini_gdbstub.Stub.Memory.{scan_range, process_mem_write, process_mem_xwrite, process_mem_read}
use mini_gdbstub.Translate.Escape.{escape}
use mini_gdbstub.Stub.MemBinary.{process_mem_xwrite-passes}
use mini_gdbstub.Stub.MemWrite.{process_mem_write-passes}
use mini_gdbstub.Stub.MemRead.{process_mem_read-sends, process_mem_read-overflows}
use mini_gdbstub.Stub.Registers.{is_zero}
use mini_gdbstub.Stub.Monad.{reply, done, error_text, test◌then◌else◌}
use mini_gdbstub.Stub.Xfer.{fetch, fetch_lem, xfer_window-fits}
use mini_gdbstub.Packet.{Packet, Pktbuf}
use mini_gdbstub.Packet.Fill.{contents}
use mini_gdbstub.Packet.Delivery.{IsIdle, Delivers}
use mini_gdbstub.Packet.Extract.{packet_of}
use mini_gdbstub.Stub.Types.{Env, Stub, TargetOps, act_none}
use mini_gdbstub.Stub.Dispatch.{packet_csum_verify}
use mini_gdbstub.Stub.Checksum.{packet_csum_verify_lem, packet_text-accepted}
use mini_gdbstub.Stub.Ends.{Ends}
use mini_gdbstub.Stub.Run.{arrived, closed, run_loop}
use mini_gdbstub.Stub.Failures.{after_failures, run_loop-failures, run_loop-gives_up}

-- Each register holds its number.
abbrev registers : TargetOps (Unit {0})
registers = record {
  cont = some (λ t. (act_none, t));
  stepi = none;
  get_reg_bytes = λ i. 4;
  read_reg = some (λ t i. (pos 0, i ∷ 0 ∷ 0 ∷ 0 ∷ [], t));
  write_reg = none;
  read_mem = none;
  write_mem = none;
  set_bp = none;
  del_bp = none;
  on_interrupt = none;
  set_cpu = none;
  get_cpu = none;
}

abbrev env : Env (Unit {0})
env = record {
  ops = registers;
  target_desc = none;
  smp = 1;
  reg_num = 8;
  malloc = λ n. some (replicate n 0);
  stack = replicate 4096 0;
}

abbrev stub : (failures : ℕ) → Stub (Unit {0})
stub failures = record {
  conn = record { no_ack_mode = false; failure_count = failures };
  regbuf = record { buf = some (replicate 8 0); sz = 8 };
  async_io = false;
  total_reg_bytes = 32;
  target = tt;
  sent = [];
}

abbrev good : Packet
good = packet_of (codes "g") b'6' b'7'

abbrev bad : Packet
bad = packet_of (codes "g") b'0' b'0'

bad_sum : packet_csum_verify bad ≡ some false
unfolding packet_csum_verify compute_checksum str_to_hex
bad_sum = refl

good_sum : packet_csum_verify good ≡ some true
unfolding packet_csum_verify compute_checksum str_to_hex
good_sum = refl

packet_csum_verify_lem_example :
    packet_csum_verify (packet_of (codes "g") (hexchar (0x67 / 16)) (hexchar (0x67 % 16)))
    ≡ some (total (codes "g") % 256 == 0x67)
packet_csum_verify_lem_example = packet_csum_verify_lem (codes "g") 0x67 (omega arith)

abbrev waiting : Pktbuf
waiting = record { size = 7; cap = 3; end_pos = none; block = codes "+$OK#9a" ++ (0 ∷ []) }

waiting-IsIdle : IsIdle waiting
waiting-IsIdle = record {
  valid = record { block_size = refl; fits = omega arith; end_in = λ e h. cc };
  idle = refl;
}

waiting_bytes : contents waiting ≡ codes "+" ++ packet_text (codes "OK")
unfolding packet_text hexchar compute_checksum
waiting_bytes = refl

packet_text-accepted_example :
    (p : Packet) × Delivers waiting p []
    × (p.content ≡ packet_text (codes "OK") ++ (0 ∷ []))
    × (packet_csum_verify p ≡ some true)
packet_text-accepted_example =
    packet_text-accepted waiting (codes "+") (codes "OK") waiting-IsIdle waiting_bytes
      (omega arith, tt) (omega arith, (omega arith, tt))

run_loop-failures_example :
    run_loop env (map arrived (bad ∷ bad ∷ []) ++ (closed ∷ [])) (stub 47)
    ≡ run_loop env (closed ∷ []) (after_failures 2 (stub 47))
run_loop-failures_example =
    run_loop-failures env (bad ∷ bad ∷ []) (closed ∷ []) (stub 47) (bad_sum, (bad_sum, tt))
      (omega arith)

run_loop-gives_up_example :
    run_loop env (map arrived (bad ∷ bad ∷ []) ++ (arrived bad ∷ arrived good ∷ [])) (stub 47)
    ≡ ok (some false, after_failures 3 (stub 47))
run_loop-gives_up_example =
    run_loop-gives_up env (bad ∷ bad ∷ []) bad (arrived good ∷ []) (stub 47)
      (bad_sum, (bad_sum, tt)) bad_sum refl

-- A description that takes three windows of four bytes.
fetch_lem_example : fetch 12 (codes "<target/>\n") 0 4 ≡ some (drop 0 (codes "<target/>\n"))
fetch_lem_example =
    fetch_lem 12 (codes "<target/>\n") 0 4
      (record {
        inside = omega arith;
        size = omega arith;
        positive = omega arith;
        int = omega arith;
      })
      (omega arith) (omega arith)

xfer_window-fits_example :
    (text : List ℕ) × (xfer_window (codes "<target/>\n") 2 0xffff ≡ ok text)
    × (conn_send_pktstr text ≡ ok (packet_text text))
xfer_window-fits_example =
    xfer_window-fits (codes "<target/>\n") 2 0xffff (record {
      inside = omega arith;
      size = omega arith;
      positive = omega arith;
      int = omega arith;
    })

first_window : xfer_window (codes "<target/>\n") 0 4 ≡ ok (codes "m<ta")
unfolding xfer_window
first_window = refl

-- Every write is taken.
abbrev takes : Unit {0} → ℕ → ℕ → List ℕ → ℤ × Unit {0}
takes t addr len v = (pos 0, tt)

-- Every byte is 7.
abbrev sevens : Unit {0} → ℕ → ℕ → ℤ × List ℕ × Unit {0}
sevens t addr len = (pos 0, replicate len 7, tt)

scanned : scan_range (codes "10,2") ≡ some (16, 2)
unfolding scan_range scan_lx scan_char
scanned = refl

process_mem_write-passes_example :
    process_mem_write env takes
      (codes "10,2" ++ (b':' ∷ (hex_digits (0xab ∷ 0 ∷ []) ++ (0 ∷ []))))
      (stub 0)
    ≡ (test is_zero (pos 0) then reply done else reply (error_text (pos 0))) (stub 0)
process_mem_write-passes_example =
    process_mem_write-passes env takes (codes "10,2") (0xab ∷ 0 ∷ []) [] (0 ∷ 0 ∷ []) 16 (stub 0)
      scanned (omega arith, (omega arith, (omega arith, (omega arith, tt))))
      (omega arith, (omega arith, (omega arith, (omega arith, tt))))
      (omega arith, (omega arith, tt)) refl refl (omega arith)

sevens_good : is_zero (sevens tt 16 2).0 ≡ true
unfolding is_zero
sevens_good = refl

process_mem_read-sends_example :
    process_mem_read env sevens (codes "10,2") (stub 0)
    ≡ ok (tt, record (stub 0) { sent = packet_text (hex_digits (7 ∷ 7 ∷ [])) ∷ [] })
process_mem_read-sends_example =
    process_mem_read-sends env sevens (codes "10,2") (0 ∷ 0 ∷ []) 16 2 (stub 0) scanned sevens_good
      refl (omega arith, (omega arith, tt)) refl refl refl (omega arith)

replicate-IsBytes : (n : ℕ) → IsBytes (replicate n 7)
replicate-IsBytes zero = tt
replicate-IsBytes (suc n) = (omega arith, replicate-IsBytes n)

scanned_large : scan_range (codes "10,800") ≡ some (16, 2048)
unfolding scan_range scan_lx scan_char
scanned_large = refl

large_good : is_zero (sevens tt 16 2048).0 ≡ true
unfolding is_zero
large_good = refl

process_mem_read-overflows_example : process_mem_read env sevens (codes "10,800") (stub 0) ≡ fault
process_mem_read-overflows_example =
    process_mem_read-overflows env sevens (codes "10,800") (replicate 2048 0) 16 2048 (stub 0)
      scanned_large large_good (length-replicate {A = ℕ} 2048 7) (replicate-IsBytes 2048) refl
      (length-replicate {A = ℕ} 2048 0) (length-replicate {A = ℕ} 4096 0) (omega arith)

-- A `}` and a 1, the first of them escaped.
process_mem_xwrite-passes_example :
    process_mem_xwrite env takes
      (length (codes "10,2") + 1 + length (escape (0x7d ∷ 1 ∷ [])))
      (codes "10,2" ++ (b':' ∷ (escape (0x7d ∷ 1 ∷ []) ++ (0 ∷ []))))
      (stub 0)
    ≡ reply done (stub 0)
process_mem_xwrite-passes_example =
    process_mem_xwrite-passes env takes (codes "10,2") (0x7d ∷ 1 ∷ []) [] 16 (stub 0) scanned
      (omega arith, (omega arith, (omega arith, (omega arith, tt))))
      (omega arith, (omega arith, (omega arith, (omega arith, tt))))
      (omega arith, (omega arith, tt)) (omega arith)
