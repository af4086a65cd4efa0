-- ===== src/Packet/Tests.antt =====
-- The packet buffer on concrete bytes.
use mini_gdbstub.Base.{
  ℕ, ◌≡◌, refl, Option, none, some, List, [], ◌∷◌, ◌++◌, arith, replicate, length, take, codes,
  find_index, Result, ok, fault, length-append, length-take, length-replicate, take-take,
  take-append, ◌∙◌,
}
use mini_gdbstub.Packet.{Packet, Pktbuf, ReadResult, bytes, pktbuf_is_complete, pktbuf_pop_packet}
use mini_gdbstub.Packet.Fill.{Enlarges}
use mini_gdbstub.Packet.Complete.{Holds}
use mini_gdbstub.Packet.Extract.{next_packet, packet_of}
use mini_gdbstub.Packet.Delivery.{IsIdle, Delivers, deliver_alone, deliver_pipelined}
use mini_gdbstub.Packet.Truncated.{next_packet-truncated}

-- Sixteen bytes, of which those of `str` are valid.
abbrev pub buffer : List ℕ → (left : ℕ) → Pktbuf
buffer str left = record {
  size = length str;
  cap = 4;
  end_pos = none;
  block = str ++ replicate left 0;
}

-- An acknowledgement and a whole packet.
abbrev pub alone : Pktbuf
alone = buffer (codes "+$ab#c3") 9

-- The same, with a second packet behind it.
abbrev pipelined : Pktbuf
pipelined = buffer (codes "$ab#c3$g#67") 5

-- The last digit has not arrived.
abbrev truncated : Pktbuf
truncated = buffer (codes "+$ab#c") 10

pub alone-IsIdle : IsIdle alone
alone-IsIdle = record {
  valid = record { block_size = refl; fits = omega arith; end_in = λ e h. cc };
  idle = refl;
}

pipelined-IsIdle : IsIdle pipelined
pipelined-IsIdle = record {
  valid = record { block_size = refl; fits = omega arith; end_in = λ e h. cc };
  idle = refl;
}

truncated-IsIdle : IsIdle truncated
truncated-IsIdle = record {
  valid = record { block_size = refl; fits = omega arith; end_in = λ e h. cc };
  idle = refl;
}

pub alone-Holds : Holds alone (codes "+") (codes "ab") (b'c' ∷ b'3' ∷ [])
alone-Holds = record {
  bytes = refl;
  no_head = (omega arith, tt);
  no_end = (omega arith, (omega arith, tt));
}

pipelined-Holds : Holds pipelined [] (codes "ab") (b'c' ∷ b'3' ∷ b'$' ∷ codes "g#67")
pipelined-Holds = record { bytes = refl; no_head = tt; no_end = (omega arith, (omega arith, tt)) }

truncated-Holds : Holds truncated (codes "+") (codes "ab") (b'c' ∷ [])
truncated-Holds = record {
  bytes = refl;
  no_head = (omega arith, tt);
  no_end = (omega arith, (omega arith, tt));
}

deliver_alone_example : Delivers alone (packet_of (codes "ab") b'c' b'3') []
deliver_alone_example =
    deliver_alone alone (codes "+") (codes "ab") b'c' b'3' alone-IsIdle alone-Holds

deliver_pipelined_example :
    Delivers pipelined (packet_of (codes "ab") b'c' b'3') (codes "g#67" ++ (0 ∷ []))
deliver_pipelined_example =
    deliver_pipelined pipelined [] (codes "ab") b'c' b'3' b'$' (codes "g#67") pipelined-IsIdle
      (omega arith) pipelined-Holds

-- What the reader's next turn hands out.
abbrev then_next : Result (Option Packet × Pktbuf) → Result (Option Packet × Pktbuf)
then_next (ok (p, b)) = next_packet b
then_next other = other

-- The second packet has lost its `$`.
second_packet_lost :
    then_next (next_packet pipelined)
    ≡ ok (
      none,
      record {
        size = 0;
        cap = 4;
        end_pos = none;
        block = codes "g#67" ++ (0 ∷ codes "3$g#67" ++ replicate 5 0);
      },
    )
unfolding next_packet pktbuf_pop_packet pktbuf_is_complete find_index
second_packet_lost = refl

next_packet-truncated_example : next_packet truncated ≡ fault
next_packet-truncated_example =
    next_packet-truncated truncated (codes "+") (codes "ab") b'c' truncated-IsIdle truncated-Holds

-- A `realloc` that fills with zeros, and a `read` of up to three bytes.
abbrev pub bigger : List ℕ → ℕ → Option (List ℕ)
bigger old n = some (take n (old ++ replicate n 0))

abbrev three : ℕ → ReadResult
three left = bytes (take left (codes "g#6"))

pub bigger-Enlarges : Enlarges bigger
bigger-Enlarges = record {
  block = λ old n h. (
    take n (old ++ replicate n 0),
    refl,
    omega (
      arith,
      length-take n (old ++ replicate n 0),
      length-append old (replicate n 0),
      length-replicate {A = ℕ} n 0,
    ),
    take-take (length old) n (old ++ replicate n 0) h ∙ take-append old (replicate n 0),
  );
}

-- A full buffer of two bytes.
abbrev full : Pktbuf
full = record { size = 2; cap = 1; end_pos = none; block = codes "+$" }
