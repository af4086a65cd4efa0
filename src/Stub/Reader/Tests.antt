-- ===== src/Stub/Reader/Tests.antt =====
-- The reader thread on concrete input.
use mini_gdbstub.Base.{
  ◌+◌, ◌≡◌, refl, true, false, some, List, [], ◌∷◌, ◌++◌, take, codes, ok, find_index,
}
use mini_gdbstub.Packet.{Pktbuf, bytes, pktbuf_fill_from_file, pktbuf_is_complete}
use mini_gdbstub.Packet.Fill.{contents}
use mini_gdbstub.Packet.Extract.{packet_of}
use mini_gdbstub.Packet.Delivery.{IsIdle}
use mini_gdbstub.Packet.Tests.{alone, alone-IsIdle, alone-Holds, bigger}
use mini_gdbstub.Stub.Reader.{
  Effect, on_interrupt, push, try_ack, signal_interrupt, signal_shutdown, timed_out, readable,
  Round, ended, take_in, socket_reader,
}
use mini_gdbstub.PktQueue.Chain.{packets, Cells, IsQueue}
use mini_gdbstub.PktQueue.Fifo.{Reply}
use mini_gdbstub.PktQueue.Refine.{Op, run, queue_after}
use mini_gdbstub.PktQueue.{Queue}
use mini_gdbstub.PktQueue.Tests.{first, second, empty_queue, empty-IsQueue, ops, ops-Allocates}
use mini_gdbstub.Stub.Reader.Handoff.{
  Interleaved, neither, by_reader, by_main, queue_calls, queued, handed_out, pushes, handoff,
}
use mini_gdbstub.Stub.Reader.Calls.{Heard, Queued}
use mini_gdbstub.Stub.Reader.Arrival.{take_in-packet}

abbrev quiet : Round
quiet = record { stop = false; poll = timed_out; async = λ i. false; node = λ k. 0 }

-- An interrupt while the target runs.
abbrev interrupt : Round
interrupt = record {
  stop = false;
  poll = readable (λ left. bytes (take left (3 ∷ [])));
  async = λ i. true;
  node = λ k. 0;
}

-- The client hangs up.
abbrev hang_up : Round
hang_up = record {
  stop = false;
  poll = readable (λ left. bytes []);
  async = λ i. false;
  node = λ k. 0;
}

abbrev rounds : List Round
rounds = quiet ∷ interrupt ∷ hang_up ∷ []

-- A packet comes in two pieces, its last three bytes just now.
abbrev packet_round : Round
packet_round = record { stop = false; poll = timed_out; async = λ i. false; node = λ k. k + 8 }

take_in-packet_example :
    (signals calls : List Effect) × (b' : Pktbuf) × (take_in bigger true packet_round 3 alone
      ≡ ok (some (signals ++ calls, b')))
    × Heard true packet_round.async 0 (codes "#c3") signals
    × Queued packet_round.node 0 (packet_of (codes "ab") b'c' b'3' ∷ []) calls
    × IsIdle b'
    × (contents b' ≡ [])
take_in-packet_example =
    take_in-packet bigger true packet_round alone (codes "+$ab") (codes "#c3") (codes "+")
      (codes "ab") b'c' b'3' alone-IsIdle refl alone-Holds

-- The target and the queue hear of the interrupt, and the queue is shut down at the end.
interrupted_session :
    socket_reader bigger true rounds
    ≡ ok (ended (on_interrupt ∷ signal_interrupt ∷ signal_shutdown ∷ []))
unfolding socket_reader pktbuf_fill_from_file pktbuf_is_complete find_index
interrupted_session = refl

-- Two packets come in before the main thread asks for one.
abbrev two_packets : List Effect
two_packets = push 8 first ∷ try_ack ∷ push 16 second ∷ try_ack ∷ []

interleaved : Interleaved (queue_calls two_packets) (Op.pop ∷ []) ops
unfolding queue_calls
interleaved = by_reader _ _ _ _ (by_reader _ _ _ _ (by_main _ _ _ _ neither))

handoff_example :
    (replies : List Reply) × (q' : Queue) × (c' : Cells) × (run empty_queue ops ≡ ok replies)
    × (queue_after empty_queue ops ≡ ok q')
    × IsQueue q' c'
    × (packets [] ++ queued (queue_calls two_packets) ≡ handed_out replies ++ packets c')
handoff_example =
    handoff two_packets (Op.pop ∷ []) ops empty_queue [] empty-IsQueue (unfold pushes in (refl, tt))
      interleaved ops-Allocates
