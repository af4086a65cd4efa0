-- ===== src/PktQueue/Fifo.antt =====
-- What the packet queue promises: a first-in first-out list of packets and two flags.
use mini_gdbstub.Base.{
  Bool, true, false, ◌||◌, Option, none, some, List, [], ◌∷◌, ◌++◌, if◌then◌else◌,
}
use mini_gdbstub.Packet.{Packet}

pub record Fifo : Type 0 where
  pub items : List Packet
  pub shutdown : Bool
  pub interrupted : Bool

pub data Call : Type 0 where
  push : (memory : Bool) → Packet → Call
  pop : Call
  signal_shutdown : Call
  signal_interrupt : Call
  check_interrupt : Call
  is_shutdown : Call

pub data Reply : Type 0 where
  done : Reply
  answer : Bool → Reply
  waits : Reply
  packet : Option Packet → Reply

-- An empty queue makes a pop wait, unless a flag is set; a packet is handed out whatever the flags.
unfoldable pub step : Fifo → Call → Reply × Fifo
step f (push memory p) =
    if memory then (answer true, record f { items = f.items ++ (p ∷ []) }) else (answer false, f)
step f pop = elim f.items [
  | [] ↦ (if f.shutdown || f.interrupted then packet none else waits, f)
  | p ∷ rest ↦ (packet (some p), record f { items = rest })
]
step f signal_shutdown = (done, record f { shutdown = true })
step f signal_interrupt = (done, record f { interrupted = true })
step f check_interrupt = (answer f.interrupted, record f { interrupted = false })
step f is_shutdown = (answer f.shutdown, f)

unfoldable pub run : Fifo → List Call → List Reply
unfolding step
run f [] = []
run f (c ∷ cs) = let (r, f') = step f c in r ∷ run f' cs

-- The list after the calls.
unfoldable pub after : Fifo → List Call → Fifo
unfolding step
after f [] = f
after f (c ∷ cs) = after (step f c).1 cs
