-- ===== src/Stub/Reader/Rounds.antt =====
-- What `socket_reader` of src/gdbstub.c does to the state that the threads share.
use mini_gdbstub.Base.{
  ℕ, ◌≡◌, ◌≢◌, Bool, true, false, ◌||◌, Option, none, some, List, [], ◌∷◌, ◌++◌, length, ◌==◌,
  Result, ok, fault, ◌>>=◌,
}
use mini_gdbstub.Packet.{Packet, Pktbuf, ReadResult, bytes, failed, pktbuf_fill_from_file}
use mini_gdbstub.Packet.Fill.{Enlarges, Fits}
use mini_gdbstub.Packet.Delivery.{IsIdle}
use mini_gdbstub.Stub.Reader.{
  Effect, signal_shutdown, Poll, poll_error, timed_out, no_input, readable, Round, Progress,
  running, ended, unfinished, after, finish, take_in, reader_loop, eintr, eagain,
}
use mini_gdbstub.Stub.Reader.Calls.{Heard, Queued}

-- What a round comes to: bytes that a `read` delivers, nothing, or the end of the thread.
pub record Brings (r : Round) (got : ReadResult) : Type 0 where
  pub goes : r.stop ≡ false
  pub read : ℕ → ReadResult
  pub polled : r.poll ≡ readable read
  pub asked : ℕ
  pub outcome : read asked ≡ got

pub data Idles (r : Round) : Type 0 where
  timed : r.stop ≡ false → r.poll ≡ timed_out → Idles r
  quiet : r.stop ≡ false → r.poll ≡ no_input → Idles r
  disturbed : r.stop ≡ false → r.poll ≡ poll_error eintr → Idles r
  retried :
      (errno : ℕ) → (errno == eintr || errno == eagain) ≡ true → Brings r (failed errno) → Idles r

pub data Stops (r : Round) : Type 0 where
  told : r.stop ≡ true → Stops r
  poll_failed : (errno : ℕ) → r.stop ≡ false → errno ≢ eintr → r.poll ≡ poll_error errno → Stops r
  hung_up : Brings r (bytes []) → Stops r
  read_failed :
      (errno : ℕ) → (errno == eintr || errno == eagain) ≡ false → Brings r (failed errno) → Stops r

-- The calls of the thread over some rounds, and how it stands after them: it runs on, has ended with
-- the shutdown of the queue as its last call, or has come upon a packet that cannot be taken out, in
-- a round that brought bytes.
pub data Reads (has_handler : Bool) : List Round → Result Progress → Type 0 where
  runs_on : Reads has_handler [] (ok (running []))
  ends :
      (r : Round) (rs : List Round)
      → Stops r
      → Reads has_handler (r ∷ rs) (ok (ended (signal_shutdown ∷ [])))
  passes :
      (r : Round) (rs : List Round) (p : Result Progress)
      → Idles r
      → Reads has_handler rs p
      → Reads has_handler (r ∷ rs) p
  undefined :
      (r : Round) (rs : List Round) (b : ℕ) (got : List ℕ)
      → Brings r (bytes (b ∷ got))
      → Reads has_handler (r ∷ rs) fault
  hears :
      (r : Round) (rs : List Round) (b : ℕ) (got : List ℕ) (signals calls : List Effect)
      (pkts : List Packet) (p : Result Progress)
      → Brings r (bytes (b ∷ got))
      → Heard has_handler r.async 0 (b ∷ got) signals
      → Queued r.node 0 pkts calls
      → Reads has_handler rs p
      → Reads has_handler (r ∷ rs) (after (signals ++ calls) p)

-- What the rounds' reads promise.
unfoldable pub FitsPoll : Poll → Type 0
FitsPoll (readable read) = Fits read
FitsPoll _ = Unit

-- Bytes taken in.
data TakesIn (handler : Bool) (r : Round) (got : List ℕ)
    : Result (Option (List Effect × Pktbuf)) → Type 0 where
  fails : TakesIn handler r got fault
  takes :
      (signals calls : List Effect) (pkts : List Packet) (b : Pktbuf)
      → Heard handler r.async 0 got signals
      → Queued r.node 0 pkts calls
      → IsIdle b
      → TakesIn handler r got (ok (some (signals ++ calls, b)))

module _ (realloc : List ℕ → ℕ → Option (List ℕ)) (enlarges : Enlarges realloc)
    (handler : Bool) where
  module _ (r : Round) (rs : List Round)
      (again : (b : Pktbuf) → IsIdle b → Reads handler rs (reader_loop realloc handler rs b)) where
    abbrev on_taken : Result (Option (List Effect × Pktbuf)) → Result Progress
    on_taken t = do
      taken ← t
      elim taken [
        | none ↦ ok unfinished
        | some (es, b) ↦ after es (reader_loop realloc handler rs b)
      ]

    abbrev on_read : ReadResult → Pktbuf → Result Progress
    on_read got b = elim got [
      | failed errno ↦ elim (errno == eintr || errno == eagain) [
        | true ↦ reader_loop realloc handler rs b
        | false ↦ finish
      ]
      | bytes [] ↦ finish
      | bytes (x ∷ xs) ↦ on_taken (take_in realloc handler r (length (x ∷ xs)) b)
    ]

    abbrev on_poll : Poll → Pktbuf → Result Progress
    on_poll poll b = elim poll [
      | poll_error errno ↦ elim (errno == eintr) [
        | true ↦ reader_loop realloc handler rs b
        | false ↦ finish
      ]
      | timed_out ↦ reader_loop realloc handler rs b
      | no_input ↦ reader_loop realloc handler rs b
      | readable read ↦ do (got, b) ← pktbuf_fill_from_file realloc read b; on_read got b
    ]
