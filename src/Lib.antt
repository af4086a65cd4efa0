-- ===== src/Lib.antt =====
-- mini-gdbstub: a server for the remote protocol of GDB that an emulator links in. A reader thread
-- assembles packets from a socket and puts them into a queue; the main thread takes them out, calls
-- the emulator through a table of operations, and answers on the socket.
--
-- The parts, each a file here with child modules for its theorems and tests:
--   Base       helpers: Boolean tests, lists and C memory over the native numbers, outcomes (`ok`,
--              `abort` for a failed assert, `fault` for undefined behaviour), `sscanf` and `printf`.
--   Csum       src/utils/csum.c: `compute_checksum`.
--   Translate  src/utils/translate.c: `hex_to_str`, `str_to_hex`, `unescape`.
--   Regbuf     src/regbuf.c: `regbuf_init`, `regbuf_get`.
--   Packet     src/packet.c: `pktbuf_*`, with the whole block that `data` points to as a list, and
--              `next_packet`, one turn of the reader's inner loop in src/gdbstub.c.
--   PktQueue   src/pktqueue.c: `pktqueue_*`, with nodes in a heap from addresses to cells. A function
--              holds the mutex throughout, so it is one step; a pop that waits is `blocked`.
--   Conn       src/conn.c: `__conn_send_str` (`send_loop`) over the outcomes of `poll` and `write`,
--              `conn_send_pktstr` and its framing (`packet_text`).
--   Stub       src/gdbstub.c and include/gdbstub.h: Types the session's state and the emulator's
--              operations, Monad commands on that state, Registers, Memory, Query and Control the
--              handlers `process_*`, Dispatch the switch of `gdbstub_process_packet`, the checksum
--              test and `gdbstub_handle_event`, Run the loop of `gdbstub_run`, Reader the thread
--              `socket_reader`, Setup what `gdbstub_init`, `gdbstub_close`, `conn_init` and
--              `conn_close` (src/conn.c) acquire and release.
--   Emu        emu/src/emu.c in its 64-bit build, the emulator that comes with the stub: Word the casts
--              and byte loops, Exec the instructions, Target the operations given to the stub, Run the
--              loop of `emu_cont` and `emu_stepi`, Ops their table as an instance of the stub's
--              interface (what undefined behaviour leaves is a parameter there). Isa is the manual's
--              view of the instructions, not translated from the source.
-- The names are those of the C code. A handler is a function from the state to `Result`, and what it
-- sends is appended to the field `sent`, each reply framed as on the wire.
--
-- Parameters: `malloc`, `realloc`, `read`, the socket's outcomes and the emulator's operations, over
-- any state `T` of its own. A local buffer starts with bytes that are not known (`Env.stack`).
--
-- Bounds and fuel: a byte is a number below 256, and `size_t` wraps where the code can reach that.
-- The doubling in `regbuf_get` has fuel 64, more than the doublings of a 64-bit size; the loop of
-- `pktqueue_destroy` has a round of fuel for each node; the reader's inner loop has a turn for each
-- byte in the buffer, and each turn takes at least one. The other loops are structural.
--
-- Threads: each function on the queue is one step, under its mutex, and calls of the two threads may
-- come in any order. The reader thread reads no shared state but two flags, so it is a function from
-- what it meets to the list of its calls on the shared state.
--
-- Not modelled: the prints, `main` and `free_mem` of the emulator, and what the calls of the operating
-- system do beyond succeeding or failing. Buffers of 2 GiB, where the `int` fields of `pktbuf_t`
-- end, are out of scope, and so are a NULL from the first `calloc` and register sizes from 2^31 on,
-- where the `int` parameters of `hex_to_str` and `str_to_hex` end; for the lengths of memory packets,
-- that come from the client, the conversion to `int` is modelled (`int_count`).
pub mod Base
pub mod Regbuf
pub mod Csum
pub mod Translate
pub mod Packet
pub mod PktQueue
pub mod Conn
pub mod Stub
pub mod Emu
