-- ===== src/Emu.antt =====
-- emu/src/emu.c: a small RISC-V machine that is debugged through the stub, in its 64-bit build.
-- A `uint64_t` is a number below 2^64, and its wrap-around is written out; an `int32_t` is its
-- pattern, extended to 64 bits where the code converts it. Prints are left out.
pub mod Word
pub mod Exec
pub mod Target
pub mod Run
pub mod Fields
pub mod Isa
pub mod Bytes
pub mod Decode
pub mod View
pub mod Results
pub mod Alu
pub mod Access
pub mod Jumps
pub mod Executes
pub mod Invariant
pub mod Fetch
pub mod Continue
pub mod Storage
pub mod Bank
pub mod Load
pub mod Ops
pub mod Session
mod Tests
use mini_gdbstub.Base.{
  ℕ, ◌+◌, ◌-◌, ◌^◌, Bool, true, false, Option, none, some, List, length, take, replicate, set, ltb,
  if◌then◌else◌, blit,
}

abbrev pub mem_size : ℕ
mem_size = 0x1000

abbrev pub tohost_addr : ℕ
tohost_addr = mem_size - 4

abbrev pub regsz : ℕ
regsz = 8

-- `struct mem` and `struct emu`, the stub's own state apart.
pub record Emu : Type 0 where
  pub mem : List ℕ
  pub code_size : ℕ
  pub x : List ℕ
  pub pc : ℕ
  pub bp_is_set : Bool
  pub bp_addr : ℕ
  pub halt : Bool

abbrev pub emu_halt : Emu → Emu
emu_halt e = record e { halt = true }

abbrev pub emu_start_run : Emu → Emu
emu_start_run e = record e { halt = false }

-- The 32 registers are 0 but for the stack pointer, and no address is the breakpoint's. The memory
-- is still to be loaded.
unfoldable pub emu_init : Emu
emu_init = emu_halt (record {
  mem = List.[];
  code_size = 0;
  x = set (replicate 32 0) 2 tohost_addr;
  pc = 0;
  bp_is_set = false;
  bp_addr = 2 ^ 64 - 1;
  halt = false;
})

-- `init_mem` on the bytes of the file, `none` if it cannot be opened. `read_size` is what `fread`
-- makes of the size it is asked for, and `memory` whether `malloc` has a block.
unfoldable pub init_mem : Option (List ℕ) → (memory : Bool) → (read_size : ℕ → ℕ) → Emu → Option Emu
init_mem none memory read_size e = none
init_mem (some bytes) memory read_size e =
    let sz = length bytes in
    if ltb tohost_addr sz
    then none
    else if memory
    then (if ltb (read_size sz) sz
        then none
        else some (record e {
          mem = blit (replicate mem_size 0) 0 (take sz bytes);
          code_size = read_size sz;
        }))
    else none
