-- ===== src/Stub.antt =====
-- src/gdbstub.c and include/gdbstub.h: the protocol stub.
pub mod Types
pub mod Monad
pub mod Registers
pub mod Memory
pub mod Query
pub mod Control
pub mod Dispatch
pub mod Checksum
pub mod Run
pub mod Reader
pub mod Setup
pub mod Failures
pub mod Steps
pub mod Ends
pub mod Atomic
pub mod Saving
pub mod RegWrite
pub mod Xfer
pub mod Missing
pub mod MemWrite
pub mod MemRead
pub mod RegRead
pub mod RegWriteOne
pub mod MemBinary
pub mod BankTests
pub mod Replies
mod Tests
