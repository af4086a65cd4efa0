-- ===== src/Emu/Load.antt =====
-- Starting the emulator of emu/src/emu.c on a program.
use mini_gdbstub.Base.{
  ℕ, zero, suc, ◌+◌, ◌^◌, ◌≤◌, ◌<◌, ◌≡◌, refl, ap, ◌∙◌, arith, true, some, List, length, take,
  replicate, blit, All, IsBytes, le→ltb, length-blit, length-replicate, take-blit_zero, take-all,
}
use mini_gdbstub.Emu.{Emu, mem_size, tohost_addr, emu_init, init_mem}
use mini_gdbstub.Emu.View.{IsMachine}
use mini_gdbstub.Emu.Invariant.{All-set, blit-IsMachine}

All-zeros : (bound : ℕ) → 0 < bound → (n : ℕ) → All (λ v. v < bound) (replicate n 0)
All-zeros bound h zero = tt
All-zeros bound h (suc n) = (h, All-zeros bound h n)

words-init : All (λ v. v < 2 ^ 64) (emu_init.x)
unfolding emu_init
words-init =
    All-set (replicate 32 0) 2 tohost_addr (omega arith) (All-zeros (2 ^ 64) (omega arith) 32)

-- The machine with its memory cleared and no code yet.
cleared : Emu
unfolding emu_init
cleared = record emu_init { mem = replicate mem_size 0 }

cleared-IsMachine : IsMachine cleared
unfolding emu_init cleared
cleared-IsMachine = record {
  registers = refl;
  words = words-init;
  bytes = All-zeros 256 (omega arith) mem_size;
  counter = omega arith;
  size = length-replicate {A = ℕ} mem_size 0;
  code = omega arith;
}

-- The machine with a program in its memory.
abbrev pub loaded : List ℕ → Emu
loaded bytes = record emu_init {
  mem = blit (replicate mem_size 0) 0 bytes;
  code_size = length bytes;
}

pub loaded-IsMachine :
    (bytes : List ℕ) → IsBytes bytes → length bytes ≤ tohost_addr → IsMachine (loaded bytes)
unfolding emu_init cleared
loaded-IsMachine bytes small fits =
    let zeros : List ℕ = replicate mem_size 0 in
    let room : 0 + length bytes ≤ length zeros =
      omega (arith, fits, length-replicate {A = ℕ} mem_size 0) in
    record {
      registers = refl;
      words = words-init;
      bytes = (blit-IsMachine cleared cleared-IsMachine 0 bytes room small).bytes;
      counter = omega arith;
      size = length-blit zeros 0 bytes room ∙ length-replicate {A = ℕ} mem_size 0;
      code = fits;
    }

-- A file of at most 4092 bytes that is read as a whole is loaded: the machine is valid, its code is
-- the file's bytes from address 0 on, and it stands halted at 0.
pub init_mem-loads :
    (bytes : List ℕ)
    → IsBytes bytes
    → length bytes ≤ tohost_addr
    → (e : Emu) × (init_mem (some bytes) true (λ n. n) emu_init ≡ some e)
      × IsMachine e
      × (take e.code_size e.mem ≡ bytes)
      × (e.pc ≡ 0)
      × (e.halt ≡ true)
unfolding emu_init init_mem
init_mem-loads bytes small fits =
    let sz = length bytes in
    let zeros : List ℕ = replicate mem_size 0 in
    (
      loaded bytes,
      rw (le→ltb tohost_addr sz fits, le→ltb sz sz (omega arith))
          (ap (λ b. some (record emu_init { mem = blit zeros 0 b; code_size = sz }))
            (take-all sz bytes (omega arith))),
      loaded-IsMachine bytes small fits,
      take-blit_zero zeros bytes,
      refl,
      refl,
    )
