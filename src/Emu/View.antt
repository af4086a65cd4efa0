-- ===== src/Emu/View.antt =====
-- The emulator of emu/src/emu.c as the machine of the manual.
use mini_gdbstub.Base.{
  ℕ, zero, suc, ◌+◌, ◌%◌, ◌^◌, ◌≤◌, ◌<◌, ◌≡◌, refl, ap, ◌∙◌, arith, Bool, true, List, [], ◌∷◌,
  length, take, drop, get_or, set, blit, All, IsBytes, leb, ◌==◌, if◌then◌else◌, Bool-cases, inl,
  inr, Result, ok, abort, fault, length-take, length-set,
}
use mathlib.Core.Path.{fun_ext}
use mini_gdbstub.Emu.{Emu, mem_size, tohost_addr}
use mini_gdbstub.Emu.Exec.{Ran, reg, set_reg, read_len, write_len}
use mini_gdbstub.Emu.Word.{write_bytes}
use mini_gdbstub.Emu.Bytes.{read_bytes-little_endian, write_bytes-bytes_of}
use mini_gdbstub.Emu.Isa.{Machine, write_rd, next, load_at, store_at}

abbrev pub view : Emu → Machine
view e = record { regs = λ j. if j == 0 then 0 else get_or e.x j 0; pc = e.pc; mem = e.mem }

-- The `pc` moved past the instruction, as `emu_cont` and `emu_stepi` do before they execute it.
abbrev pub advance : Emu → Emu
advance e = record e { pc = (e.pc + 4) % 2 ^ 64 }

-- An execution as one of the machine.
abbrev pub viewed : Ran → Result (Bool × Machine)
viewed (ok (valid, e)) = ok (valid, view e)
viewed abort = abort
viewed fault = fault

-- The step of the machine, as an execution that succeeds.
abbrev pub succeeds : Result Machine → Result (Bool × Machine)
succeeds (ok m) = ok (true, m)
succeeds abort = abort
succeeds fault = fault

-- 32 registers and a `pc` of 64 bits, and a block of bytes with the code at its start.
pub record IsMachine (e : Emu) : Type 0 where
  pub registers : length e.x ≡ 32
  pub words : All (λ v. v < 2 ^ 64) e.x
  pub bytes : IsBytes e.mem
  pub counter : e.pc < 2 ^ 64
  pub size : length e.mem ≡ mem_size
  pub code : e.code_size ≤ tohost_addr

pub get_or-set :
    (xs : List ℕ) (i j v : ℕ)
    → i < length xs
    → get_or (set xs i v) j 0 ≡ (if j == i then v else get_or xs j 0)
get_or-set [] i j v h = absurd (omega arith)
get_or-set (x ∷ xs) zero zero v h = refl
get_or-set (x ∷ xs) zero (suc j) v h = ground arith
get_or-set (x ∷ xs) (suc i) zero v h = ground arith
get_or-set (x ∷ xs) (suc i) (suc j) v h =
    let e : (suc j == suc i) ≡ (j == i) = ground arith in rw e (get_or-set xs i j v (omega arith))

pub All-get_or : (xs : List ℕ) (j : ℕ) → All (λ v. v < 2 ^ 64) xs → get_or xs j 0 < 2 ^ 64
All-get_or [] j h = omega arith
All-get_or (x ∷ xs) zero h = h.0
All-get_or (x ∷ xs) (suc j) h = All-get_or xs j h.1

pub All-take : (n : ℕ) (xs : List ℕ) → IsBytes xs → IsBytes (take n xs)
All-take zero xs h = tt
All-take (suc n) [] h = tt
All-take (suc n) (x ∷ xs) h = (h.0, All-take n xs h.1)

pub All-drop : (n : ℕ) (xs : List ℕ) → IsBytes xs → IsBytes (drop n xs)
All-drop zero xs h = h
All-drop (suc n) [] h = tt
All-drop (suc n) (x ∷ xs) h = All-drop n xs h.1

module _ (e : Emu) (is : IsMachine e) where
  pub reg-view : (j : ℕ) → reg (set_reg (advance e) 0 0) j ≡ (view e).regs j
  reg-view j = get_or-set e.x 0 j 0 (omega (arith, is.registers))

  pub view-bound : (j : ℕ) → (view e).regs j < 2 ^ 64
  view-bound j = elim (Bool-cases (j == 0)) [
    | inl z ↦ rw z (omega arith)
    | inr s ↦ rw s (All-get_or e.x j is.words)
  ]

  reg-written :
      (rd v j : ℕ)
      → rd < 32
      → (if j == 0 then 0 else reg (set_reg (set_reg (advance e) 0 0) rd v) j)
        ≡ (if j == 0 then 0 else if j == rd then v else (view e).regs j)
  reg-written rd v j h =
      ap (λ r. if j == 0 then 0 else r)
        (get_or-set (set e.x 0 0) rd j v (omega (arith, is.registers, length-set e.x 0 0))
          ∙ ap (λ r. if j == rd then v else r) (reg-view j))

  -- A result in a register, and where the machine goes on.
  pub view-set_reg :
      (rd v pc : ℕ)
      → rd < 32
      → view (record (set_reg (set_reg (advance e) 0 0) rd v) { pc = pc })
        ≡ record (write_rd (view e) rd v) { pc = pc }
  view-set_reg rd v pc h =
      ap (λ f. record { regs = f; pc = pc; mem = e.mem }) (fun_ext (λ j. reg-written rd v j h))

  view-zeroed :
      (mem : List ℕ)
      → view (record (set_reg (advance e) 0 0) { mem = mem }) ≡ next (record (view e) { mem = mem })
  view-zeroed mem =
      ap (λ f. record { regs = f; pc = (e.pc + 4) % 2 ^ 64; mem = mem })
        (fun_ext (λ j. ap (λ r. if j == 0 then 0 else r) (reg-view j) ∙ twice j))
    where
      twice : (j : ℕ) → (if j == 0 then 0 else (view e).regs j) ≡ (view e).regs j
      twice j = elim (Bool-cases (j == 0)) [ inl z ↦ rw z | inr s ↦ rw s ]

  IsBytes-at : (n addr : ℕ) → IsBytes (take n (drop addr e.mem))
  IsBytes-at n addr = All-take n (drop addr e.mem) (All-drop addr e.mem is.bytes)

  -- The accesses to memory.
  pub read_len-load :
      (n addr : ℕ) → n ≤ 8 → read_len (set_reg (advance e) 0 0) n addr ≡ load_at (view e) n addr
  unfolding read_len
  read_len-load n addr small =
      ap (λ v. if leb (addr + n) (length e.mem) then ok v else fault)
        (read_bytes-little_endian (take n (drop addr e.mem)) (IsBytes-at n addr)
          (omega (arith, length-take n (drop addr e.mem))))

  pub write_len-store :
      (n addr v : ℕ)
      → viewed (write_len (set_reg (advance e) 0 0) n addr v)
        ≡ succeeds (store_at (view e) n addr v)
  unfolding write_len
  write_len-store n addr v = elim (Bool-cases (leb (addr + n) (length e.mem))) [
    | inl fits ↦ rw fits (
        ap (λ m. ok (true, m))
          (view-zeroed (blit e.mem addr (write_bytes n 0 v))
            ∙ ap (λ b. next (record (view e) { mem = blit e.mem addr b }))
                (write_bytes-bytes_of n v)))
    | inr out ↦ rw out
  ]
