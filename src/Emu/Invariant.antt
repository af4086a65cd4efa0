-- ===== src/Emu/Invariant.antt =====
-- The invariant of the machine in emu/src/emu.c: every instruction keeps it.
use Prim.Native.Nat.{bit_and}
use mini_gdbstub.Base.{
  ◌||◌, refl, ℕ, zero, suc, ◌+◌, ◌-◌, ◌*◌, ◌%◌, ◌^◌, ◌≤◌, ◌<◌, ◌≡◌, sym, ap, subst, ◌∙◌, arith,
  Bool, true, false, List, [], ◌∷◌, ◌++◌, length, take, drop, set, blit, All, IsBytes, leb, leb→le,
  ◌==◌, if◌then◌else◌, Bool-cases, inl, inr, ok, fault, ◌>>=◌, length-set, length-blit, length-take,
}
use native.Mathlib.Nat.{pow-le-pow_right}
use mini_gdbstub.Base.Bits.{and_le}
use mini_gdbstub.Emu.{Emu}
use mini_gdbstub.Emu.Word.{from_int32, less_signed, read_bytes, write_bytes}
use mini_gdbstub.Emu.Bytes.{
  write_bytes-bytes_of, bytes_of-IsBytes, length-bytes_of, read_bytes-little_endian,
  little_endian-bound,
}
use mini_gdbstub.Emu.Isa.{bytes_of}
use mini_gdbstub.Emu.Exec.{
  Inst, Ran, reg, set_reg, done, invalid, read_len, write_len, execute, decode, emu_exec, opcode_3,
  opcode_13, opcode_17, opcode_1b, opcode_23, opcode_33, opcode_37, opcode_3b, opcode_67, opcode_6f,
  imm_i, imm_u,
}
use mini_gdbstub.Emu.Decode.{bit_field, decode-in_x}
use mini_gdbstub.Emu.View.{IsMachine, All-take, All-drop}

-- A machine again, or undefined for an instruction that accesses the memory.
pub data Keeps (access : Bool) : Ran → Type 0 where
  kept : (valid : Bool) (e : Emu) → IsMachine e → Keeps access (ok (valid, e))
  undefined : access ≡ true → Keeps access fault

-- A load or a store, by its opcode.
unfoldable pub accesses : ℕ → Bool
accesses w = w % 2 ^ 7 == 0x3 || w % 2 ^ 7 == 0x23

pub All-set :
    (xs : List ℕ) (i v : ℕ)
    → v < 2 ^ 64
    → All (λ x. x < 2 ^ 64) xs
    → All (λ x. x < 2 ^ 64) (set xs i v)
All-set [] i v p h = tt
All-set (x ∷ xs) zero v p h = (p, h.1)
All-set (x ∷ xs) (suc i) v p h = (h.0, All-set xs i v p h.1)

All-append : (xs ys : List ℕ) → IsBytes xs → IsBytes ys → IsBytes (xs ++ ys)
All-append [] ys h k = k
All-append (x ∷ xs) ys h k = (h.0, All-append xs ys h.1 k)

from_int32-bound : (v : ℕ) → from_int32 v < 2 ^ 64
unfolding from_int32
from_int32-bound v = ground arith

wrapped : (v : ℕ) → v % 2 ^ 64 < 2 ^ 64
wrapped v = omega arith

masked : (v : ℕ) → bit_and v (2 ^ 64 - 2) < 2 ^ 64
masked v = omega (arith, and_le v (2 ^ 64 - 2))

flag : (b : Bool) → (if b then 1 else 0) < 2 ^ 64
flag true = omega arith
flag false = omega arith

read_bytes-bound : (bs : List ℕ) → IsBytes bs → length bs ≤ 8 → read_bytes 0 bs 0 < 2 ^ 64
read_bytes-bound bs bytes short =
    let within : 2 ^ (length bs * 8) ≤ 2 ^ 64 =
      pow-le-pow_right (omega arith) {j = 64} (omega arith) in
    omega (arith, read_bytes-little_endian bs bytes short, little_endian-bound bs bytes, within)

module _ (e : Emu) (is : IsMachine e) where
  pub set_reg-IsMachine : (i v : ℕ) → v < 2 ^ 64 → IsMachine (set_reg e i v)
  set_reg-IsMachine i v p = record {
    registers = length-set e.x i v ∙ is.registers;
    words = All-set e.x i v p is.words;
    bytes = is.bytes;
    counter = is.counter;
    size = is.size;
    code = is.code;
  }

  pub goto-IsMachine : (pc : ℕ) → pc < 2 ^ 64 → IsMachine (record e { pc = pc })
  goto-IsMachine pc p = record {
    registers = is.registers;
    words = is.words;
    bytes = is.bytes;
    counter = p;
    size = is.size;
    code = is.code;
  }

  pub blit-IsMachine :
      (addr : ℕ) (bs : List ℕ)
      → addr + length bs ≤ length e.mem
      → IsBytes bs
      → IsMachine (record e { mem = blit e.mem addr bs })
  blit-IsMachine addr bs fits small = record {
    registers = is.registers;
    words = is.words;
    bytes =
        All-append (take addr e.mem) _ (All-take addr e.mem is.bytes)
          (All-append bs _ small (All-drop (addr + length bs) e.mem is.bytes));
    counter = is.counter;
    size = length-blit e.mem addr bs fits ∙ is.size;
    code = is.code;
  }

module _ (m : Bool) (e : Emu) (is : IsMachine e) where
  written : (i v : ℕ) → v < 2 ^ 64 → Keeps m (done (set_reg e i v))
  written i v p = kept true (set_reg e i v) (set_reg-IsMachine e is i v p)

  loads :
      (mem : m ≡ true) (n addr rd : ℕ)
      → n ≤ 8
      → Keeps m (do value ← read_len e n addr; done (set_reg e rd value))
  unfolding read_len
  loads mem n addr rd small = elim (Bool-cases (leb (addr + n) (length e.mem))) [
    | inl fits ↦
        let bs = take n (drop addr e.mem) in
        let bytes : IsBytes bs = All-take n (drop addr e.mem) (All-drop addr e.mem is.bytes) in
        let short : length bs ≤ 8 = omega (arith, length-take n (drop addr e.mem)) in
        rw fits (written rd (read_bytes 0 bs 0) (read_bytes-bound bs bytes short))
    | inr out ↦ rw out (undefined mem)
  ]

  stores : (mem : m ≡ true) (n addr v : ℕ) → Keeps m (write_len e n addr v)
  unfolding write_len
  stores mem n addr v = elim (Bool-cases (leb (addr + n) (length e.mem))) [
    | inl fits ↦
        let bs = write_bytes n 0 v in
        let same : bs ≡ bytes_of n v = write_bytes-bytes_of n v in
        rw fits (
          kept true _ (
            blit-IsMachine e is addr bs
              (omega
                (arith, leb→le (addr + n) (length e.mem) fits, ap length same, length-bytes_of n v))
              (subst IsBytes (sym same) (bytes_of-IsBytes n v))))
    | inr out ↦ rw out (undefined mem)
  ]

  refused : Keeps m (invalid e)
  refused = kept false e is

  Keeps-if : (b : Bool) (r r' : Ran) → Keeps m r → Keeps m r' → Keeps m (if b then r else r')
  Keeps-if true r r' h k = h
  Keeps-if false r r' h k = k

  Keeps-3 : m ≡ true → (i : Inst) → Keeps m (opcode_3 e i)
  unfolding opcode_3
  Keeps-3 mem i =
      Keeps-if _ _ _ (loads mem 4 _ i.rd (omega arith))
        (Keeps-if _ _ _ (loads mem 8 _ i.rd (omega arith)) refused)

  Keeps-13 : (i : Inst) → Keeps m (opcode_13 e i)
  unfolding opcode_13
  Keeps-13 i =
      Keeps-if (i.funct3 == 0x0) _ _ (written i.rd ((reg e i.rs1 + imm_i i) % 2 ^ 64) (wrapped _)) (
        Keeps-if (i.funct3 == 0x2) _ _
          (written i.rd (if less_signed (reg e i.rs1) (imm_i i) then 1 else 0) (flag _)) refused)

  Keeps-1b : (i : Inst) → Keeps m (opcode_1b e i)
  unfolding opcode_1b
  Keeps-1b i = Keeps-if _ _ _ (written i.rd _ (from_int32-bound _)) refused

  Keeps-23 : m ≡ true → (i : Inst) → Keeps m (opcode_23 e i)
  unfolding opcode_23
  Keeps-23 mem i =
      Keeps-if _ _ _ (stores mem 1 _ _)
        (Keeps-if _ _ _ (stores mem 4 _ _) (Keeps-if _ _ _ (stores mem 8 _ _) refused))

  Keeps-33 : (i : Inst) → Keeps m (opcode_33 e i)
  unfolding opcode_33
  Keeps-33 i = Keeps-if _ _ _ (Keeps-if _ _ _ (written i.rd _ (omega arith)) refused) refused

  Keeps-3b : (i : Inst) → Keeps m (opcode_3b e i)
  unfolding opcode_3b
  Keeps-3b i = Keeps-if _ _ _ (Keeps-if _ _ _ (written i.rd _ (from_int32-bound _)) refused) refused

module _ (m : Bool) (e : Emu) (is : IsMachine e) where
  linked : (i pc : ℕ) → pc < 2 ^ 64 → Keeps m (done (record (set_reg e i e.pc) { pc = pc }))
  linked i pc p =
      kept true _
        (goto-IsMachine (set_reg e i e.pc) (set_reg-IsMachine e is i e.pc is.counter) pc p)

  Keeps-67 : (i : Inst) → Keeps m (opcode_67 e i)
  unfolding opcode_67
  Keeps-67 i = linked i.rd _ (masked _)

  Keeps-6f : (i : Inst) → Keeps m (opcode_6f e i)
  unfolding opcode_6f
  Keeps-6f i = linked i.rd _ (omega arith)

  Keeps-17 : (i : Inst) → Keeps m (opcode_17 e i)
  unfolding opcode_17
  Keeps-17 i = written m e is i.rd _ (omega arith)

  Keeps-37 : (i : Inst) → Keeps m (opcode_37 e i)
  unfolding opcode_37 imm_u
  Keeps-37 i = written m e is i.rd _ (from_int32-bound _)

  Keeps-when :
      (b : Bool) (r r' : Ran) → (b ≡ true → Keeps m r) → Keeps m r' → Keeps m (if b then r else r')
  Keeps-when true r r' h k = h refl
  Keeps-when false r r' h k = k

  Keeps-execute : (op : ℕ) (i : Inst) → m ≡ (op == 0x3 || op == 0x23) → Keeps m (execute op e i)
  unfolding execute
  Keeps-execute op i h =
      let or = Keeps-if m e is in
      Keeps-when _ _ _ (λ load. Keeps-3 m e is (ground (arith, h, load)) i)
        (or _ _ _ (Keeps-13 m e is i) (
          or _ _ _ (Keeps-17 i) (
            or _ _ _ (Keeps-1b m e is i) (
              Keeps-when _ _ _ (λ store. Keeps-23 m e is (ground (arith, h, store)) i)
                (or _ _ _ (Keeps-33 m e is i) (
                  or _ _ _ (Keeps-37 i) (
                    or _ _ _ (Keeps-3b m e is i)
                      (or _ _ _ (Keeps-67 i) (or _ _ _ (Keeps-6f i) (refused m e is))))))))))

pub Keeps-exec : (e : Emu) → IsMachine e → (w : ℕ) → Keeps (accesses w) (emu_exec e w)
unfolding emu_exec accesses
Keeps-exec e is w = rw (decode-in_x w) (
    Keeps-execute (accesses w) (set_reg e 0 0) (set_reg-IsMachine e is 0 0 (omega arith))
      (bit_and w 0x7f) (decode w) (ap (λ op. op == 0x3 || op == 0x23) (sym (bit_field 7 w))))
