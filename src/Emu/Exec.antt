-- ===== src/Emu/Exec.antt =====
-- `emu_exec` of emu/src/emu.c and its functions for the opcodes.
use Prim.Native.Nat.{bit_and, bit_or}
use mini_gdbstub.Base.{
  ℕ, ◌+◌, ◌-◌, ◌/◌, ◌%◌, ◌^◌, Bool, true, false, length, take, drop, get_or, set, blit, leb, ltb,
  ◌&&◌, ◌==◌, if◌then◌else◌, Result, ok, fault, ◌>>=◌,
}
use mini_gdbstub.Emu.{Emu}
use mini_gdbstub.Emu.Word.{from_int32, shift_right, less_signed, read_bytes, write_bytes}

-- `inst_t`
pub record Inst : Type 0 where
  pub inst : ℕ
  pub rd : ℕ
  pub rs1 : ℕ
  pub rs2 : ℕ
  pub funct3 : ℕ
  pub funct7 : ℕ

-- The return code is 0 for `true`, -1 for `false`.
abbrev pub Ran : Type 0
Ran = Result (Bool × Emu)

abbrev pub reg : Emu → ℕ → ℕ
reg e i = get_or e.x i 0

-- For an `i` below 32, as `in_x` tests.
abbrev pub set_reg : Emu → ℕ → ℕ → Emu
set_reg e i v = record e { x = set e.x i v }

abbrev pub done : Emu → Ran
done e = ok (true, e)

abbrev pub invalid : Emu → Ran
invalid e = ok (false, e)

-- `emu->m.mem + x[rs1] + imm`, as the offset into the block.
abbrev pub address : Emu → Inst → ℕ → ℕ
address e i imm = (reg e i.rs1 + imm) % 2 ^ 64

-- An access outside the block is undefined.
unfoldable pub read_len : Emu → (n addr : ℕ) → Result ℕ
read_len e n addr =
    if leb (addr + n) (length e.mem) then ok (read_bytes 0 (take n (drop addr e.mem)) 0) else fault

unfoldable pub write_len : Emu → (n addr value : ℕ) → Ran
write_len e n addr value =
    if leb (addr + n) (length e.mem)
    then done (record e { mem = blit e.mem addr (write_bytes n 0 value) })
    else fault

unfoldable pub imm_i : Inst → ℕ
imm_i i = shift_right (from_int32 (bit_and i.inst 0xfff00000)) 20

unfoldable pub imm_u : Inst → ℕ
imm_u i = from_int32 (bit_and i.inst 0xfffff000)

unfoldable pub imm_s : Inst → ℕ
imm_s i =
    bit_or (shift_right (from_int32 (bit_and i.inst 0xfe000000)) 20) (bit_and (i.inst / 2 ^ 7) 0x1f)

unfoldable pub imm_j : Inst → ℕ
imm_j i =
    bit_or
      (bit_or
        (bit_or (shift_right (from_int32 (bit_and i.inst 0x80000000)) 11) (bit_and i.inst 0xff000))
        (bit_and (i.inst / 2 ^ 9) 0x800))
      (bit_and (i.inst / 2 ^ 20) 0x7fe)

unfoldable pub opcode_3 : Emu → Inst → Ran
opcode_3 e i =
    let addr = address e i (imm_i i) in
    if i.funct3 == 0x2
    then (do value ← read_len e 4 addr; done (set_reg e i.rd value))
    else if i.funct3 == 0x3
    then (do value ← read_len e 8 addr; done (set_reg e i.rd value))
    else invalid e

unfoldable pub opcode_13 : Emu → Inst → Ran
opcode_13 e i =
    if i.funct3 == 0x0
    then done (set_reg e i.rd ((reg e i.rs1 + imm_i i) % 2 ^ 64))
    else if i.funct3 == 0x2
    then done (set_reg e i.rd (if less_signed (reg e i.rs1) (imm_i i) then 1 else 0))
    else invalid e

unfoldable pub opcode_17 : Emu → Inst → Ran
opcode_17 e i = done (set_reg e i.rd ((e.pc + imm_u i + 2 ^ 64 - 4) % 2 ^ 64))

unfoldable pub opcode_1b : Emu → Inst → Ran
opcode_1b e i =
    if i.funct3 == 0x0
    then done (set_reg e i.rd (from_int32 ((reg e i.rs1 % 2 ^ 32 + imm_i i % 2 ^ 32) % 2 ^ 32)))
    else invalid e

unfoldable pub opcode_23 : Emu → Inst → Ran
opcode_23 e i =
    let addr = address e i (imm_s i) in
    if i.funct3 == 0x0
    then write_len e 1 addr (reg e i.rs2)
    else if i.funct3 == 0x2
    then write_len e 4 addr (reg e i.rs2)
    else if i.funct3 == 0x3
    then write_len e 8 addr (reg e i.rs2)
    else invalid e

unfoldable pub opcode_33 : Emu → Inst → Ran
opcode_33 e i =
    if i.funct3 == 0x0
    then (if i.funct7 == 0x00
        then done (set_reg e i.rd ((reg e i.rs1 + reg e i.rs2) % 2 ^ 64))
        else invalid e)
    else invalid e

unfoldable pub opcode_37 : Emu → Inst → Ran
opcode_37 e i = done (set_reg e i.rd (imm_u i))

unfoldable pub opcode_3b : Emu → Inst → Ran
opcode_3b e i =
    if i.funct3 == 0x0
    then (if i.funct7 == 0x00
        then done
            (set_reg e i.rd (from_int32 ((reg e i.rs1 % 2 ^ 32 + reg e i.rs2 % 2 ^ 32) % 2 ^ 32)))
        else invalid e)
    else invalid e

-- `rd` is written before `rs1` is read.
unfoldable pub opcode_67 : Emu → Inst → Ran
opcode_67 e i =
    let linked = set_reg e i.rd e.pc in
    done (record linked { pc = bit_and ((reg linked i.rs1 + imm_i i) % 2 ^ 64) (2 ^ 64 - 2) })

unfoldable pub opcode_6f : Emu → Inst → Ran
opcode_6f e i = done (record (set_reg e i.rd e.pc) { pc = (e.pc + imm_j i + 2 ^ 64 - 4) % 2 ^ 64 })

unfoldable pub decode : (raw_inst : ℕ) → Inst
decode raw_inst = record {
  inst = raw_inst;
  rd = bit_and (raw_inst / 2 ^ 7) 0x1f;
  rs1 = bit_and (raw_inst / 2 ^ 15) 0x1f;
  rs2 = bit_and (raw_inst / 2 ^ 20) 0x1f;
  funct3 = bit_and (raw_inst / 2 ^ 12) 0x7;
  funct7 = bit_and (raw_inst / 2 ^ 25) 0x7f;
}

unfoldable pub execute : (opcode : ℕ) → Emu → Inst → Ran
execute opcode e i =
    if opcode == 0x3
    then opcode_3 e i
    else if opcode == 0x13
    then opcode_13 e i
    else if opcode == 0x17
    then opcode_17 e i
    else if opcode == 0x1b
    then opcode_1b e i
    else if opcode == 0x23
    then opcode_23 e i
    else if opcode == 0x33
    then opcode_33 e i
    else if opcode == 0x37
    then opcode_37 e i
    else if opcode == 0x3b
    then opcode_3b e i
    else if opcode == 0x67
    then opcode_67 e i
    else if opcode == 0x6f
    then opcode_6f e i
    else invalid e

-- The registers of the instruction are in `x[32]`. To use another one is undefined, here for every
-- instruction that names one.
unfoldable pub in_x : Inst → Bool
in_x i = ltb i.rd 32 && (ltb i.rs1 32 && ltb i.rs2 32)

-- Register `x0` is 0 when an instruction begins.
unfoldable pub emu_exec : Emu → (raw_inst : ℕ) → Ran
unfolding execute decode in_x
emu_exec e raw_inst =
    let i = decode raw_inst in
    if in_x i then execute (bit_and raw_inst 0x7f) (set_reg e 0 0) i else fault
