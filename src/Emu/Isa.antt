-- ===== src/Emu/Isa.antt =====
-- What the RISC-V manual asks of the instructions that emu/src/emu.c runs: their encoding, and
-- their effect on a machine of 32 registers, in 64 bits. Nothing here is translated from the source.
use mini_gdbstub.Base.{
  ℕ, zero, suc, ◌+◌, ◌-◌, ◌*◌, ◌/◌, ◌%◌, ◌^◌, ◌<◌, Bool, List, [], ◌∷◌, length, take, drop, blit,
  leb, ltb, ◌==◌, if◌then◌else◌, Result, ok, fault, ◌>>=◌,
}
use mini_gdbstub.Emu.Fields.{sext}

-- The immediate of `jal` in its four fields: bit 20, bits 10 to 1, bit 11, bits 19 to 12.
pub record Jump : Type 0 where
  pub b20 : ℕ
  pub b10_1 : ℕ
  pub b11 : ℕ
  pub b19_12 : ℕ

pub data Op : Type 0 where
  lw ld addi slti addiw jalr : (rd rs1 imm : ℕ) → Op
  -- the immediate: bits 11 to 5, and bits 4 to 0
  sb sw sd : (rs2 rs1 up low : ℕ) → Op
  add addw : (rd rs1 rs2 : ℕ) → Op
  lui auipc : (rd imm : ℕ) → Op
  jal : (rd : ℕ) → Jump → Op

-- Each field is in its range.
unfoldable pub Fits : Op → Type 0
Fits (lw rd rs1 imm) = rd < 32 × rs1 < 32 × imm < 2 ^ 12
Fits (ld rd rs1 imm) = rd < 32 × rs1 < 32 × imm < 2 ^ 12
Fits (addi rd rs1 imm) = rd < 32 × rs1 < 32 × imm < 2 ^ 12
Fits (slti rd rs1 imm) = rd < 32 × rs1 < 32 × imm < 2 ^ 12
Fits (addiw rd rs1 imm) = rd < 32 × rs1 < 32 × imm < 2 ^ 12
Fits (jalr rd rs1 imm) = rd < 32 × rs1 < 32 × imm < 2 ^ 12
Fits (sb rs2 rs1 up low) = rs2 < 32 × rs1 < 32 × up < 2 ^ 7 × low < 2 ^ 5
Fits (sw rs2 rs1 up low) = rs2 < 32 × rs1 < 32 × up < 2 ^ 7 × low < 2 ^ 5
Fits (sd rs2 rs1 up low) = rs2 < 32 × rs1 < 32 × up < 2 ^ 7 × low < 2 ^ 5
Fits (add rd rs1 rs2) = rd < 32 × rs1 < 32 × rs2 < 32
Fits (addw rd rs1 rs2) = rd < 32 × rs1 < 32 × rs2 < 32
Fits (lui rd imm) = rd < 32 × imm < 2 ^ 20
Fits (auipc rd imm) = rd < 32 × imm < 2 ^ 20
Fits (jal rd j) = rd < 32 × j.b20 < 2 × j.b10_1 < 2 ^ 10 × j.b11 < 2 × j.b19_12 < 2 ^ 8

-- The formats, from the opcode up.
abbrev pub type_i : (op funct3 rd rs1 imm : ℕ) → ℕ
type_i op f rd rs1 imm = imm * 2 ^ 20 + (rs1 * 2 ^ 15 + (f * 2 ^ 12 + (rd * 2 ^ 7 + op)))

abbrev pub type_s : (op funct3 rs2 rs1 up low : ℕ) → ℕ
type_s op f rs2 rs1 up low =
    up * 2 ^ 25 + (rs2 * 2 ^ 20 + (rs1 * 2 ^ 15 + (f * 2 ^ 12 + (low * 2 ^ 7 + op))))

abbrev pub type_r : (op rd rs1 rs2 : ℕ) → ℕ
type_r op rd rs1 rs2 = rs2 * 2 ^ 20 + (rs1 * 2 ^ 15 + (rd * 2 ^ 7 + op))

abbrev pub type_u : (op rd imm : ℕ) → ℕ
type_u op rd imm = imm * 2 ^ 12 + (rd * 2 ^ 7 + op)

abbrev pub type_j : (rd : ℕ) → Jump → ℕ
type_j rd j =
    j.b20 * 2 ^ 31
    + (j.b10_1 * 2 ^ 21 + (j.b11 * 2 ^ 20 + (j.b19_12 * 2 ^ 12 + (rd * 2 ^ 7 + 0x6f))))

unfoldable pub encode : Op → ℕ
encode (lw rd rs1 imm) = type_i 0x03 2 rd rs1 imm
encode (ld rd rs1 imm) = type_i 0x03 3 rd rs1 imm
encode (addi rd rs1 imm) = type_i 0x13 0 rd rs1 imm
encode (slti rd rs1 imm) = type_i 0x13 2 rd rs1 imm
encode (addiw rd rs1 imm) = type_i 0x1b 0 rd rs1 imm
encode (jalr rd rs1 imm) = type_i 0x67 0 rd rs1 imm
encode (sb rs2 rs1 up low) = type_s 0x23 0 rs2 rs1 up low
encode (sw rs2 rs1 up low) = type_s 0x23 2 rs2 rs1 up low
encode (sd rs2 rs1 up low) = type_s 0x23 3 rs2 rs1 up low
encode (add rd rs1 rs2) = type_r 0x33 rd rs1 rs2
encode (addw rd rs1 rs2) = type_r 0x3b rd rs1 rs2
encode (lui rd imm) = type_u 0x37 rd imm
encode (auipc rd imm) = type_u 0x17 rd imm
encode (jal rd j) = type_j rd j

-- Register 0 is always 0.
pub record Machine : Type 0 where
  pub regs : ℕ → ℕ
  pub pc : ℕ
  pub mem : List ℕ

-- A write to register 0 is lost.
abbrev pub write_rd : Machine → (rd v : ℕ) → Machine
write_rd m rd v = record m { regs = λ j. if j == 0 then 0 else if j == rd then v else m.regs j }

abbrev pub next : Machine → Machine
next m = record m { pc = (m.pc + 4) % 2 ^ 64 }

-- The value of the bytes, the first the least.
abbrev pub little_endian : List ℕ → ℕ
little_endian [] = 0
little_endian (b ∷ bs) = b + 256 * little_endian bs

abbrev pub bytes_of : (n v : ℕ) → List ℕ
bytes_of zero v = []
bytes_of (suc n) v = v % 256 ∷ bytes_of n (v / 256)

-- The order of signed numbers.
abbrev pub below : (a b : ℕ) → Bool
below a b = ltb ((a + 2 ^ 63) % 2 ^ 64) ((b + 2 ^ 63) % 2 ^ 64)

abbrev pub load_at : Machine → (n addr : ℕ) → Result ℕ
load_at m n addr =
    if leb (addr + n) (length m.mem) then ok (little_endian (take n (drop addr m.mem))) else fault

abbrev pub store_at : Machine → (n addr v : ℕ) → Result Machine
store_at m n addr v =
    if leb (addr + n) (length m.mem)
    then ok (next (record m { mem = blit m.mem addr (bytes_of n v) }))
    else fault

abbrev pub load : Machine → (n base offset : ℕ) → Result ℕ
load m n base offset = load_at m n ((base + offset) % 2 ^ 64)

abbrev pub store : Machine → (n base offset v : ℕ) → Result Machine
store m n base offset v = store_at m n ((base + offset) % 2 ^ 64) v

abbrev pub jump_offset : Jump → ℕ
jump_offset j = sext 21 (j.b20 * 2 ^ 20 + (j.b19_12 * 2 ^ 12 + (j.b11 * 2 ^ 11 + j.b10_1 * 2)))

-- The effect of an instruction, the `pc` its own address.
unfoldable pub step : Op → Machine → Result Machine
step (lw rd rs1 imm) m = do
  v ← load m 4 (m.regs rs1) (sext 12 imm)
  ok (next (write_rd m rd (sext 32 v)))
step (ld rd rs1 imm) m = do v ← load m 8 (m.regs rs1) (sext 12 imm); ok (next (write_rd m rd v))
step (addi rd rs1 imm) m = ok (next (write_rd m rd ((m.regs rs1 + sext 12 imm) % 2 ^ 64)))
step (slti rd rs1 imm) m =
    ok (next (write_rd m rd (if below (m.regs rs1) (sext 12 imm) then 1 else 0)))
step (addiw rd rs1 imm) m =
    ok (next (write_rd m rd (sext 32 ((m.regs rs1 + sext 12 imm) % 2 ^ 32))))
step (jalr rd rs1 imm) m =
    let target = (m.regs rs1 + sext 12 imm) % 2 ^ 64 in
    ok (record (write_rd m rd ((m.pc + 4) % 2 ^ 64)) { pc = target - target % 2 })
step (sb rs2 rs1 up low) m = store m 1 (m.regs rs1) (sext 12 (up * 2 ^ 5 + low)) (m.regs rs2)
step (sw rs2 rs1 up low) m = store m 4 (m.regs rs1) (sext 12 (up * 2 ^ 5 + low)) (m.regs rs2)
step (sd rs2 rs1 up low) m = store m 8 (m.regs rs1) (sext 12 (up * 2 ^ 5 + low)) (m.regs rs2)
step (add rd rs1 rs2) m = ok (next (write_rd m rd ((m.regs rs1 + m.regs rs2) % 2 ^ 64)))
step (addw rd rs1 rs2) m = ok (next (write_rd m rd (sext 32 ((m.regs rs1 + m.regs rs2) % 2 ^ 32))))
step (lui rd imm) m = ok (next (write_rd m rd (sext 32 (imm * 2 ^ 12))))
step (auipc rd imm) m = ok (next (write_rd m rd ((m.pc + sext 32 (imm * 2 ^ 12)) % 2 ^ 64)))
step (jal rd j) m =
    ok (record (write_rd m rd ((m.pc + 4) % 2 ^ 64)) { pc = (m.pc + jump_offset j) % 2 ^ 64 })
