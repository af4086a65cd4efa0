-- ===== src/Emu/Decode.antt =====
-- What `emu_exec` of emu/src/emu.c hands to the function of an opcode.
use Prim.Native.Nat.{bit_and}
use mini_gdbstub.Base.{
  ℕ, ◌+◌, ◌-◌, ◌*◌, ◌/◌, ◌%◌, ◌^◌, ◌<◌, ◌≡◌, ap, ◌∙◌, arith, pow_pos, true, lt→ltb, fault,
  if◌then◌else◌,
}
use native.Mathlib.Nat.{mul_comm, div-add-mod, mod-lt}
use mini_gdbstub.Emu.{Emu}
use mini_gdbstub.Emu.Exec.{set_reg, in_x, decode, execute, emu_exec}
use mini_gdbstub.Emu.Isa.{type_i, type_s, type_r, type_u}
use mini_gdbstub.Emu.Fields.{low_bits}

pub bit_field : (k w : ℕ) → bit_and w (2 ^ k - 1) ≡ w % 2 ^ k
bit_field k w =
    let parts : w ≡ w / 2 ^ k * 2 ^ k + w % 2 ^ k =
      omega (arith, div-add-mod w (2 ^ k), mul_comm (w / 2 ^ k) (2 ^ k)) in
    ap (λ v. bit_and v (2 ^ k - 1)) parts
    ∙ low_bits k (w / 2 ^ k) (w % 2 ^ k) (mod-lt w (pow_pos k))

decode_lem :
    (w : ℕ)
    → decode w ≡ record {
      inst = w;
      rd = w / 2 ^ 7 % 2 ^ 5;
      rs1 = w / 2 ^ 15 % 2 ^ 5;
      rs2 = w / 2 ^ 20 % 2 ^ 5;
      funct3 = w / 2 ^ 12 % 2 ^ 3;
      funct7 = w / 2 ^ 25 % 2 ^ 7;
    }
unfolding decode
decode_lem w = rw (
  bit_field 5 (w / 2 ^ 7),
  bit_field 5 (w / 2 ^ 15),
  bit_field 5 (w / 2 ^ 20),
  bit_field 3 (w / 2 ^ 12),
  bit_field 7 (w / 2 ^ 25),
)

-- Every register that an instruction can name is there.
pub decode-in_x : (w : ℕ) → in_x (decode w) ≡ true
unfolding in_x
decode-in_x w =
    ap in_x (decode_lem w)
    ∙ rw (
      lt→ltb (w / 2 ^ 7 % 2 ^ 5) 32 (omega arith),
      lt→ltb (w / 2 ^ 15 % 2 ^ 5) 32 (omega arith),
      lt→ltb (w / 2 ^ 20 % 2 ^ 5) 32 (omega arith),
    )

pub emu_exec_fields :
    (e : Emu) (w op rd rs1 rs2 funct3 funct7 : ℕ)
    → w % 2 ^ 7 ≡ op
    → w / 2 ^ 7 % 2 ^ 5 ≡ rd
    → w / 2 ^ 15 % 2 ^ 5 ≡ rs1
    → w / 2 ^ 20 % 2 ^ 5 ≡ rs2
    → w / 2 ^ 12 % 2 ^ 3 ≡ funct3
    → w / 2 ^ 25 % 2 ^ 7 ≡ funct7
    → emu_exec e w
      ≡ execute op
          (set_reg e 0 0)
          (record { inst = w; rd = rd; rs1 = rs1; rs2 = rs2; funct3 = funct3; funct7 = funct7 })
unfolding emu_exec
emu_exec_fields e w op rd rs1 rs2 f3 f7 p q r s t u =
    ap (λ b. if b then execute (bit_and w 0x7f) (set_reg e 0 0) (decode w) else fault)
      (decode-in_x w)
    ∙ ap (execute (bit_and w 0x7f) (set_reg e 0 0)) (decode_lem w)
    ∙ rw (bit_field 7 w, p, q, r, s, t, u)

module _ (e : Emu) where
  pub exec_i :
      (op f rd rs1 imm : ℕ)
      → op < 2 ^ 7
      → f < 2 ^ 3
      → rd < 32
      → rs1 < 32
      → imm < 2 ^ 12
      → emu_exec e (type_i op f rd rs1 imm)
        ≡ execute op (set_reg e 0 0) (record {
          inst = type_i op f rd rs1 imm;
          rd = rd;
          rs1 = rs1;
          rs2 = imm % 32;
          funct3 = f;
          funct7 = imm / 32;
        })
  exec_i op f rd rs1 imm p q r s t =
      emu_exec_fields e (type_i op f rd rs1 imm) op rd rs1 (imm % 32) f (imm / 32) (omega arith)
        (omega arith) (omega arith) (omega arith) (omega arith) (omega arith)

  pub exec_s :
      (f rs2 rs1 up low : ℕ)
      → f < 2 ^ 3
      → rs2 < 32
      → rs1 < 32
      → up < 2 ^ 7
      → low < 2 ^ 5
      → emu_exec e (type_s 0x23 f rs2 rs1 up low)
        ≡ execute 0x23 (set_reg e 0 0) (record {
          inst = type_s 0x23 f rs2 rs1 up low;
          rd = low;
          rs1 = rs1;
          rs2 = rs2;
          funct3 = f;
          funct7 = up;
        })
  exec_s f rs2 rs1 up low q r s t u =
      emu_exec_fields e (type_s 0x23 f rs2 rs1 up low) 0x23 low rs1 rs2 f up (omega arith)
        (omega arith) (omega arith) (omega arith) (omega arith) (omega arith)

  pub exec_r :
      (op rd rs1 rs2 : ℕ)
      → op < 2 ^ 7
      → rd < 32
      → rs1 < 32
      → rs2 < 32
      → emu_exec e (type_r op rd rs1 rs2)
        ≡ execute op (set_reg e 0 0) (record {
          inst = type_r op rd rs1 rs2;
          rd = rd;
          rs1 = rs1;
          rs2 = rs2;
          funct3 = 0;
          funct7 = 0;
        })
  exec_r op rd rs1 rs2 p q r s =
      emu_exec_fields e (type_r op rd rs1 rs2) op rd rs1 rs2 0 0 (omega arith) (omega arith)
        (omega arith) (omega arith) (omega arith) (omega arith)

  -- The formats without operands in registers.
  pub exec_long :
      (op rd imm : ℕ)
      → op < 2 ^ 7
      → rd < 32
      → emu_exec e (type_u op rd imm)
        ≡ execute op (set_reg e 0 0) (record {
          inst = type_u op rd imm;
          rd = rd;
          rs1 = imm / 2 ^ 3 % 2 ^ 5;
          rs2 = imm / 2 ^ 8 % 2 ^ 5;
          funct3 = imm % 2 ^ 3;
          funct7 = imm / 2 ^ 13 % 2 ^ 7;
        })
  exec_long op rd imm p q =
      emu_exec_fields e (type_u op rd imm) op rd (imm / 2 ^ 3 % 2 ^ 5) (imm / 2 ^ 8 % 2 ^ 5)
        (imm % 2 ^ 3) (imm / 2 ^ 13 % 2 ^ 7) (omega arith) (omega arith) (omega arith) (omega arith)
        (omega arith) (omega arith)
