-- ===== src/Emu/Fields.antt =====
-- The masks and shifts of emu/src/emu.c, as arithmetic on the fields of an instruction.
use Prim.Native.Nat.{bit_and, bit_or}
use mini_gdbstub.Base.{
  ℕ, ◌+◌, ◌-◌, ◌*◌, ◌/◌, ◌^◌, ◌<◌, ◌≡◌, ap, ap₂, ◌∙◌, arith, ltb, ◌==◌, if◌then◌else◌, pow_pos,
}
use mini_gdbstub.Base.Bits.{and_ones, and_low, and_high, or_disjoint}
use mini_gdbstub.Emu.Word.{from_int32, shift_right}
use mini_gdbstub.Emu.Exec.{Inst, imm_i, imm_u, imm_s, imm_j}

-- A mask of the low bits of a number in two parts.
pub low_bits : (k h l : ℕ) → l < 2 ^ k → bit_and (h * 2 ^ k + l) (2 ^ k - 1) ≡ l
low_bits k h l p = and_low k h l (2 ^ k - 1) p (omega (arith, pow_pos k)) ∙ and_ones k l p

-- A mask of the bits above.
pub high_bits :
    (k w h l : ℕ)
    → l < 2 ^ k
    → h < 2 ^ w
    → bit_and (h * 2 ^ k + l) ((2 ^ w - 1) * 2 ^ k) ≡ h * 2 ^ k
high_bits k w h l p q = and_high k h l (2 ^ w - 1) p ∙ ap (λ x. x * 2 ^ k) (and_ones w h q)

-- A mask in the middle.
pub mid_bits :
    (k w g h l : ℕ)
    → l < 2 ^ k
    → h < 2 ^ w
    → bit_and ((g * 2 ^ w + h) * 2 ^ k + l) ((2 ^ w - 1) * 2 ^ k) ≡ h * 2 ^ k
mid_bits k w g h l p q =
    and_high k (g * 2 ^ w + h) l (2 ^ w - 1) p ∙ ap (λ x. x * 2 ^ k) (low_bits w g h q)

-- A number of `w` bits, the highest its sign, as 64 bits.
unfoldable pub sext : (w v : ℕ) → ℕ
sext w v = if ltb v (2 ^ (w - 1)) then v else v + (2 ^ 64 - 2 ^ w)

pub imm_i_lem :
    (i : Inst) (up low : ℕ)
    → low < 2 ^ 20
    → up < 2 ^ 12
    → i.inst ≡ up * 2 ^ 20 + low
    → imm_i i ≡ sext 12 up
unfolding imm_i from_int32 shift_right sext
imm_i_lem i up low p q e =
    ap (λ v. shift_right (from_int32 (bit_and v 0xfff00000)) 20) e
    ∙ ap (λ v. shift_right (from_int32 v) 20) (high_bits 20 12 up low p q)
    ∙ ground arith

pub imm_u_lem :
    (i : Inst) (up low : ℕ)
    → low < 2 ^ 12
    → up < 2 ^ 20
    → i.inst ≡ up * 2 ^ 12 + low
    → imm_u i ≡ sext 32 (up * 2 ^ 12)
unfolding imm_u from_int32 sext
imm_u_lem i up low p q e =
    ap (λ v. from_int32 (bit_and v 0xfffff000)) e
    ∙ ap (λ v. from_int32 v) (high_bits 12 20 up low p q)
    ∙ ground arith

-- The sign-extended upper part of the immediate of a store, and of a jump.
upper_s : ℕ → ℕ
upper_s up = if ltb up (2 ^ 6) then up else up + (2 ^ 59 - 2 ^ 7)

upper_s_lem : (up : ℕ) → up < 2 ^ 7 → shift_right (from_int32 (up * 2 ^ 25)) 20 ≡ upper_s up * 2 ^ 5
unfolding from_int32 shift_right upper_s
upper_s_lem up p = ground arith

upper_s-sext :
    (up lo : ℕ) → up < 2 ^ 7 → lo < 2 ^ 5 → upper_s up * 2 ^ 5 + lo ≡ sext 12 (up * 2 ^ 5 + lo)
unfolding upper_s sext
upper_s-sext up lo p q = ground arith

upper_j : ℕ → ℕ
upper_j sign = if sign == 0 then 0 else 2 ^ 44 - 1

upper_j_lem :
    (sign : ℕ) → sign < 2 → shift_right (from_int32 (sign * 2 ^ 31)) 11 ≡ upper_j sign * 2 ^ 20
unfolding from_int32 shift_right upper_j
upper_j_lem sign p = ground arith

upper_j-sext :
    (sign low : ℕ)
    → sign < 2
    → low < 2 ^ 20
    → upper_j sign * 2 ^ 20 + low ≡ sext 21 (sign * 2 ^ 20 + low)
unfolding upper_j sext
upper_j-sext sign low p q = ground arith

-- The immediate of a store stands in two places.
pub imm_s_lem :
    (i : Inst) (up m lo op : ℕ)
    → up < 2 ^ 7
    → m < 2 ^ 13
    → lo < 2 ^ 5
    → op < 2 ^ 7
    → i.inst ≡ up * 2 ^ 25 + (m * 2 ^ 12 + (lo * 2 ^ 7 + op))
    → imm_s i ≡ sext 12 (up * 2 ^ 5 + lo)
unfolding imm_s
imm_s_lem i up m lo op p q r s e =
    let shifted : i.inst / 2 ^ 7 ≡ (up * 2 ^ 13 + m) * 2 ^ 5 + lo = omega (arith, e) in
    ap₂ bit_or
      (ap (λ v. shift_right (from_int32 (bit_and v 0xfe000000)) 20) e
        ∙ ap (λ v. shift_right (from_int32 v) 20)
            (high_bits 25 7 up (m * 2 ^ 12 + (lo * 2 ^ 7 + op)) (omega arith) p)
        ∙ upper_s_lem up p)
      (ap (λ v. bit_and v 0x1f) shifted ∙ low_bits 5 (up * 2 ^ 13 + m) lo r)
    ∙ or_disjoint 5 (upper_s up) lo r
    ∙ upper_s-sext up lo p r

-- The immediate of a jump stands in four.
pub imm_j_lem :
    (i : Inst) (sign b10_1 b11 b19_12 op : ℕ)
    → sign < 2
    → b10_1 < 2 ^ 10
    → b11 < 2
    → b19_12 < 2 ^ 8
    → op < 2 ^ 12
    → i.inst ≡ sign * 2 ^ 31 + (b10_1 * 2 ^ 21 + (b11 * 2 ^ 20 + (b19_12 * 2 ^ 12 + op)))
    → imm_j i ≡ sext 21 (sign * 2 ^ 20 + (b19_12 * 2 ^ 12 + (b11 * 2 ^ 11 + b10_1 * 2)))
unfolding imm_j
imm_j_lem i sign a b c op p q r s t e =
    let low = b * 2 ^ 20 + (c * 2 ^ 12 + op) in
    let at_31 : i.inst ≡ sign * 2 ^ 31 + (a * 2 ^ 21 + low) = e in
    let at_12 : i.inst ≡ ((sign * 2 ^ 11 + (a * 2 + b)) * 2 ^ 8 + c) * 2 ^ 12 + op =
      omega (arith, e) in
    let at_20 : i.inst / 2 ^ 9
        ≡ ((sign * 2 ^ 10 + a) * 2 ^ 1 + b) * 2 ^ 11 + (c * 2 ^ 12 + op) / 2 ^ 9 =
      omega (arith, e) in
    let at_21 : i.inst / 2 ^ 20 ≡ (sign * 2 ^ 10 + a) * 2 ^ 1 + b = omega (arith, e) in
    ap₂ bit_or
      (ap₂ bit_or
          (ap₂ bit_or
              (ap (λ v. shift_right (from_int32 (bit_and v 0x80000000)) 11) at_31
                ∙ ap (λ v. shift_right (from_int32 v) 11)
                    (high_bits 31 1 sign (a * 2 ^ 21 + low) (omega arith) p)
                ∙ upper_j_lem sign p)
              (ap (λ v. bit_and v 0xff000) at_12
                ∙ mid_bits 12 8 (sign * 2 ^ 11 + (a * 2 + b)) c op t s)
            ∙ or_disjoint 20 (upper_j sign) (c * 2 ^ 12) (omega arith))
          (ap (λ v. bit_and v 0x800) at_20
            ∙ mid_bits 11 1 (sign * 2 ^ 10 + a) b ((c * 2 ^ 12 + op) / 2 ^ 9) (omega arith) r)
        ∙ ap (λ v. bit_or v (b * 2 ^ 11)) {y = (upper_j sign * 2 ^ 8 + c) * 2 ^ 12} (omega arith)
        ∙ or_disjoint 12 (upper_j sign * 2 ^ 8 + c) (b * 2 ^ 11) (omega arith))
      (ap (λ v. bit_and v 0x7fe) at_21 ∙ mid_bits 1 10 sign a b r q)
    ∙ ap (λ v. bit_or v (a * 2)) {y = ((upper_j sign * 2 ^ 8 + c) * 2 + b) * 2 ^ 11} (omega arith)
    ∙ or_disjoint 11 ((upper_j sign * 2 ^ 8 + c) * 2 + b) (a * 2) (omega arith)
    ∙ omega (arith, upper_j-sext sign (c * 2 ^ 12 + (b * 2 ^ 11 + a * 2)) p (omega arith))
