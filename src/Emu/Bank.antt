-- ===== src/Emu/Bank.antt =====
-- The registers of emu/src/emu.c, as the stub writes and reads them.
use mini_gdbstub.Base.{
  ℕ, ◌*◌, ◌^◌, ◌≤◌, ◌<◌, ◌≡◌, sym, ap, ◌∙◌, arith, false, List, length, take, get_or, set, IsBytes,
  leb, le→ltb, lt→ltb, lt→leb, leb→le, ◌==◌, if◌then◌else◌, Bool-cases, inl, inr, ok, take-all,
  ==_iff,
}
use mini_gdbstub.Base.Int.{pos}
use mini_gdbstub.Emu.{Emu, regsz}
use mini_gdbstub.Emu.Word.{read_bytes}
use mini_gdbstub.Emu.Bytes.{read_bytes-little_endian, write_bytes-bytes_of, bytes_of-little_endian}
use mini_gdbstub.Emu.Target.{emu_read_reg, emu_write_reg}
use mini_gdbstub.Emu.View.{IsMachine, get_or-set}
use mini_gdbstub.Emu.Isa.{little_endian, bytes_of}
use mini_gdbstub.Emu.Invariant.{set_reg-IsMachine, goto-IsMachine}
use mini_gdbstub.Emu.Bytes.{little_endian-bound}

-- What register `i` holds: a general one, or the `pc`.
unfoldable pub held : Emu → ℕ → ℕ
held e i = if i == 32 then e.pc else get_or e.x i 0

pub read_reg-held :
    (e : Emu) (i : ℕ) → i ≤ 32 → emu_read_reg e i ≡ ok (pos 0, bytes_of 8 (held e i))
unfolding emu_read_reg held
read_reg-held e i low =
    rw (lt→leb (2 ^ 31) i (omega arith), le→ltb 32 i low)
      (elim (Bool-cases (i == 32)) [
        | inl last ↦ rw last (ap (λ v. ok (pos 0, v)) (write_bytes-bytes_of 8 e.pc))
        | inr other ↦ rw other (ap (λ v. ok (pos 0, v)) (write_bytes-bytes_of 8 (get_or e.x i 0)))
      ])

read_reg-none : (e e' : Emu) (i : ℕ) → 32 < i → emu_read_reg e' i ≡ emu_read_reg e i
unfolding emu_read_reg
read_reg-none e e' i high = rw (lt→ltb 32 i high)

unfoldable pub put : Emu → ℕ → ℕ → Emu
put e i v = if i == 32 then record e { pc = v } else record e { x = set e.x i v }

pub write_reg-put :
    (e : Emu) (i : ℕ) (v : List ℕ)
    → i ≤ 32
    → length v ≡ regsz
    → IsBytes v
    → emu_write_reg e i v ≡ ok (pos 0, put e i (little_endian v))
unfolding emu_write_reg put
write_reg-put e i v low size bytes =
    let value : read_bytes 0 (take regsz v) 0 ≡ little_endian v =
      ap (λ b. read_bytes 0 b 0) (take-all regsz v (omega (arith, size)))
      ∙ read_bytes-little_endian v bytes (omega (arith, size)) in
    rw (lt→leb (2 ^ 31) i (omega arith), le→ltb 32 i low, value)
      (elim (Bool-cases (i == 32)) [ inl last ↦ rw last | inr other ↦ rw other ])

put-IsMachine : (e : Emu) (i v : ℕ) → IsMachine e → v < 2 ^ 64 → IsMachine (put e i v)
unfolding put
put-IsMachine e i v is small = elim (Bool-cases (i == 32)) [
  | inl last ↦ rw last (goto-IsMachine e is v small)
  | inr other ↦ rw other (set_reg-IsMachine e is i v small)
]

pub put-held :
    (e : Emu) (i j v : ℕ)
    → length e.x ≡ 32
    → i ≤ 32
    → held (put e i v) j ≡ (if j == i then v else held e j)
unfolding put held
put-held e i j v size low = elim (Bool-cases (i == 32)) [
  | inl last ↦
      let at : i ≡ 32 = (==_iff i 32).0 last in
      rw (last, at) (elim (Bool-cases (j == 32)) [ inl pc ↦ rw pc | inr x ↦ rw x ])
  | inr other ↦ elim (Bool-cases (j == 32)) [
    | inl pc ↦ let apart : (j == i) ≡ false = ground arith in rw (other, pc, apart)
    | inr x ↦ rw (other, x) (get_or-set e.x i j v (ground arith))
  ]
]

-- A register that is written, each of 8 bytes, holds these bytes, every other register reads as
-- before, and the machine is valid again.
pub emu_write_reg-emu_read_reg :
    (e : Emu) (i : ℕ) (v : List ℕ)
    → IsMachine e
    → i ≤ 32
    → length v ≡ regsz
    → IsBytes v
    → (e' : Emu) × (emu_write_reg e i v ≡ ok (pos 0, e'))
      × IsMachine e'
      × ((j : ℕ) → emu_read_reg e' j ≡ (if j == i then ok (pos 0, v) else emu_read_reg e j))
emu_write_reg-emu_read_reg e i v is low size bytes =
    let w = little_endian v in
    let small : w < 2 ^ 64 =
      omega (arith, little_endian-bound v bytes, ap (λ n. 2 ^ (n * 8)) size) in
    (put e i w, write_reg-put e i v low size bytes, put-IsMachine e i w is small, reads)
  where
    reads :
        (j : ℕ)
        → emu_read_reg (put e i (little_endian v)) j
          ≡ (if j == i then ok (pos 0, v) else emu_read_reg e j)
    reads j = elim (Bool-cases (leb j 32)) [
      | inr high ↦
          let apart : (j == i) ≡ false = ground arith in
          rw apart (read_reg-none e _ j (ground arith))
      | inl inside ↦
          read_reg-held _ j (leb→le j 32 inside)
          ∙ ap (λ x. ok (pos 0, bytes_of 8 x)) (put-held e i j (little_endian v) is.registers low)
          ∙ elim (Bool-cases (j == i)) [
            | inl same ↦ rw same (
                ap (λ b. ok (pos 0, b))
                  (ap (λ n. bytes_of n (little_endian v)) (sym size)
                    ∙ bytes_of-little_endian v bytes))
            | inr other ↦ rw other (sym (read_reg-held e j (leb→le j 32 inside)))
          ]
    ]
