-- ===== src/Emu/Storage.antt =====
-- Registers and memory of emu/src/emu.c, as the stub writes and reads them.
use native.Mathlib.Nat.{mod-eq_of_lt}
use mini_gdbstub.Base.{
  ℕ, ◌+◌, ◌-◌, ◌%◌, ◌^◌, ◌≤◌, ◌<◌, ◌≡◌, refl, sym, ap, ◌∙◌, arith, true, false, ◌&&◌, List, [],
  length, take, drop, get_or, blit, leb, ltb, le→ltb, le→leb, lt→leb, if◌then◌else◌, Bool-cases,
  inl, inr, ok, fault, slice-blit, length-blit, take-all, get_or-blit,
}
use mini_gdbstub.Base.Int.{pos}
use mini_gdbstub.Emu.{Emu, mem_size}
use mini_gdbstub.Emu.Target.{efault, emu_read_mem, emu_write_mem}

module _ (e : Emu) (addr len : ℕ) (size : length e.mem ≡ mem_size) where
  pub read_inside :
      addr + len ≤ mem_size → emu_read_mem e addr len ≡ ok (pos 0, take len (drop addr e.mem))
  unfolding emu_read_mem
  read_inside within =
      let whole : (addr + len) % 2 ^ 64 ≡ addr + len = mod-eq_of_lt (omega (arith, within)) in
      rw (
        whole,
        le→ltb mem_size (addr + len) within,
        le→leb (addr + len) (length e.mem) (omega (arith, within, size)),
      )

  pub write_inside :
      (value : List ℕ)
      → addr + len ≤ mem_size
      → emu_write_mem e addr len value
        ≡ ok (pos 0, record e { mem = blit e.mem addr (take len value) })
  unfolding emu_write_mem
  write_inside value within =
      let whole : (addr + len) % 2 ^ 64 ≡ addr + len = mod-eq_of_lt (omega (arith, within)) in
      rw (
        whole,
        le→ltb mem_size (addr + len) within,
        le→leb (addr + len) (length e.mem) (omega (arith, within, size)),
      )

  -- What a request for memory that does not lie in the block gets: past the end of the block an
  -- error, and nothing changes; but where the sum of address and length wraps to a place in the block,
  -- the check passes it, and the copy leaves the block.
  pub emu_mem-outside :
      (value : List ℕ)
      → mem_size < addr + len
      → addr < 2 ^ 64
      → len < 2 ^ 64
      → (emu_read_mem e addr len ≡ (
          if leb (2 ^ 64) (addr + len) && leb (addr + len) (2 ^ 64 + mem_size)
          then fault
          else ok (efault, [])))
        × (emu_write_mem e addr len value ≡ (
            if leb (2 ^ 64) (addr + len) && leb (addr + len) (2 ^ 64 + mem_size)
            then fault
            else ok (efault, e)))
  unfolding emu_read_mem emu_write_mem
  emu_mem-outside value past p q =
      let out : leb (addr + len) (length e.mem) ≡ false =
        lt→leb (addr + len) (length e.mem) (omega (arith, past, size)) in
      elim (Bool-cases (leb (2 ^ 64) (addr + len) && leb (addr + len) (2 ^ 64 + mem_size))) [
        | inl wraps ↦
            let passes : ltb mem_size ((addr + len) % 2 ^ 64) ≡ false = ground arith in
            rw (wraps, passes, out) (refl, refl)
        | inr stays ↦
            let caught : ltb mem_size ((addr + len) % 2 ^ 64) ≡ true = ground arith in
            rw (stays, caught) (refl, refl)
      ]

-- A write of `len` bytes that lie in the memory succeeds; they can be read back; and each byte of the
-- memory is then the one written there, or what it was.
pub emu_write_mem-emu_read_mem :
    (e : Emu) (addr len : ℕ) (value : List ℕ)
    → length e.mem ≡ mem_size
    → length value ≡ len
    → addr + len ≤ mem_size
    → (e' : Emu) × (emu_write_mem e addr len value ≡ ok (pos 0, e'))
      × (emu_read_mem e' addr len ≡ ok (pos 0, value))
      × ((i : ℕ)
          → get_or e'.mem i 0 ≡ (
              if leb addr i && ltb i (addr + len)
              then get_or value (i - addr) 0
              else get_or e.mem i 0))
emu_write_mem-emu_read_mem e addr len value size fits within =
    let all : take len value ≡ value = take-all len value (omega (arith, fits)) in
    let e' : Emu = record e { mem = blit e.mem addr value } in
    let room : addr + length value ≤ length e.mem = omega (arith, fits, size, within) in
    let back : take len (drop addr e'.mem) ≡ value =
      ap (λ n. take n (drop addr e'.mem)) (sym fits)
      ∙ slice-blit e.mem value addr (omega (arith, size, within)) in
    (
      e',
      write_inside e addr len size value within
          ∙ ap (λ v. ok (pos 0, record e { mem = blit e.mem addr v })) all,
      read_inside e' addr len (length-blit e.mem addr value room ∙ size) within
          ∙ ap (λ v. ok (pos 0, v)) back,
      λ i.
          get_or-blit e.mem value addr i room
          ∙ ap
              (λ n.
                if leb addr i && ltb i (addr + n)
                then get_or value (i - addr) 0
                else get_or e.mem i 0)
              fits,
    )
