-- ===== src/Emu/Target.antt =====
-- The operations that emu/src/emu.c gives to the stub, but for running.
use mini_gdbstub.Base.{
  ℕ, ◌+◌, ◌%◌, ◌^◌, Bool, true, false, ◌||◌, not, List, [], length, take, drop, get_or, set, blit,
  leb, ltb, ◌==◌, if◌then◌else◌, Result, ok, fault,
}
use mini_gdbstub.Base.Int.{ℤ, pos}
use mini_gdbstub.Emu.{Emu, mem_size, regsz, emu_halt}
use mini_gdbstub.Emu.Word.{read_bytes, write_bytes}

abbrev pub efault : ℤ
efault = pos 14

abbrev pub bp_software : ℕ
bp_software = 0

abbrev pub emu_get_reg_bytes : ℕ → ℕ
emu_get_reg_bytes regno = regsz

-- `regno > 32` on an `int`, whose pattern is below 2^31 if it is not negative. A negative number
-- reads or writes outside the registers.
unfoldable pub emu_read_reg : Emu → (regno : ℕ) → Result (ℤ × List ℕ)
emu_read_reg e regno =
    if leb (2 ^ 31) regno
    then fault
    else if ltb 32 regno
    then ok (efault, [])
    else if regno == 32
    then ok (pos 0, write_bytes regsz 0 e.pc)
    else ok (pos 0, write_bytes regsz 0 (get_or e.x regno 0))

unfoldable pub emu_write_reg : Emu → (regno : ℕ) → List ℕ → Result (ℤ × Emu)
emu_write_reg e regno value =
    if leb (2 ^ 31) regno
    then fault
    else if ltb 32 regno
    then ok (efault, e)
    else if regno == 32
    then ok (pos 0, record e { pc = read_bytes 0 (take regsz value) 0 })
    else ok (pos 0, record e { x = set e.x regno (read_bytes 0 (take regsz value) 0) })

-- `addr + len > MEM_SIZE` on `size_t`, where the sum may wrap; then the copy leaves the block.
unfoldable pub emu_read_mem : Emu → (addr len : ℕ) → Result (ℤ × List ℕ)
emu_read_mem e addr len =
    if ltb mem_size ((addr + len) % 2 ^ 64)
    then ok (efault, [])
    else if leb (addr + len) (length e.mem)
    then ok (pos 0, take len (drop addr e.mem))
    else fault

unfoldable pub emu_write_mem : Emu → (addr len : ℕ) → List ℕ → Result (ℤ × Emu)
emu_write_mem e addr len value =
    if ltb mem_size ((addr + len) % 2 ^ 64)
    then ok (efault, e)
    else if leb (addr + len) (length e.mem)
    then ok (pos 0, record e { mem = blit e.mem addr (take len value) })
    else fault

unfoldable pub emu_set_bp : Emu → (addr type : ℕ) → Bool × Emu
emu_set_bp e addr type =
    if not (type == bp_software) || e.bp_is_set
    then (false, e)
    else (true, record e { bp_is_set = true; bp_addr = addr })

unfoldable pub emu_del_bp : Emu → (addr type : ℕ) → Bool × Emu
emu_del_bp e addr type =
    if not (type == bp_software) || (not e.bp_is_set || not (e.bp_addr == addr))
    then (true, e)
    else (true, record e { bp_is_set = false; bp_addr = 0 })

abbrev pub emu_on_interrupt : Emu → Emu
emu_on_interrupt e = emu_halt e
