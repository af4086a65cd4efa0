-- ===== src/Stub/BankTests.antt =====
-- `G`, `p` and `P` packets on two registers of one byte that hold numbers below eight.
use mathlib.Core.Option
use mini_gdbstub.Base.{
  ℕ, ◌≡◌, refl, true, false, ◌&&◌, Option, none, some, List, [], ◌∷◌, arith, ltb, ◌==◌,
  if◌then◌else◌, replicate, Result, ok, abort, fault, length, codes, ap, sym, IsByte, ◌++◌,
  length-replicate,
}
use mini_gdbstub.Base.Int.{ℤ, pos}
use mini_gdbstub.Base.Format.{show_int, scan_x}
use mini_gdbstub.Translate.{str_to_hex, hexchar, hex_digits}
use mini_gdbstub.Csum.{compute_checksum}
use mini_gdbstub.Stub.Monad.{
  ◌>>=◌, get, test◌then◌else◌, non_null, lift, store_at, ◌>>◌, put_target, pure, reply, error_text,
  split_at, put, asserted,
}
use mini_gdbstub.Stub.Types.{Env, Stub}
use mini_gdbstub.Stub.Registers.{
  is_zero, process_reg_write, process_reg_read_one, process_reg_write_one,
}
use mini_gdbstub.Stub.Saving.{IsReader}
use mini_gdbstub.Conn.{packet_text}
use mini_gdbstub.Regbuf.{Regbuf, regbuf_get}
use mini_gdbstub.Stub.RegRead.{HasMemory, process_reg_read_one-sends}
use mini_gdbstub.Stub.RegWriteOne.{WritesOne, process_reg_write_one-WritesOne}
use mini_gdbstub.Stub.Atomic.{IsRegisterFile}
use mini_gdbstub.Regbuf.Growth

abbrev pub Bank : Type 0
Bank = ℕ → ℕ

abbrev pub small : ℕ → ℕ
small x = if ltb x 8 then x else 7

abbrev pub value : Bank → ℕ → List ℕ
value t i = small (t i) ∷ []

-- A value that is too large is refused with an error.
abbrev pub write_reg : Bank → ℕ → List ℕ → ℤ × Bank
write_reg t i [] = (pos 22, t)
write_reg t i (x ∷ []) = if ltb x 8 then (pos 0, λ j. if j == i then x else t j) else (pos 22, t)
write_reg t i (x ∷ y ∷ v) = (pos 22, t)

write_reg-value :
    (t : Bank) (i j : ℕ) (v : List ℕ)
    → value (write_reg t i v).1 j ≡ (if is_zero (write_reg t i v).0 && j == i then v else value t j)
unfolding is_zero
write_reg-value t i j [] = refl
write_reg-value t i j (x ∷ []) = ground arith
write_reg-value t i j (x ∷ y ∷ v) = refl

small_fits : (x : ℕ) → ltb (small x) 8 ≡ true
small_fits x = ground arith

small-IsByte : (x : ℕ) → IsByte (small x)
small-IsByte x = ground arith

abbrev pub read_reg : Bank → ℕ → ℤ × List ℕ × Bank
read_reg t i = (pos 0, value t i, t)

-- Every value may be offered.
abbrev May : Bank → ℕ → List ℕ → Type 0
May t i v = Unit {0}

bank-IsRegisterFile : IsRegisterFile write_reg value May
unfolding is_zero
bank-IsRegisterFile = record {
  stays = λ t i j v w may may'. tt;
  writes = λ t i j v may. write_reg-value t i j v;
  restores = λ t held i may. rw (small_fits (held i)) refl;
}

abbrev pub env : Env Bank
env = record {
  ops = record {
    cont = none;
    stepi = none;
    get_reg_bytes = λ i. 1;
    read_reg = some read_reg;
    write_reg = some write_reg;
    read_mem = none;
    write_mem = none;
    set_bp = none;
    del_bp = none;
    on_interrupt = none;
    set_cpu = none;
    get_cpu = none;
  };
  target_desc = none;
  smp = 1;
  reg_num = 2;
  malloc = λ n. some (replicate n 0);
  stack = [];
}

abbrev stub : Stub Bank
stub = record {
  conn = record { no_ack_mode = false; failure_count = 0 };
  regbuf = record { buf = none; sz = 8 };
  async_io = false;
  total_reg_bytes = 2;
  target = λ i. i;
  sent = [];
}

-- The two registers and what was sent.
abbrev both : Result (Unit {0} × Stub Bank) → Option (ℕ × ℕ × List (List ℕ))
both (ok (u, s)) = some (s.target 0, s.target 1, s.sent)
both abort = none
both fault = none

-- Both values fit, and both are written.
accepted :
    both (process_reg_write env write_reg (codes "0305") stub) ≡ some (3, 5, codes "$OK#9a" ∷ [])
unfolding process_reg_write ◌>>=◌ get test◌then◌else◌ non_null str_to_hex lift store_at ◌>>◌
    put_target pure reply hexchar compute_checksum
accepted = refl

-- The second is refused, and the first is 0 again.
refused :
    both (process_reg_write env write_reg (codes "0309") stub) ≡ some (0, 1, codes "$E22#a9" ∷ [])
unfolding process_reg_write ◌>>=◌ get test◌then◌else◌ non_null str_to_hex lift store_at ◌>>◌
    put_target pure reply error_text show_int hexchar compute_checksum
refused = refl

-- The same target, with room on the stack for an answer and a scratch buffer.
abbrev roomy : Env Bank
roomy = record env { stack = replicate 4096 0 }

roomy-IsReader : IsReader roomy read_reg value
roomy-IsReader = record {
  there = refl;
  keeps = λ t i low. refl;
  fits = λ t i low. omega arith;
  gives = λ t i low h. refl;
  sizes = λ t i low. refl;
  bytes = λ t i low. (small-IsByte (t i), tt);
}

abbrev started : Stub Bank
started = record stub { regbuf = record { buf = some (replicate 8 0); sz = 8 } }

started-IsValid : Growth.IsValid started.regbuf
started-IsValid = record {
  min_size = omega arith;
  block = λ b h. ap (λ o. length (Option.get_or o b)) (sym h);
}

roomy-HasMemory : HasMemory roomy.malloc
roomy-HasMemory n = (replicate n 0, refl, length-replicate {A = ℕ} n 0)

register_1 : scan_x (codes "1") ≡ some (1, [])
unfolding scan_x
register_1 = refl

process_reg_read_one-sends_example :
    (r' : Regbuf) × (process_reg_read_one roomy read_reg (codes "1") started
      ≡ ok (
        tt,
        record started {
          regbuf = r';
          sent = [] ++ (packet_text (hex_digits (value started.target 1)) ∷ []);
        },
      ))
unfolding is_zero
process_reg_read_one-sends_example =
    process_reg_read_one-sends roomy read_reg value roomy-IsReader started 1 (omega arith) refl
      (codes "1") [] (replicate 8 0) register_1 roomy-HasMemory started-IsValid refl refl
      (omega arith)

named_1 : scan_x (split_at b'=' (codes "1=05")).0 ≡ some (1, [])
unfolding scan_x split_at
named_1 = refl

process_reg_write_one-WritesOne_example :
    WritesOne roomy value
      (codes "05")
      1
      started
      (process_reg_write_one roomy write_reg (codes "1=05") started)
unfolding split_at
process_reg_write_one-WritesOne_example =
    process_reg_write_one-WritesOne roomy write_reg value May bank-IsRegisterFile (codes "1=05") []
      (codes "05") (replicate 8 0) 1 started named_1 refl refl (λ v size small. tt) roomy-HasMemory
      started-IsValid refl (omega arith)

-- The value fits, and the register holds it.
accepted_one :
    both (process_reg_write_one roomy write_reg (codes "1=05") started)
    ≡ some (0, 5, codes "$OK#9a" ∷ [])
unfolding process_reg_write_one ◌>>=◌ get put test◌then◌else◌ non_null asserted str_to_hex lift
    store_at ◌>>◌ pure reply hexchar compute_checksum split_at scan_x regbuf_get
accepted_one = refl
