-- ===== src/Stub/Setup/Tests.antt =====
-- Setting up and closing with calls that fail.
use mini_gdbstub.Base.{
  ℕ, ◌≡◌, refl, Bool, true, false, Option, none, some, [], codes, Result, ok, abort, fault,
}
use mini_gdbstub.Base.Format.{scan_d}
use mini_gdbstub.Stub.BankTests.{env}
use mini_gdbstub.Stub.Monad.{split_at}
use mini_gdbstub.Stub.Setup.{Held, Os, Ready, gdbstub_init, release}
use mini_gdbstub.Stub.Setup.Balance.{Balanced, gdbstub_init-Balanced}

-- Everything succeeds but what is given.
abbrev os : (listen cond_init : Bool) → Os
os listen cond_init = record {
  calloc = true;
  strdup = true;
  malloc = true;
  mutex_init = true;
  cond_init = cond_init;
  send_mutex_init = true;
  inet_aton = true;
  socket = true;
  setsockopt = true;
  bind = true;
  listen = listen;
  accept = true;
  pthread_create = true;
}

gdbstub_init-Balanced_example : Balanced env (os true true) [] (
    gdbstub_init
      (os true true)
      true
      env.ops.get_reg_bytes
      env.reg_num
      (some (codes "127.0.0.1:1234"))
      [])
gdbstub_init-Balanced_example =
    gdbstub_init-Balanced env (os true true) [] true (some (codes "127.0.0.1:1234"))

-- The total, and how many resources are held.
abbrev summary : Result (Option Ready × Held) → Option (Option (ℕ × ℕ) × Held)
summary (ok (some r, h)) = some (some (r.total_reg_bytes, r.port), h)
summary (ok (none, h)) = some (none, h)
summary abort = none
summary fault = none

no_listen :
    summary (gdbstub_init (os false true) true (λ i. 1) 2 (some (codes "127.0.0.1:1234")) [])
    ≡ some (none, [])
unfolding gdbstub_init split_at scan_d release
no_listen = refl

no_cond :
    summary (gdbstub_init (os true false) true (λ i. 1) 2 (some (codes "127.0.0.1:1234")) [])
    ≡ some (none, [])
unfolding gdbstub_init split_at scan_d release
no_cond = refl
