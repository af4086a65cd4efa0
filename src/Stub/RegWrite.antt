-- ===== src/Stub/RegWrite.antt =====
-- The whole `G` packet, from its text to its one reply.
use mini_gdbstub.Base.{
  ℕ, ◌*◌, ◌<◌, ◌≤◌, ◌≡◌, false, codes, [], ◌++◌, ◌≢◌, none, some, List, ◌∷◌, length, Result, ok,
}
use mini_gdbstub.Base.Int.{ℤ}
use mini_gdbstub.Stub.Types.{Env, Stub}
use mini_gdbstub.Stub.Monad.{error_text}
use mini_gdbstub.Conn.{packet_text}
use mini_gdbstub.Stub.Registers.{is_zero}
use mini_gdbstub.Stub.Saving.{parsed}

module _ {T : Type 0} (env : Env T) (value : T → ℕ → List ℕ) (payload : List ℕ) (s : Stub T) where
  -- The one reply, and what the registers hold then: every value of the packet with `OK`; the old
  -- ones with the error of a register, with `E12` for want of memory, and with `E22`, exactly where
  -- the text has not the right length.
  pub data WritesAll : Result (Unit {0} × Stub T) → Type 0 where
    written :
        (t' : T)
        → length payload ≡ s.total_reg_bytes * 2
        → ((j : ℕ) → j < env.reg_num → parsed env payload j ≡ some (value t' j))
        → ((j : ℕ) → env.reg_num ≤ j → value t' j ≡ value s.target j)
        → WritesAll
            (ok (tt, record s { target = t'; sent = s.sent ++ (packet_text (codes "OK") ∷ []) }))
    refused :
        (t' : T) (ret : ℤ)
        → is_zero ret ≡ false
        → length payload ≡ s.total_reg_bytes * 2
        → ((j : ℕ) → value t' j ≡ value s.target j)
        → WritesAll (
            ok (tt, record s { target = t'; sent = s.sent ++ (packet_text (error_text ret) ∷ []) }))
    no_memory :
        length payload ≡ s.total_reg_bytes * 2
        → env.malloc s.total_reg_bytes ≡ none
        → WritesAll (ok (tt, record s { sent = s.sent ++ (packet_text (codes "E12") ∷ []) }))
    wrong_length :
        length payload ≢ s.total_reg_bytes * 2
        → WritesAll (ok (tt, record s { sent = s.sent ++ (packet_text (codes "E22") ∷ []) }))
