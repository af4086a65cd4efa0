-- ===== src/Stub/Replies/Registers.antt =====
-- Each register handler that returns has sent one framed reply.
use mini_gdbstub.Base.{ℕ, zero, suc, Option, none, some, List, ◌+◌}
use mini_gdbstub.Base.Int.{ℤ}
use mini_gdbstub.Stub.Types.{Env}
use mini_gdbstub.Stub.Ends.{
  IsQuiet, Answers, pure-IsQuiet, put-IsQuiet, put_target-IsQuiet, lift-IsQuiet, asserted-IsQuiet,
  non_null-IsQuiet, bind-IsQuiet, then-IsQuiet, get-IsQuiet, if-IsQuiet, reply-Answers,
  bind-Answers, then-Answers, get-Answers, if-Answers,
}
use mini_gdbstub.Stub.Registers.{
  Saved, unreadable, saved, reg_block, read_value, read_loop, process_reg_read,
  process_reg_read_one, save_loop, commit_loop, rollback_loop, finish_commit, commit_saved,
  write_all, process_reg_write, process_reg_write_one,
}

module _ {T : Type 0} (env : Env T) (l : List (List ℕ)) where
  reg_block-IsQuiet : (n : ℕ) → IsQuiet l (reg_block env n)
  unfolding reg_block
  reg_block-IsQuiet n = get-IsQuiet l _ λ s e.
      bind-IsQuiet l _ _ (non_null-IsQuiet l _)
        λ r. then-IsQuiet l _ _ (put-IsQuiet l _ e) (non_null-IsQuiet l _)

  read_value-IsQuiet : (read : T → ℕ → ℤ × List ℕ × T) (i : ℕ) → IsQuiet l (read_value env read i)
  unfolding read_value
  read_value-IsQuiet read i = bind-IsQuiet l _ _ (reg_block-IsQuiet _) λ block.
      get-IsQuiet l _ λ s e.
        bind-IsQuiet l _ _ (lift-IsQuiet l _)
          λ v. then-IsQuiet l _ _ (put-IsQuiet l _ e) (pure-IsQuiet l _)

  read_loop-IsQuiet :
      (read : T → ℕ → ℤ × List ℕ × T) (left i : ℕ) (packet : List ℕ)
      → IsQuiet l (read_loop env read left i packet)
  unfolding read_loop
  read_loop-IsQuiet read zero i packet = pure-IsQuiet l packet
  read_loop-IsQuiet read (suc left) i packet = bind-IsQuiet l _ _ (read_value-IsQuiet read i) λ v.
      if-IsQuiet l _ _ _ (bind-IsQuiet l _ _ (lift-IsQuiet l _) (read_loop-IsQuiet read left _))
        (lift-IsQuiet l _)

  pub process_reg_read-Answers :
      (read : T → ℕ → ℤ × List ℕ × T) → Answers l (process_reg_read env read)
  unfolding process_reg_read
  process_reg_read-Answers read =
      bind-Answers l _ _ (read_loop-IsQuiet read env.reg_num 0 env.stack)
        λ packet. bind-Answers l _ _ (lift-IsQuiet l _) (reply-Answers l)

  pub process_reg_read_one-Answers :
      (read : T → ℕ → ℤ × List ℕ × T) (payload : List ℕ)
      → Answers l (process_reg_read_one env read payload)
  unfolding process_reg_read_one
  process_reg_read_one-Answers read payload = bind-Answers l _ _ (asserted-IsQuiet l _) λ r.
      bind-Answers l _ _ (read_value-IsQuiet read r.0) λ v.
        bind-Answers l _ _ (lift-IsQuiet l _)
          λ p. bind-Answers l _ _ (lift-IsQuiet l _) (reply-Answers l)

  save_loop-IsQuiet :
      (left i po so : ℕ) (payload new backup : List ℕ)
      → IsQuiet l (save_loop env left i po so payload new backup)
  unfolding save_loop
  save_loop-IsQuiet zero i po so payload new backup = pure-IsQuiet l _
  save_loop-IsQuiet (suc left) i po so payload new backup =
      bind-IsQuiet l _ _ (non_null-IsQuiet l _) λ chunk.
        bind-IsQuiet l _ _ (lift-IsQuiet l _) λ new'.
          bind-IsQuiet l _ _ (non_null-IsQuiet l _) λ read. get-IsQuiet l _ λ s e.
            bind-IsQuiet l _ _ (lift-IsQuiet l _) λ backup'.
              then-IsQuiet l _ _ (put_target-IsQuiet l _) (
                if-IsQuiet l _ _ _ (save_loop-IsQuiet left (i + 1) _ _ payload new' backup')
                  (pure-IsQuiet l _))

  commit_loop-IsQuiet :
      (write : T → ℕ → List ℕ → ℤ × T) (left i so : ℕ) (new : List ℕ)
      → IsQuiet l (commit_loop env write left i so new)
  unfolding commit_loop
  commit_loop-IsQuiet write zero i so new = pure-IsQuiet l _
  commit_loop-IsQuiet write (suc left) i so new = get-IsQuiet l _ λ s e.
      then-IsQuiet l _ _ (put_target-IsQuiet l _)
        (if-IsQuiet l _ _ _ (commit_loop-IsQuiet write left (i + 1) _ new) (pure-IsQuiet l _))

  rollback_loop-IsQuiet :
      (write : T → ℕ → List ℕ → ℤ × T) (left i so : ℕ) (backup : List ℕ)
      → IsQuiet l (rollback_loop env write left i so backup)
  unfolding rollback_loop
  rollback_loop-IsQuiet write zero i so backup = pure-IsQuiet l _
  rollback_loop-IsQuiet write (suc left) i so backup = get-IsQuiet l _ λ s e.
      then-IsQuiet l _ _ (put_target-IsQuiet l _)
        (rollback_loop-IsQuiet write left (i + 1) _ backup)

  finish_commit-Answers :
      (write : T → ℕ → List ℕ → ℤ × T) (backup : List ℕ) (failed : Option (ℕ × ℤ))
      → Answers l (finish_commit env write backup failed)
  unfolding finish_commit
  finish_commit-Answers write backup none = reply-Answers l _
  finish_commit-Answers write backup (some (regno, ret)) =
      then-Answers l _ _ (rollback_loop-IsQuiet write regno 0 0 backup) (reply-Answers l _)

  commit_saved-Answers :
      (write : T → ℕ → List ℕ → ℤ × T) (o : Saved) → Answers l (commit_saved env write o)
  unfolding commit_saved
  commit_saved-Answers write (unreadable ret) = reply-Answers l _
  commit_saved-Answers write (saved new backup) =
      bind-Answers l _ _ (commit_loop-IsQuiet write env.reg_num 0 0 new)
        (finish_commit-Answers write backup)

  write_all-Answers :
      (write : T → ℕ → List ℕ → ℤ × T) (payload : List ℕ) (o : Option (List ℕ))
      → Answers l (write_all env write payload o)
  unfolding write_all
  write_all-Answers write payload none = reply-Answers l _
  write_all-Answers write payload (some block) =
      bind-Answers l _ _ (save_loop-IsQuiet env.reg_num 0 0 0 payload block block)
        (commit_saved-Answers write)

  pub process_reg_write-Answers :
      (write : T → ℕ → List ℕ → ℤ × T) (payload : List ℕ)
      → Answers l (process_reg_write env write payload)
  unfolding process_reg_write
  process_reg_write-Answers write payload = get-Answers l _ λ s e.
      if-Answers l _ _ _ (reply-Answers l _)
        (if-Answers l _ _ _ (reply-Answers l _) (write_all-Answers write payload _))

  pub process_reg_write_one-Answers :
      (write : T → ℕ → List ℕ → ℤ × T) (payload : List ℕ)
      → Answers l (process_reg_write_one env write payload)
  unfolding process_reg_write_one
  process_reg_write_one-Answers write payload = bind-Answers l _ _ (asserted-IsQuiet l _) λ r.
      bind-Answers l _ _ (reg_block-IsQuiet _) λ block.
        bind-Answers l _ _ (non_null-IsQuiet l _) λ text. then-Answers l _ _ (lift-IsQuiet l _) (
          bind-Answers l _ _ (non_null-IsQuiet l _) λ value.
            bind-Answers l _ _ (lift-IsQuiet l _) λ block'. get-Answers l _ λ s e.
              then-Answers l _ _ (put-IsQuiet l _ e)
                (if-Answers l _ _ _ (reply-Answers l _) (reply-Answers l _)))
