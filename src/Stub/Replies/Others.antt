-- ===== src/Stub/Replies/Others.antt =====
-- Each memory, query and control handler that returns has sent one framed reply.
use mini_gdbstub.Base.{ℕ, Bool, Option, none, some, List}
use mini_gdbstub.Base.Int.{ℤ}
use mini_gdbstub.Stub.Types.{Env}
use mini_gdbstub.Stub.Ends.{
  Answers, pure-IsQuiet, put-IsQuiet, put_target-IsQuiet, lift-IsQuiet, asserted-IsQuiet,
  non_null-IsQuiet, bind-IsQuiet, get-IsQuiet, if-IsQuiet, reply-Answers, bind-Answers,
  then-Answers, get-Answers, if-Answers,
}
use mini_gdbstub.Stub.Memory.{process_mem_read, process_mem_write, process_mem_xwrite}
use mini_gdbstub.Stub.Query.{
  xfer_read, process_xfer, process_thread_info, current_cpu, process_query, process_general_set,
}
use mini_gdbstub.Stub.Control.{
  process_set_break_points, process_del_break_points, process_set_cpu, process_vcont_support,
}

module _ {T : Type 0} (env : Env T) (l : List (List ℕ)) where
  pub process_mem_read-Answers :
      (read : T → (addr len : ℕ) → ℤ × List ℕ × T) (payload : List ℕ)
      → Answers l (process_mem_read env read payload)
  unfolding process_mem_read
  process_mem_read-Answers read payload = bind-Answers l _ _ (asserted-IsQuiet l _) λ range.
      get-Answers l _ λ s e. bind-Answers l _ _ (lift-IsQuiet l _) λ mval.
        then-Answers l _ _ (put_target-IsQuiet l _) (
          bind-Answers l _ _
            (if-IsQuiet l _ _ _
              (bind-IsQuiet l _ _ (non_null-IsQuiet l _)
                λ n. bind-IsQuiet l _ _ (lift-IsQuiet l _) λ v. lift-IsQuiet l _)
              (lift-IsQuiet l _))
            λ packet. bind-Answers l _ _ (lift-IsQuiet l _) (reply-Answers l))

  pub process_mem_write-Answers :
      (write : T → (addr len : ℕ) → List ℕ → ℤ × T) (raw : List ℕ)
      → Answers l (process_mem_write env write raw)
  unfolding process_mem_write
  process_mem_write-Answers write raw = bind-Answers l _ _ (asserted-IsQuiet l _) λ range.
      bind-Answers l _ _ (non_null-IsQuiet l _) λ content.
        bind-Answers l _ _ (non_null-IsQuiet l _) λ value.
          bind-Answers l _ _ (lift-IsQuiet l _) λ mval.
            bind-Answers l _ _ (lift-IsQuiet l _) λ bytes. get-Answers l _ λ s e.
              then-Answers l _ _ (put_target-IsQuiet l _)
                (if-Answers l _ _ _ (reply-Answers l _) (reply-Answers l _))

  pub process_mem_xwrite-Answers :
      (write : T → (addr len : ℕ) → List ℕ → ℤ × T) (n : ℕ) (raw : List ℕ)
      → Answers l (process_mem_xwrite env write n raw)
  unfolding process_mem_xwrite
  process_mem_xwrite-Answers write n raw = bind-Answers l _ _ (asserted-IsQuiet l _) λ range.
      bind-Answers l _ _ (non_null-IsQuiet l _) λ content. then-Answers l _ _ (lift-IsQuiet l _) (
        then-Answers l _ _ (lift-IsQuiet l _)
          (get-Answers l _ λ s e. then-Answers l _ _ (put_target-IsQuiet l _) (reply-Answers l _)))

  xfer_read-Answers : (desc args : List ℕ) → Answers l (xfer_read env desc args)
  unfolding xfer_read
  xfer_read-Answers desc args = bind-Answers l _ _ (non_null-IsQuiet l _) λ a.
      then-Answers l _ _ (lift-IsQuiet l _) (
        bind-Answers l _ _ (non_null-IsQuiet l _) λ b. then-Answers l _ _ (lift-IsQuiet l _) (
          bind-Answers l _ _ (non_null-IsQuiet l _)
            λ c. bind-Answers l _ _ (lift-IsQuiet l _) λ w. reply-Answers l w))

  process_xfer-Answers : (s : List ℕ) → Answers l (process_xfer env s)
  unfolding process_xfer
  process_xfer-Answers s =
      if-Answers l _ _ _
        (bind-Answers l _ _ (non_null-IsQuiet l _)
          λ desc. bind-Answers l _ _ (non_null-IsQuiet l _) (xfer_read-Answers desc))
        (reply-Answers l _)

  current_cpu-Answers : (o : Option (T → ℤ × T)) → Answers l (current_cpu env o)
  unfolding current_cpu
  current_cpu-Answers none = reply-Answers l _
  current_cpu-Answers (some f) =
      get-Answers l _ λ s e. then-Answers l _ _ (put_target-IsQuiet l _) (reply-Answers l _)

  process_thread_info-Answers : Answers l (process_thread_info env)
  unfolding process_thread_info
  process_thread_info-Answers =
      then-Answers l _ _ (lift-IsQuiet l _)
        (then-Answers l _ _ (lift-IsQuiet l _) (reply-Answers l _))

  pub process_query-Answers : (payload : List ℕ) → Answers l (process_query env payload)
  unfolding process_query
  process_query-Answers payload = if-Answers l _ _ _ (current_cpu-Answers _) (
      if-Answers l _ _ _ (reply-Answers l _) (
        if-Answers l _ _ _ (reply-Answers l _) (
          if-Answers l _ _ _ (bind-Answers l _ _ (non_null-IsQuiet l _) process_xfer-Answers) (
            if-Answers l _ _ _ (reply-Answers l _) (
              if-Answers l _ _ _ process_thread_info-Answers
                (if-Answers l _ _ _ (reply-Answers l _) (reply-Answers l _)))))))

  pub process_vcont_support-Answers : Answers l (process_vcont_support env)
  unfolding process_vcont_support
  process_vcont_support-Answers = reply-Answers l _

module _ {T : Type 0} (l : List (List ℕ)) where
  pub process_general_set-Answers :
      (payload : List ℕ) → Answers {T = T} l (process_general_set payload)
  unfolding process_general_set
  process_general_set-Answers payload =
      if-Answers l _ _ _
        (get-Answers l _ λ s e. then-Answers l _ _ (put-IsQuiet l _ e) (reply-Answers l _))
        (reply-Answers l _)

  pub process_set_break_points-Answers :
      (f : T → (addr type : ℕ) → Bool × T) (payload : List ℕ)
      → Answers l (process_set_break_points f payload)
  unfolding process_set_break_points
  process_set_break_points-Answers f payload = bind-Answers l _ _ (asserted-IsQuiet l _) λ r.
      get-Answers l _ λ s e.
        then-Answers l _ _ (put_target-IsQuiet l _)
          (if-Answers l _ _ _ (reply-Answers l _) (reply-Answers l _))

  pub process_del_break_points-Answers :
      (f : T → (addr type : ℕ) → Bool × T) (payload : List ℕ)
      → Answers l (process_del_break_points f payload)
  unfolding process_del_break_points
  process_del_break_points-Answers f payload = bind-Answers l _ _ (asserted-IsQuiet l _) λ r.
      get-Answers l _ λ s e.
        then-Answers l _ _ (put_target-IsQuiet l _)
          (if-Answers l _ _ _ (reply-Answers l _) (reply-Answers l _))

  pub process_set_cpu-Answers :
      (f : T → ℕ → T) (payload : List ℕ) → Answers l (process_set_cpu f payload)
  unfolding process_set_cpu
  process_set_cpu-Answers f payload =
      then-Answers l _ _
        (if-IsQuiet l _ _ _
          (bind-IsQuiet l _ _ (asserted-IsQuiet l _)
            λ r. get-IsQuiet l _ λ s e. put_target-IsQuiet l _)
          (pure-IsQuiet l _))
        (reply-Answers l _)
