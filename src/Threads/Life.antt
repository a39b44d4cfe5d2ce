-- ===== src/Threads/Life.antt =====
-- Challenge2/threads.c: `pthread_create`, `pthread_exit` and `pthread_self`.
use operating_system_challen.Base.{
  ℕ, ◌+◌, ◌-◌, ◌^◌, Bool, false, not, Option, none, some, ◌==◌, leb, get_elem?, set, if◌then◌else◌,
  Outcome, done, deref, ◌>>=◌,
}
use operating_system_challen.Threads.Types.{
  exited, running, ready, Threads, Flow, jumps, ends, max_threads, set_status,
}
use operating_system_challen.Threads.Schedule.{schedule, scheduler_init, is_exited}

-- `-1` in 32 bits.
abbrev pub failed : ℕ
failed = 2 ^ 32 - 1

module _ {C : Type 0} where
  -- `start` is the `jmp_buf` that leads to `start_routine` with its argument. The result is what is
  -- returned, with what is written to `*thread`, if `malloc` has memory for the stack.
  unfoldable pub pthread_create :
      (start : C) (has_memory : Bool) → Threads C → Outcome (ℕ × Option ℕ × Threads C)
  unfolding scheduler_init
  pthread_create start has_memory s =
      let n = s.num_of_threads + 1 in
      let s1 = record s { num_of_threads = n } in
      if leb max_threads s.num_of_threads
      then done (failed, none, s1)
      else if not has_memory
      then done (failed, some n, s1)
      else (deref (get_elem? s1.tcb_list n) >>= λ t.
          let s2 = record s1 {
            tcb_list =
                set s1.tcb_list n
                  (record { thread_id = n; buf = start; buf_return_val = n; status = ready });
          } in
          if s.is_first_call
          then (scheduler_init (record s2 { is_first_call = false }) >>= λ s3. done (0, some n, s3))
          else done (0, some n, s2))

  unfoldable pub pthread_exit : C → Threads C → Outcome (Flow C × Threads C)
  unfolding schedule
  pthread_exit now s = set_status s.current exited s.tcb_list >>= λ ts.
      let gone = if s.current == 0 then s.exited_threads else s.exited_threads + 1 in
      let s1 = record s { tcb_list = ts; exited_threads = gone } in
      if not (gone == s.num_of_threads)
      then schedule now s1
      else (deref (get_elem? ts 0) >>= λ main.
          if is_exited main.status
          then done (ends, s1)
          else done (
            jumps main.buf main.buf_return_val,
            record s1 { current = 0; tcb_list = set ts 0 (record main { status = running }) },
          ))

  unfoldable pub pthread_self : Threads C → ℕ
  pthread_self s = s.current
