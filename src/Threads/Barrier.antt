-- ===== src/Threads/Barrier.antt =====
-- Challenge2/threads.c: the calls on barriers. A barrier is its index, the field `__align`.
use operating_system_challen.Base.{
  ℕ, ◌+◌, ◌-◌, ◌%◌, ◌^◌, true, false, List, [], ◌∷◌, ◌==◌, get_elem?, set, if◌then◌else◌, Outcome,
  done, fault, deref, ◌>>=◌,
}
use operating_system_challen.Threads.Types.{
  blocked, ready, Tcb, linked, dangling, Threads, Flow, returns, set_status, append_thread,
  free_threads,
}
use operating_system_challen.Threads.Schedule.{schedule}

-- `PTHREAD_BARRIER_SERIAL_THREAD`, -1 in 32 bits.
abbrev pub serial_thread : ℕ
serial_thread = 2 ^ 32 - 1

-- `EINVAL`
abbrev pub invalid : ℕ
invalid = 22

module _ {C : Type 0} where
  -- The loop that sets the threads of the list back to ready.
  unfoldable pub wake_all : List ℕ → List (Tcb C) → Outcome (List (Tcb C))
  wake_all [] ts = done ts
  wake_all (id ∷ ids) ts = set_status id ready ts >>= λ ts'. wake_all ids ts'

  unfoldable pub pthread_barrier_init :
      (barrier count : ℕ) → Threads C → Outcome (ℕ × ℕ × Threads C)
  pthread_barrier_init barrier count s =
      if count == 0
      then done (invalid, barrier, s)
      else deref (get_elem? s.barrier_counts s.barrier_id) >>= λ old.
          deref (get_elem? s.barrier_lists s.barrier_id) >>= λ old'. done (
            0,
            s.barrier_id,
            record s {
              barrier_counts =
                  set s.barrier_counts s.barrier_id
                    (record { max_count = count; current_count = 0; print_serial_thread = true });
              barrier_lists = set s.barrier_lists s.barrier_id (linked []);
              barrier_id = s.barrier_id + 1;
            },
          )

  unfoldable pub pthread_barrier_destroy : (barrier : ℕ) → Threads C → Outcome (ℕ × Threads C)
  pthread_barrier_destroy barrier s = deref (get_elem? s.barrier_lists barrier) >>= λ w.
      free_threads w >>= λ w'. done (0, record s { barrier_lists = set s.barrier_lists barrier w' })

  -- The end of `pthread_barrier_wait`. A thread that was blocked goes on here.
  unfoldable pub barrier_leave : (barrier : ℕ) → Threads C → Outcome (Flow C × Threads C)
  barrier_leave barrier s = deref (get_elem? s.barrier_counts barrier) >>= λ c.
      if c.print_serial_thread
      then done (
        returns serial_thread,
        record s {
          barrier_counts = set s.barrier_counts barrier (record c { print_serial_thread = false });
        },
      )
      else done (returns 0, s)

  -- `now` goes on with `barrier_leave`.
  unfoldable pub pthread_barrier_wait : C → (barrier : ℕ) → Threads C → Outcome (Flow C × Threads C)
  unfolding schedule wake_all barrier_leave
  pthread_barrier_wait now barrier s = deref (get_elem? s.barrier_lists barrier) >>= λ w.
      deref (get_elem? s.barrier_counts barrier) >>= λ c.
      let arrived = (c.current_count + 1) % 2 ^ 32 in
      let c1 = record c { current_count = arrived; print_serial_thread = true } in
      elim (c.max_count == arrived) [
        | false ↦ set_status s.current blocked s.tcb_list >>= λ ts.
            append_thread s.current w >>= λ w'. schedule now (record s {
              tcb_list = ts;
              barrier_lists = set s.barrier_lists barrier w';
              barrier_counts = set s.barrier_counts barrier c1;
            })
        | true ↦ elim w [
          | dangling ↦ fault
          | linked ids ↦ wake_all ids s.tcb_list >>= λ ts. barrier_leave barrier (record s {
            tcb_list = ts;
            barrier_counts = set s.barrier_counts barrier (record c1 { current_count = 0 });
          })
        ]
      ]
