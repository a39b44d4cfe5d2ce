-- ===== src/Threads/Mutex.antt =====
-- Challenge2/threads.c: the calls on mutexes. Between `lock()` and `unlock()` no signal comes.
use operating_system_challen.Base.{
  ℕ, ◌+◌, ◌%◌, ◌^◌, true, false, [], ◌∷◌, ◌==◌, get_elem?, set, Outcome, done, fault, deref, ◌>>=◌,
}
use operating_system_challen.Threads.Types.{
  blocked, ready, linked, dangling, Mutex, Threads, Flow, returns, set_status, append_thread,
  free_threads,
}
use operating_system_challen.Threads.Schedule.{schedule}

-- The owner of a mutex that nobody has.
abbrev pub no_owner : ℕ
no_owner = 149311

module _ {C : Type 0} where
  unfoldable pub pthread_mutex_init : Mutex → Threads C → Outcome (ℕ × Mutex × Threads C)
  pthread_mutex_init m s = deref (get_elem? s.mutex_lists s.mutex_id) >>= λ old. done (
    0,
    record m { count = s.mutex_id; lock = 1 },
    record s { mutex_lists = set s.mutex_lists s.mutex_id (linked []); mutex_id = s.mutex_id + 1 },
  )

  unfoldable pub pthread_mutex_destroy : Mutex → Threads C → Outcome (ℕ × Threads C)
  pthread_mutex_destroy m s = deref (get_elem? s.mutex_lists m.count) >>= λ w.
      free_threads w >>= λ w'. done (0, record s { mutex_lists = set s.mutex_lists m.count w' })

  unfoldable pub pthread_mutex_lock : C → Mutex → Threads C → Outcome (Flow C × Mutex × Threads C)
  unfolding schedule
  pthread_mutex_lock now m s = elim (m.lock == 0) [
    | false ↦ done (returns 0, record m { lock = 0; owner = s.current % 2 ^ 32 }, s)
    | true ↦ set_status s.current blocked s.tcb_list >>= λ ts.
        deref (get_elem? s.mutex_lists m.count) >>= λ w. append_thread s.current w >>= λ w'.
        schedule now (record s { tcb_list = ts; mutex_lists = set s.mutex_lists m.count w' })
        >>= λ (flow, s'). done (flow, m, s')
  ]

  unfoldable pub pthread_mutex_unlock : Mutex → Threads C → Outcome (ℕ × Mutex × Threads C)
  pthread_mutex_unlock m s = deref (get_elem? s.mutex_lists m.count) >>= λ w. elim w [
    | dangling ↦ fault
    | linked ids ↦ elim ids [
      | [] ↦ done (0, record m { lock = 0; owner = no_owner }, s)
      | id ∷ rest ↦ set_status id ready s.tcb_list >>= λ ts.
          done (
            0,
            m,
            record s { tcb_list = ts; mutex_lists = set s.mutex_lists m.count (linked rest) },
          )
    ]
  ]
