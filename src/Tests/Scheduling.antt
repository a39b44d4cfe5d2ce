-- ===== src/Tests/Scheduling.antt =====
-- Three threads with a mutex and two barriers, and the calls of threads.c on them.
use operating_system_challen.Base.{
  ℕ, zero, suc, ◌≤◌, ◌<◌, ◌≡◌, refl, ◌≢◌, true, false, some, [], ◌∷◌, ◌&&◌, arith, ◌==◌,
  if◌then◌else◌, get_elem?, length, replicate, done, ◌>>=◌,
}
use operating_system_challen.Threads.Types.{
  exited, running, ready, blocked, Tcb, linked, Counts, Mutex, Threads, jumps, returns,
}
use operating_system_challen.Threads.Schedule.{next_thread, schedule}
use operating_system_challen.Threads.Mutex.{
  pthread_mutex_init, pthread_mutex_lock, pthread_mutex_unlock, no_owner,
}
use operating_system_challen.Threads.Barrier.{pthread_barrier_wait, barrier_leave, serial_thread}
use operating_system_challen.Threads.Life.{pthread_create, pthread_exit}
use operating_system_challen.Threads.Exiting.{pthread_exit-main_again}
use operating_system_challen.Threads.Circle.{CanRun, distance, next_thread-finds}
use operating_system_challen.Threads.Turns.{IsTurn, schedule-IsTurn}
use operating_system_challen.Threads.Locks.{
  IsWaiting, pthread_mutex_lock-claimed, pthread_mutex_unlock-hands_over, pthread_mutex_init-once,
}
use operating_system_challen.Threads.Waiting.{
  IsAwake, IsBarrier, pthread_barrier_wait-early, pthread_barrier_wait-last,
}
use operating_system_challen.Threads.Starting.{pthread_create-starts}

-- A context is a number.
abbrev main_thread : Tcb ℕ
main_thread = record { thread_id = 0; buf = 100; buf_return_val = 131914; status = ready }

abbrev first_thread : Tcb ℕ
first_thread = record { thread_id = 1; buf = 101; buf_return_val = 1; status = running }

abbrev second_thread : Tcb ℕ
second_thread = record { thread_id = 2; buf = 102; buf_return_val = 2; status = blocked }

abbrev no_thread : Tcb ℕ
no_thread = record { thread_id = 0; buf = 0; buf_return_val = 0; status = exited }

abbrev no_counts : Counts
no_counts = record { max_count = 0; current_count = 0; print_serial_thread = false }

abbrev three_threads : Threads ℕ
three_threads = record {
  current = 1;
  num_of_threads = 2;
  tcb_list = main_thread ∷ first_thread ∷ second_thread ∷ replicate 125 no_thread;
  mutex_lists = linked (2 ∷ []) ∷ replicate 127 (linked []);
  barrier_lists = linked (2 ∷ []) ∷ linked [] ∷ replicate 126 (linked []);
  barrier_counts =
      record { max_count = 2; current_count = 1; print_serial_thread = true }
      ∷ record { max_count = 3; current_count = 0; print_serial_thread = true }
      ∷ replicate 126 no_counts;
  top_thread = 1;
  mutex_id = 1;
  barrier_id = 2;
  is_first_call = false;
  exited_threads = 0;
}

abbrev one_left : Threads ℕ
one_left = record three_threads { num_of_threads = 1 }

abbrev claimed : Mutex
claimed = record { count = 0; lock = 0; owner = 0 }

main-CanRun : CanRun 2 three_threads.tcb_list 0 main_thread
main-CanRun = record { inside = omega arith; found = refl; goes = refl }

next_thread-finds_example :
    (v : ℕ) × (t' : Tcb ℕ) × (next_thread 3 2 1 three_threads.tcb_list ≡ done (some v))
    × CanRun 2 three_threads.tcb_list v t'
    × ((w : ℕ) (x : Tcb ℕ) → CanRun 2 three_threads.tcb_list w x → distance 2 1 v ≤ distance 2 1 w)
next_thread-finds_example =
    next_thread-finds 3 2 1 0 main_thread three_threads.tcb_list (omega arith) (omega arith)
      main-CanRun (omega arith)

schedule-IsTurn_example :
    (v : ℕ) × (w : Tcb ℕ) × (s' : Threads ℕ) × (schedule 7 three_threads
      ≡ done (jumps (if v == 1 then 7 else w.buf) w.buf_return_val, s'))
    × CanRun 2 three_threads.tcb_list v w
    × ((i : ℕ) (x : Tcb ℕ) → CanRun 2 three_threads.tcb_list i x → distance 2 1 v ≤ distance 2 1 i)
    × IsTurn 7 three_threads s' v
schedule-IsTurn_example =
    schedule-IsTurn 7 three_threads 0 main_thread (omega arith) (omega arith) main-CanRun

pthread_mutex_lock-claimed_example :
    (s1 : Threads ℕ) × (pthread_mutex_lock 7 claimed three_threads
      ≡ (schedule 7 s1 >>= λ (flow, s'). done (flow, claimed, s')))
    × IsWaiting claimed s1 (2 ∷ 1 ∷ [])
    × (get_elem? s1.tcb_list 1 ≡ some (record first_thread { status = blocked }))
    × ((i : ℕ) → i ≢ 1 → get_elem? s1.tcb_list i ≡ get_elem? three_threads.tcb_list i)
pthread_mutex_lock-claimed_example =
    pthread_mutex_lock-claimed 7 claimed three_threads (2 ∷ []) first_thread refl
      (record { queue = refl }) refl

pthread_mutex_unlock-hands_over_example :
    (s' : Threads ℕ) × (pthread_mutex_unlock claimed three_threads ≡ done (0, claimed, s'))
    × IsWaiting claimed s' []
    × (get_elem? s'.tcb_list 2 ≡ some (record second_thread { status = ready }))
    × ((i : ℕ) → i ≢ 2 → get_elem? s'.tcb_list i ≡ get_elem? three_threads.tcb_list i)
pthread_mutex_unlock-hands_over_example =
    pthread_mutex_unlock-hands_over claimed three_threads 2 [] second_thread
      (record { queue = refl }) refl

pthread_mutex_init-once_example :
    (m m1 m2 : Mutex) × (s1 s2 : Threads ℕ) × (pthread_mutex_init claimed three_threads
      ≡ done (0, m, s1))
    × (pthread_mutex_lock 7 m s1 ≡ done (returns 0, m1, s1))
    × (pthread_mutex_unlock m1 s1 ≡ done (0, m2, s1))
    × (m2.owner ≡ no_owner)
    × (pthread_mutex_lock 7 m2 s1 ≡ (schedule 7 s2 >>= λ (flow, s'). done (flow, m2, s')))
    × IsWaiting m2 s2 (1 ∷ [])
    × (get_elem? s2.tcb_list 1 ≡ some (record first_thread { status = blocked }))
pthread_mutex_init-once_example =
    pthread_mutex_init-once claimed three_threads first_thread 7 (omega arith) refl

only_second : (k id : ℕ) → get_elem? (2 ∷ []) k ≡ some id → id < length three_threads.tcb_list
only_second zero id at = ground (arith, at)
only_second (suc k) id at = absurd (ground (arith, at))

pthread_barrier_wait-early_example :
    (s1 : Threads ℕ) × (pthread_barrier_wait 7 1 three_threads ≡ schedule 7 s1)
    × IsBarrier 1 s1
        (1 ∷ [])
        (record { max_count = 3; current_count = 1; print_serial_thread = true })
    × (get_elem? s1.tcb_list 1 ≡ some (record first_thread { status = blocked }))
    × ((i : ℕ) → i ≢ 1 → get_elem? s1.tcb_list i ≡ get_elem? three_threads.tcb_list i)
pthread_barrier_wait-early_example =
    pthread_barrier_wait-early 7 1 three_threads []
      (record { max_count = 3; current_count = 0; print_serial_thread = true }) first_thread
      (record { queue = refl; counts = refl; entries = λ k id at. absurd (ground (arith, at)) })
      refl (omega arith) (omega arith)

pthread_barrier_wait-last_example :
    (s' : Threads ℕ) × (pthread_barrier_wait 7 0 three_threads ≡ done (returns serial_thread, s'))
    × IsAwake (2 ∷ []) three_threads.tcb_list s'.tcb_list
    × IsBarrier 0 s'
        (2 ∷ [])
        (record { max_count = 2; current_count = 0; print_serial_thread = false })
    × (barrier_leave 0 s' ≡ done (returns 0, s'))
pthread_barrier_wait-last_example =
    pthread_barrier_wait-last 7 0 three_threads (2 ∷ [])
      (record { max_count = 2; current_count = 1; print_serial_thread = true })
      (record { queue = refl; counts = refl; entries = only_second }) (omega arith) refl

pthread_create-starts_example :
    (s' : Threads ℕ) × (pthread_create 103 true three_threads ≡ done (0, some 3, s'))
    × (s'.num_of_threads ≡ 3)
    × (s'.is_first_call ≡ false)
    × ((i : ℕ) (t : Tcb ℕ)
        → get_elem? three_threads.tcb_list i ≡ some t
        → get_elem? s'.tcb_list i
          ≡ some (
              if i == 3
              then record { thread_id = i; buf = 103; buf_return_val = i; status = ready }
              else if (i == 0) && false
              then record t { thread_id = 0; buf_return_val = 131914; status = ready }
              else t))
pthread_create-starts_example = pthread_create-starts 103 three_threads refl (omega arith)

pthread_exit-main_again_example :
    (s1 : Threads ℕ) × (pthread_exit 7 one_left ≡ done (jumps 100 131914, s1))
    × (s1.current ≡ 0)
    × ((later : ℕ)
        → (s2 : Threads ℕ) × (schedule later s1 ≡ done (jumps 100 131914, s2)) × (s2.current ≡ 0))
pthread_exit-main_again_example =
    pthread_exit-main_again 7 one_left first_thread main_thread refl refl refl
      (λ e. omega (arith, e)) refl (omega arith) (omega arith) refl
      (λ i x not_main not_first inside at. absurd (ground arith))
