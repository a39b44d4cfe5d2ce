-- ===== src/Threads/Locks.antt =====
-- Challenge2/threads.c: who gets a mutex.
use operating_system_challen.Base.{
  ℕ, ◌+◌, ◌%◌, ◌^◌, ◌<◌, ◌≡◌, refl, sym, ap, ◌∙◌, ◌≢◌, some, List, [], ◌∷◌, ◌++◌, get_elem?, set,
  length, get_elem?-set_self, get_elem?-set_ne, get_elem?-some, get_elem?-lt, done, deref, ◌>>=◌,
  bind-done,
}
use operating_system_challen.Threads.Types.{blocked, ready, Tcb, linked, Mutex, Threads, returns}
use operating_system_challen.Threads.Schedule.{schedule}
use operating_system_challen.Threads.Mutex.{
  pthread_mutex_init, pthread_mutex_lock, pthread_mutex_unlock, no_owner,
}

module _ {C : Type 0} where
  -- The threads that wait for the mutex, in order.
  pub record IsWaiting (m : Mutex) (s : Threads C) (ids : List ℕ) : Type 0 where
    pub queue : get_elem? s.mutex_lists m.count ≡ some (linked ids)

  -- `pthread_mutex_lock` of a mutex that is claimed blocks its caller and puts it behind the
  -- threads that wait for the mutex, and `schedule` gives the turn away. Until then the mutex
  -- and the entries of the other threads stay as they were.
  pub pthread_mutex_lock-claimed :
      (now : C) (m : Mutex) (s : Threads C) (ids : List ℕ) (t : Tcb C)
      → m.lock ≡ 0
      → IsWaiting m s ids
      → get_elem? s.tcb_list s.current ≡ some t
      → (s1 : Threads C) × (pthread_mutex_lock now m s
          ≡ (schedule now s1 >>= λ (flow, s'). done (flow, m, s')))
        × IsWaiting m s1 (ids ++ s.current ∷ [])
        × (get_elem? s1.tcb_list s.current ≡ some (record t { status = blocked }))
        × ((i : ℕ) → i ≢ s.current → get_elem? s1.tcb_list i ≡ get_elem? s.tcb_list i)
  unfolding pthread_mutex_lock
  pthread_mutex_lock-claimed now m s ids t locked waiting at =
      let in_lists = get_elem?-lt s.mutex_lists m.count (linked ids) waiting.queue in
      let in_table = get_elem?-lt s.tcb_list s.current t at in
      (
        record s {
          tcb_list = set s.tcb_list s.current (record t { status = blocked });
          mutex_lists = set s.mutex_lists m.count (linked (ids ++ s.current ∷ []));
        },
        rw locked (bind-done _ (bind-done _ (ap deref at)) ∙ bind-done _ (ap deref waiting.queue)),
        record {
          queue =
              get_elem?-set_self s.mutex_lists m.count (linked (ids ++ s.current ∷ [])) in_lists;
        },
        get_elem?-set_self s.tcb_list s.current (record t { status = blocked }) in_table,
        λ i ne.
            get_elem?-set_ne s.tcb_list s.current i (record t { status = blocked })
              (λ e. ne (sym e)),
      )

  -- `pthread_mutex_unlock` hands a mutex that threads wait for to the first of them: that thread
  -- is ready again, the others stay in their order, the mutex stays claimed, and no other entry of
  -- the table changes.
  pub pthread_mutex_unlock-hands_over :
      (m : Mutex) (s : Threads C) (id : ℕ) (ids : List ℕ) (t : Tcb C)
      → IsWaiting m s (id ∷ ids)
      → get_elem? s.tcb_list id ≡ some t
      → (s' : Threads C) × (pthread_mutex_unlock m s ≡ done (0, m, s'))
        × IsWaiting m s' ids
        × (get_elem? s'.tcb_list id ≡ some (record t { status = ready }))
        × ((i : ℕ) → i ≢ id → get_elem? s'.tcb_list i ≡ get_elem? s.tcb_list i)
  unfolding pthread_mutex_unlock
  pthread_mutex_unlock-hands_over m s id ids t waiting at =
      let in_lists = get_elem?-lt s.mutex_lists m.count (linked (id ∷ ids)) waiting.queue in
      let in_table = get_elem?-lt s.tcb_list id t at in
      (
        record s {
          tcb_list = set s.tcb_list id (record t { status = ready });
          mutex_lists = set s.mutex_lists m.count (linked ids);
        },
        bind-done _ (ap deref waiting.queue) ∙ bind-done _ (bind-done _ (ap deref at)),
        record { queue = get_elem?-set_self s.mutex_lists m.count (linked ids) in_lists },
        get_elem?-set_self s.tcb_list id (record t { status = ready }) in_table,
        λ i ne. get_elem?-set_ne s.tcb_list id i (record t { status = ready }) (λ e. ne (sym e)),
      )

  -- If there is room for one more mutex, it is initialised, locked and unlocked once. Then it has
  -- no owner, but the next `pthread_mutex_lock` blocks its caller, which is the first in the
  -- queue.
  pub pthread_mutex_init-once :
      (m0 : Mutex) (s : Threads C) (t : Tcb C) (now : C)
      → s.mutex_id < length s.mutex_lists
      → get_elem? s.tcb_list s.current ≡ some t
      → (m m1 m2 : Mutex) × (s1 s2 : Threads C) × (pthread_mutex_init m0 s ≡ done (0, m, s1))
        × (pthread_mutex_lock now m s1 ≡ done (returns 0, m1, s1))
        × (pthread_mutex_unlock m1 s1 ≡ done (0, m2, s1))
        × (m2.owner ≡ no_owner)
        × (pthread_mutex_lock now m2 s1 ≡ (schedule now s2 >>= λ (flow, s'). done (flow, m2, s')))
        × IsWaiting m2 s2 (s.current ∷ [])
        × (get_elem? s2.tcb_list s.current ≡ some (record t { status = blocked }))
  unfolding pthread_mutex_init pthread_mutex_lock pthread_mutex_unlock
  pthread_mutex_init-once m0 s t now free at =
      let (old, old_at) = get_elem?-some s.mutex_lists s.mutex_id free in
      let s1 = record s {
        mutex_lists = set s.mutex_lists s.mutex_id (linked []);
        mutex_id = s.mutex_id + 1;
      } in
      let m2 : Mutex = record { count = s.mutex_id; lock = 0; owner = no_owner } in
      let empty = get_elem?-set_self s.mutex_lists s.mutex_id (linked []) free in
      let waiting : IsWaiting m2 s1 [] = record { queue = empty } in
      let (s2, run, queue, stopped, _) =
        pthread_mutex_lock-claimed now m2 s1 [] t refl waiting at in
      (
        record m0 { count = s.mutex_id; lock = 1 },
        record { count = s.mutex_id; lock = 0; owner = s.current % 2 ^ 32 },
        m2,
        s1,
        s2,
        bind-done _ (ap deref old_at),
        refl,
        bind-done _ (ap deref empty),
        refl,
        run,
        queue,
        stopped,
      )
