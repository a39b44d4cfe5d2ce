-- ===== src/Threads/Waiting.antt =====
-- Challenge2/threads.c: what the last thread at a barrier sets free.
use operating_system_challen.Base.{
  ℕ, suc, ◌+◌, ◌%◌, ◌^◌, ◌<◌, ◌≡◌, refl, sym, ap, ◌∙◌, ◌≢◌, inl, inr, Bool, true, false, some, List,
  [], ◌∷◌, ◌++◌, arith, ◌==◌, if◌then◌else◌, get_elem?, set, length, length-set, get_elem?-set,
  get_elem?-set_self, get_elem?-set_ne, get_elem?-append_cases, get_elem?-some, get_elem?-lt,
  Bool-cases, done, deref, bind-done,
}
use operating_system_challen.Threads.Types.{blocked, ready, Tcb, Counts, linked, Threads, returns}
use operating_system_challen.Threads.Schedule.{schedule}
use operating_system_challen.Threads.Barrier.{
  wake_all, barrier_leave, pthread_barrier_wait, serial_thread,
}

abbrev pub listed : ℕ → List ℕ → Bool
listed i [] = false
listed i (id ∷ ids) = let rest = listed i ids in if i == id then true else rest

module _ {C : Type 0} where
  -- Each thread of the list is ready, whatever it was before, and the others are as they were.
  pub record IsAwake (ids : List ℕ) (ts ts' : List (Tcb C)) : Type 0 where
    pub same_length : length ts' ≡ length ts
    pub entry :
        (i : ℕ) (t : Tcb C)
        → get_elem? ts i ≡ some t
        → get_elem? ts' i ≡ some (if listed i ids then record t { status = ready } else t)

  pub wake_all-IsAwake :
      (ids : List ℕ) (ts : List (Tcb C))
      → ((k id : ℕ) → get_elem? ids k ≡ some id → id < length ts)
      → (ts' : List (Tcb C)) × (wake_all ids ts ≡ done ts') × IsAwake ids ts ts'
  unfolding wake_all
  wake_all-IsAwake [] ts inside = (ts, refl, record { same_length = refl; entry = λ i t at. at })
  wake_all-IsAwake (id ∷ ids) ts inside =
      let (u, at) = get_elem?-some ts id (inside 0 id refl) in
      let ts1 = set ts id (record u { status = ready }) in
      let size = length-set ts id (record u { status = ready }) in
      let (ts', run, awake) =
        wake_all-IsAwake ids ts1 (λ k j bt. omega (arith, size, inside (suc k) j bt)) in
      (
        ts',
        bind-done _ (bind-done _ (ap deref at)) ∙ run,
        record {
          same_length = awake.same_length ∙ size;
          entry = λ i t bt. elim (Bool-cases (i == id)) [
            | inl e ↦
                let same : u ≡ t = ground (arith, e, at, bt) in
                let here : get_elem? ts1 i ≡ some (record t { status = ready }) = ground (
                  arith,
                  e,
                  same,
                  get_elem?-set ts id i (record u { status = ready }) (inside 0 id refl),
                ) in
                ground (arith, e, awake.entry i (record t { status = ready }) here)
            | inr e ↦
                let there : get_elem? ts1 i ≡ some t = ground (
                  arith,
                  e,
                  bt,
                  get_elem?-set ts id i (record u { status = ready }) (inside 0 id refl),
                ) in
                ground (arith, e, awake.entry i t there)
          ];
        },
      )

  -- The state of a barrier: the threads that it lists, and its counts.
  pub record IsBarrier (barrier : ℕ) (s : Threads C) (ids : List ℕ) (c : Counts) : Type 0 where
    pub queue : get_elem? s.barrier_lists barrier ≡ some (linked ids)
    pub counts : get_elem? s.barrier_counts barrier ≡ some c
    pub entries : (k id : ℕ) → get_elem? ids k ≡ some id → id < length s.tcb_list

  -- A thread that is not the last is blocked, goes behind the list of the barrier, and is counted;
  -- then `schedule` gives the turn away.
  pub pthread_barrier_wait-early :
      (now : C) (barrier : ℕ) (s : Threads C) (ids : List ℕ) (c : Counts) (t : Tcb C)
      → IsBarrier barrier s ids c
      → get_elem? s.tcb_list s.current ≡ some t
      → c.max_count < 2 ^ 32
      → c.current_count + 1 < c.max_count
      → (s1 : Threads C) × (pthread_barrier_wait now barrier s ≡ schedule now s1)
        × IsBarrier barrier s1
            (ids ++ s.current ∷ [])
            (record c { current_count = c.current_count + 1; print_serial_thread = true })
        × (get_elem? s1.tcb_list s.current ≡ some (record t { status = blocked }))
        × ((i : ℕ) → i ≢ s.current → get_elem? s1.tcb_list i ≡ get_elem? s.tcb_list i)
  unfolding pthread_barrier_wait
  pthread_barrier_wait-early now barrier s ids c t b at small early =
      let in_lists = get_elem?-lt s.barrier_lists barrier (linked ids) b.queue in
      let in_counts = get_elem?-lt s.barrier_counts barrier c b.counts in
      let in_table = get_elem?-lt s.tcb_list s.current t at in
      let counted : (c.current_count + 1) % 2 ^ 32 ≡ c.current_count + 1 = omega arith in
      let more : (c.max_count == (c.current_count + 1) % 2 ^ 32) ≡ false = ground arith in
      let c1 = record c {
        current_count = (c.current_count + 1) % 2 ^ 32;
        print_serial_thread = true;
      } in
      let ts = set s.tcb_list s.current (record t { status = blocked }) in
      (
        record s {
          tcb_list = ts;
          barrier_lists = set s.barrier_lists barrier (linked (ids ++ s.current ∷ []));
          barrier_counts = set s.barrier_counts barrier c1;
        },
        bind-done _ (ap deref b.queue)
            ∙ (bind-done _ (ap deref b.counts) ∙ rw more (bind-done _ (bind-done _ (ap deref at)))),
        record {
          queue =
              get_elem?-set_self s.barrier_lists barrier (linked (ids ++ s.current ∷ [])) in_lists;
          counts =
              get_elem?-set_self s.barrier_counts barrier c1 in_counts
              ∙ ap (λ (n : ℕ). some (record c { current_count = n; print_serial_thread = true }))
                  counted;
          entries = λ k id et.
              let size = length-set s.tcb_list s.current (record t { status = blocked }) in
              elim (get_elem?-append_cases ids s.current id k et) [
                | inl old ↦ omega (arith, size, b.entries k id old)
                | inr (_, own) ↦ omega (arith, size, own, in_table)
              ];
        },
        get_elem?-set_self s.tcb_list s.current (record t { status = blocked }) in_table,
        λ i ne.
            get_elem?-set_ne s.tcb_list s.current i (record t { status = blocked })
              (λ e. ne (sym e)),
      )

  -- The last thread at a barrier makes every thread of its list ready, changes the entry of no other,
  -- and returns PTHREAD_BARRIER_SERIAL_THREAD. A thread that leaves the barrier in the state behind
  -- this call gets 0 and changes nothing. The count starts again, but the list of the barrier stays
  -- as it was.
  pub pthread_barrier_wait-last :
      (now : C) (barrier : ℕ) (s : Threads C) (ids : List ℕ) (c : Counts)
      → IsBarrier barrier s ids c
      → c.max_count < 2 ^ 32
      → c.current_count + 1 ≡ c.max_count
      → (s' : Threads C) × (pthread_barrier_wait now barrier s ≡ done (returns serial_thread, s'))
        × IsAwake ids s.tcb_list s'.tcb_list
        × IsBarrier barrier s' ids (record c { current_count = 0; print_serial_thread = false })
        × (barrier_leave barrier s' ≡ done (returns 0, s'))
  unfolding pthread_barrier_wait barrier_leave
  pthread_barrier_wait-last now barrier s ids c b small last =
      let in_counts = get_elem?-lt s.barrier_counts barrier c b.counts in
      let (ts, run, awake) = wake_all-IsAwake ids s.tcb_list b.entries in
      let reached : (c.max_count == (c.current_count + 1) % 2 ^ 32) ≡ true = ground arith in
      let c1 = record c { current_count = 0; print_serial_thread = true } in
      let c2 = record c { current_count = 0; print_serial_thread = false } in
      let s1 = record s { tcb_list = ts; barrier_counts = set s.barrier_counts barrier c1 } in
      let s2 = record s1 { barrier_counts = set s1.barrier_counts barrier c2 } in
      let first = get_elem?-set_self s.barrier_counts barrier c1 in_counts in
      let size = length-set s.barrier_counts barrier c1 in
      let then_false =
        get_elem?-set_self s1.barrier_counts barrier c2 (omega (arith, size, in_counts)) in
      (
        s2,
        bind-done _ (ap deref b.queue)
            ∙ (bind-done _ (ap deref b.counts)
                ∙ rw reached (bind-done _ run ∙ bind-done _ (ap deref first))),
        awake,
        record {
          queue = b.queue;
          counts = then_false;
          entries = λ k id at. omega (arith, awake.same_length, b.entries k id at);
        },
        bind-done _ (ap deref then_false),
      )
