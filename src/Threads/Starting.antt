-- ===== src/Threads/Starting.antt =====
-- Challenge2/threads.c: threads that start.
use operating_system_challen.Base.{
  ℕ, ◌+◌, ◌<◌, ◌≡◌, refl, ap, ◌∙◌, inl, inr, true, false, some, arith, ◌==◌, ◌&&◌, leb,
  if◌then◌else◌, get_elem?, set, length, length-set, get_elem?-set, get_elem?-set_ne,
  get_elem?-some, get_elem?-lt, Bool-cases, Option-cases, done, fault, deref, bind-done, if-true,
  if-false,
}
use operating_system_challen.Threads.Types.{ready, Tcb, Threads, max_threads}
use operating_system_challen.Threads.Schedule.{scheduler_init}
use operating_system_challen.Threads.Life.{pthread_create}

module _ {C : Type 0} where
  -- `pthread_create`, where there is memory for the stack, makes a thread with the next number,
  -- ready at its start; the first call enters the main thread too, and no other entry changes.
  -- This is so for threads 1 to 127 in a table of 128.
  pub pthread_create-starts :
      (start : C) (s : Threads C)
      → length s.tcb_list ≡ max_threads
      → s.num_of_threads + 1 < max_threads
      → (s' : Threads C) × (pthread_create start true s ≡ done (0, some (s.num_of_threads + 1), s'))
        × (s'.num_of_threads ≡ s.num_of_threads + 1)
        × (s'.is_first_call ≡ false)
        × ((i : ℕ) (t : Tcb C)
            → get_elem? s.tcb_list i ≡ some t
            → get_elem? s'.tcb_list i
              ≡ some (
                  if i == s.num_of_threads + 1
                  then record { thread_id = i; buf = start; buf_return_val = i; status = ready }
                  else if (i == 0) && s.is_first_call
                  then record t { thread_id = 0; buf_return_val = 131914; status = ready }
                  else t))
  unfolding pthread_create scheduler_init
  pthread_create-starts start s size room =
      let n = s.num_of_threads + 1 in
      let new : Tcb C = record { thread_id = n; buf = start; buf_return_val = n; status = ready } in
      let ts = set s.tcb_list n new in
      let (old, at) = get_elem?-some s.tcb_list n (omega (arith, size)) in
      let (main, main_at) = get_elem?-some s.tcb_list 0 (omega (arith, size)) in
      let more : leb max_threads s.num_of_threads ≡ false = ground arith in
      let main_at' : get_elem? ts 0 ≡ some main =
        get_elem?-set_ne s.tcb_list n 0 new (λ e. omega (arith, e)) ∙ main_at in
      let entered : (i : ℕ) (t : Tcb C)
          → get_elem? s.tcb_list i ≡ some t
          → get_elem? ts i
            ≡ some (
                if i == n
                then record { thread_id = i; buf = start; buf_return_val = i; status = ready }
                else t) =
        λ i t bt.
          let there = get_elem?-set s.tcb_list n i new (omega (arith, size)) in
          elim (Bool-cases (i == n)) [
            | inl e ↦
                let same : n ≡ i = ground (arith, e) in
                let here : get_elem? ts i ≡ some new = ground (arith, e, there) in
                rw e (
                  here
                  ∙ ap
                      (λ (k : ℕ).
                        some (record {
                          thread_id = k;
                          buf = start;
                          buf_return_val = k;
                          status = ready;
                        }))
                      same)
            | inr e ↦ ground (arith, e, there, bt)
          ] in
      elim (Bool-cases s.is_first_call) [
        | inl first ↦ (
          record s {
            num_of_threads = n;
            is_first_call = false;
            tcb_list =
                set ts 0 (record main { thread_id = 0; buf_return_val = 131914; status = ready });
          },
          if-false _ _ more
              ∙ (bind-done _ (ap deref at)
                  ∙ (if-true _ _ first ∙ bind-done _ (bind-done _ (ap deref main_at')))),
          refl,
          refl,
          λ i t bt.
              let there =
                get_elem?-set ts 0 i
                  (record main { thread_id = 0; buf_return_val = 131914; status = ready })
                  (omega (arith, size, length-set s.tcb_list n new)) in
              elim (Bool-cases (i == 0)) [
                | inl e ↦
                    let same : main ≡ t = ground (arith, e, main_at, bt) in
                    let other : (i == n) ≡ false = ground (arith, e) in
                    let here : get_elem?
                          (set ts 0 (record main {
                            thread_id = 0;
                            buf_return_val = 131914;
                            status = ready;
                          }))
                          i
                        ≡ some (record main {
                          thread_id = 0;
                          buf_return_val = 131914;
                          status = ready;
                        }) =
                      ground (arith, e, there) in
                    rw (other, e, first)
                      (here
                        ∙ ap
                            (λ (x : Tcb C).
                              some (record x {
                                thread_id = 0;
                                buf_return_val = 131914;
                                status = ready;
                              }))
                            same)
                | inr e ↦ ground (arith, e, there, entered i t bt)
              ],
        )
        | inr later ↦ (
          record s { num_of_threads = n; tcb_list = ts },
          if-false _ _ more ∙ (bind-done _ (ap deref at) ∙ if-false _ _ later),
          refl,
          later,
          λ i t bt. ground (arith, later, entered i t bt),
        )
      ]

  -- The call for thread 128 is not refused: it leaves the table of 128 entries.
  pub pthread_create-leaves_table :
      (start : C) (s : Threads C)
      → length s.tcb_list ≡ max_threads
      → s.num_of_threads + 1 ≡ max_threads
      → pthread_create start true s ≡ fault
  unfolding pthread_create
  pthread_create-leaves_table start s size last =
      let more : leb max_threads s.num_of_threads ≡ false = ground arith in
      elim (Option-cases (get_elem? s.tcb_list (s.num_of_threads + 1))) [
        | inl nothing ↦ if-false _ _ more ∙ rw nothing refl
        | inr (t, at) ↦
            absurd (omega (arith, size, get_elem?-lt s.tcb_list (s.num_of_threads + 1) t at))
      ]
