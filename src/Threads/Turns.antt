-- ===== src/Threads/Turns.antt =====
-- Challenge2/threads.c: `schedule` gives the turns in a circle.
use operating_system_challen.Base.{
  ℕ, ◌+◌, ◌≤◌, ◌<◌, ◌≡◌, refl, sym, ap, ap₂, ◌∙◌, false, some, arith, ◌==◌, if◌then◌else◌,
  get_elem?, set, length, length-set, get_elem?-some, done, deref, bind-done,
}
use operating_system_challen.Threads.Types.{running, Tcb, Threads, jumps}
use operating_system_challen.Threads.Schedule.{is_stopped, next_thread, schedule}
use operating_system_challen.Threads.Circle.{CanRun, distance, next_thread-finds}
use operating_system_challen.Threads.Entries.{
  turn_over, entry_over, entry_over-stays, entry_over-at, before_over, jump_to, IsEntry,
  IsEntry-behind,
}

module _ {C : Type 0} where
  -- Thread `v` has the turn behind the call, and every entry is as it was but for the context that is
  -- saved and the two statuses that change.
  pub record IsTurn (now : C) (s s' : Threads C) (v : ℕ) : Type 0 where
    pub is_current : (s'.current ≡ v) × (s'.top_thread ≡ v)
    pub entry :
        (i : ℕ) (x : Tcb C)
        → get_elem? s.tcb_list i ≡ some x
        → (y : Tcb C) × (get_elem? s'.tcb_list i ≡ some y) × IsEntry now s.top_thread v i x y

  schedule-found :
      (now : C) (s : Threads C) (r : Tcb C) (v : ℕ) (w w' : Tcb C)
      → get_elem? s.tcb_list s.top_thread ≡ some r
      → next_thread
          (s.num_of_threads + 1)
          s.num_of_threads
          s.top_thread
          (set s.tcb_list s.top_thread (turn_over now r))
        ≡ done (some v)
      → get_elem? (set s.tcb_list s.top_thread (turn_over now r)) v ≡ some w'
      → entry_over now s.top_thread v w ≡ w'
      → is_stopped w.status ≡ false
      → (s' : Threads C) × (schedule now s
          ≡ done (jumps (if v == s.top_thread then now else w.buf) w.buf_return_val, s'))
        × IsTurn now s s' v
  unfolding schedule
  schedule-found now s r v w w' at run there same goes =
      let ts = set s.tcb_list s.top_thread (turn_over now r) in
      let s' = record s {
        current = v;
        top_thread = v;
        tcb_list = set ts v (record w' { status = running });
      } in
      let (b, value) = jump_to now s.top_thread v w w' same goes in
      (
        s',
        bind-done _ (ap deref at)
            ∙ (bind-done _ run
                ∙ (bind-done _ (ap deref there)
                    ∙ ap₂ (λ (x : C) (n : ℕ). done (jumps x n, s')) b value)),
        record {
          is_current = (refl, refl);
          entry = λ i x et.
              IsEntry-behind now s.top_thread v i ts w' x there
                (entry_over-at now s.top_thread i s.tcb_list r x at et);
        },
      )

  -- In a table that has room for all threads, if a thread can run, `schedule` ends and jumps to
  -- the next thread in the circle that can run, where that thread was left: no thread that can run
  -- is passed over, and the thread whose turn it was is saved and can run again unless it has
  -- exited or is blocked.
  pub schedule-IsTurn :
      (now : C) (s : Threads C) (u : ℕ) (t : Tcb C)
      → s.top_thread ≤ s.num_of_threads
      → s.num_of_threads < length s.tcb_list
      → CanRun s.num_of_threads s.tcb_list u t
      → (v : ℕ) × (w : Tcb C) × (s' : Threads C) × (schedule now s
          ≡ done (jumps (if v == s.top_thread then now else w.buf) w.buf_return_val, s'))
        × CanRun s.num_of_threads s.tcb_list v w
        × ((i : ℕ) (x : Tcb C)
            → CanRun s.num_of_threads s.tcb_list i x
            → distance s.num_of_threads s.top_thread v ≤ distance s.num_of_threads s.top_thread i)
        × IsTurn now s s' v
  schedule-IsTurn now s u t top_in all_in c =
      let top = s.top_thread in
      let (r, at) = get_elem?-some s.tcb_list top (omega arith) in
      let ts = set s.tcb_list top (turn_over now r) in
      let to_saved : (i : ℕ) (x : Tcb C)
          → CanRun s.num_of_threads s.tcb_list i x
          → CanRun s.num_of_threads ts i (entry_over now top i x) =
        λ i x d. record {
          inside = d.inside;
          found = entry_over-at now top i s.tcb_list r x at d.found;
          goes = entry_over-stays now top i x ∙ d.goes;
        } in
      let inside = c.inside in
      let (v, w', run, d, first) =
        next_thread-finds (s.num_of_threads + 1) s.num_of_threads top u (entry_over now top u t) ts
          top_in (omega (arith, length-set s.tcb_list top (turn_over now r))) (to_saved u t c)
          (ground (arith, inside)) in
      let (w, bt, same) = before_over now top v s.tcb_list r w' at d.found in
      let goes =
        sym (entry_over-stays now top v w)
        ∙ (ap (λ (x : Tcb C). is_stopped x.status) same ∙ d.goes) in
      let (s', jump, turn) = schedule-found now s r v w w' at run d.found same goes in
      (
        v,
        w,
        s',
        jump,
        record { inside = d.inside; found = bt; goes = goes },
        λ i x e. first i (entry_over now top i x) (to_saved i x e),
        turn,
      )
