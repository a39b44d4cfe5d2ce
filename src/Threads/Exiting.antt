-- ===== src/Threads/Exiting.antt =====
-- Challenge2/threads.c: what happens when the last thread but main exits.
use operating_system_challen.Base.{
  some_injective, ℕ, ◌+◌, ◌≤◌, ◌<◌, ◌≡◌, refl, sym, ap, ◌∙◌, ◌≢◌, inl, inr, Bool, true, false, some,
  arith, ◌==◌, not, not, if◌then◌else◌, get_elem?, set, length, length-set, get_elem?-set_self,
  get_elem?-set_ne, get_elem?-lt, Bool-cases, done, deref, bind-done, if-false,
}
use operating_system_challen.Threads.Types.{exited, running, Tcb, Threads, jumps}
use operating_system_challen.Threads.Schedule.{schedule, is_stopped}
use operating_system_challen.Threads.Life.{pthread_exit}
use operating_system_challen.Threads.Entries.{not_stopped-is_exited}
use operating_system_challen.Threads.Turns.{schedule-IsTurn}

true_not_false : (b : Bool) → b ≡ true → b ≡ false → ⊥
true_not_false b e f = absurd (ground (arith, e, f))

module _ {C : Type 0} where
  -- When the last thread but main exits in its own turn, and main can run, `pthread_exit` jumps to
  -- where main was left, but the turn stays with the thread that exited: the next `schedule`,
  -- wherever main is then, jumps back to the same place.
  pub pthread_exit-main_again :
      (now : C) (s : Threads C) (t main : Tcb C)
      → get_elem? s.tcb_list s.current ≡ some t
      → get_elem? s.tcb_list 0 ≡ some main
      → is_stopped main.status ≡ false
      → s.current ≢ 0
      → s.top_thread ≡ s.current
      → s.current ≤ s.num_of_threads
      → s.num_of_threads < length s.tcb_list
      → s.exited_threads + 1 ≡ s.num_of_threads
      → ((i : ℕ) (x : Tcb C)
          → i ≢ 0
          → i ≢ s.current
          → i ≤ s.num_of_threads
          → get_elem? s.tcb_list i ≡ some x
          → x.status ≡ exited)
      → (s1 : Threads C) × (pthread_exit now s ≡ done (jumps main.buf main.buf_return_val, s1))
        × (s1.current ≡ 0)
        × ((later : C)
            → (s2 : Threads C) × (schedule later s1 ≡ done (jumps main.buf main.buf_return_val, s2))
              × (s2.current ≡ 0))
  unfolding pthread_exit
  pthread_exit-main_again now s t main at main_at goes not_main turn inside all_in last others =
      let ts = set s.tcb_list s.current (record t { status = exited }) in
      let ts' = set ts 0 (record main { status = running }) in
      let size = length-set s.tcb_list s.current (record t { status = exited }) in
      let main_at' : get_elem? ts 0 ≡ some main =
        get_elem?-set_ne s.tcb_list s.current 0 (record t { status = exited }) not_main ∙ main_at in
      let all_gone : ((if s.current == 0 then s.exited_threads else s.exited_threads + 1)
            == s.num_of_threads)
          ≡ true =
        ground (arith, not_main, last) in
      let size' = length-set ts 0 (record main { status = running }) in
      let main_there : get_elem? ts' 0 ≡ some (record main { status = running }) =
        get_elem?-set_self ts 0 (record main { status = running })
          (get_elem?-lt ts 0 main main_at') in
      let stopped : (v : ℕ) (w : Tcb C)
          → v ≢ 0
          → v ≤ s.num_of_threads
          → get_elem? ts v ≡ some w
          → is_stopped w.status ≡ true =
        λ v w ne in_range found. elim (Bool-cases (v == s.current)) [
          | inl e ↦
              let own : record t { status = exited } ≡ w =
                some_injective (record t { status = exited }) w
                  (sym (
                      get_elem?-set_self s.tcb_list s.current (record t { status = exited })
                        (get_elem?-lt s.tcb_list s.current t at))
                    ∙ (ap (get_elem? ts) (ground (arith, e)) ∙ found)) in
              sym (ap (λ (x : Tcb C). is_stopped x.status) own)
          | inr e ↦
              let other : v ≢ s.current = λ same. ground (arith, e, same) in
              ap is_stopped (
                others v w ne other in_range (
                  sym (
                    get_elem?-set_ne s.tcb_list s.current v (record t { status = exited })
                      (λ same. other (sym same)))
                  ∙ found))
        ] in
      let only_main : (v : ℕ) (w : Tcb C)
          → v ≤ s.num_of_threads
          → get_elem? ts' v ≡ some w
          → is_stopped w.status ≡ false
          → v ≡ 0 =
        λ v w in_range found runs. elim (Bool-cases (v == 0)) [
          | inl e ↦ ground (arith, e)
          | inr e ↦
              let ne : v ≢ 0 = λ same. ground (arith, e, same) in
              let found1 : get_elem? ts v ≡ some w =
                sym (
                  get_elem?-set_ne ts 0 v (record main { status = running })
                    (λ same. ne (sym same)))
                ∙ found in
              absurd (true_not_false (is_stopped w.status) (stopped v w ne in_range found1) runs)
        ] in
      let s1 = record s {
        tcb_list = ts';
        exited_threads = if s.current == 0 then s.exited_threads else s.exited_threads + 1;
        current = 0;
      } in
      (
        s1,
        bind-done _ (bind-done _ (ap deref at))
            ∙ (if-false _ _ (ap not all_gone)
                ∙ (bind-done _ (ap deref main_at')
                    ∙ if-false _ _ (not_stopped-is_exited main.status goes))),
        refl,
        λ later.
            let (v, w, s2, run, d, _, now_turn) =
              schedule-IsTurn later s1 0 (record main { status = running })
                (omega (arith, turn, inside)) (omega (arith, size', size, all_in))
                (record { inside = omega arith; found = main_there; goes = refl }) in
            let first : v ≡ 0 = only_main v w d.inside d.found d.goes in
            let is_main : record main { status = running } ≡ w =
              some_injective (record main { status = running }) w
                (sym main_there ∙ (ap (get_elem? ts') (sym first) ∙ d.found)) in
            let elsewhere : (v == s.top_thread) ≡ false = ground (arith, first, turn, not_main) in
            (
              s2,
              run
                  ∙ (rw elsewhere
                      (ap (λ (x : Tcb C). done (jumps x.buf x.buf_return_val, s2)) (sym is_main))),
              now_turn.is_current.0 ∙ first,
            ),
      )
