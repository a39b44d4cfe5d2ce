-- ===== src/Threads/Schedule.antt =====
-- Challenge2/threads.c: `schedule` gives the next turn, and `scheduler_init` enters the main thread.
use operating_system_challen.Base.{
  ℕ, zero, suc, ◌+◌, Bool, true, false, Option, none, some, List, ◌==◌, if◌then◌else◌, get_elem?,
  set, Outcome, done, deref, ◌>>=◌,
}
use operating_system_challen.Threads.Types.{
  Status, exited, running, ready, blocked, Tcb, Threads, Flow, jumps, loops,
}

abbrev pub is_exited : Status → Bool
is_exited exited = true
is_exited running = false
is_exited ready = false
is_exited blocked = false

-- The condition of the `do` loops.
abbrev pub is_stopped : Status → Bool
is_stopped exited = true
is_stopped running = false
is_stopped ready = false
is_stopped blocked = true

-- One step of `topThread`.
abbrev pub after : (num top : ℕ) → ℕ
after num top = if top + 1 == num + 1 then 0 else top + 1

module _ {C : Type 0} where
  -- The `do` loop, for a number of rounds. As the loop changes no status, it never ends when it
  -- came round without finding a thread.
  unfoldable pub next_thread : (left num top : ℕ) → List (Tcb C) → Outcome (Option ℕ)
  next_thread zero num top ts = done none
  next_thread (suc left) num top ts = deref (get_elem? ts (after num top)) >>= λ t.
      elim (is_stopped t.status) [
        | true ↦ next_thread left num (after num top) ts
        | false ↦ done (some (after num top))
      ]

  -- `now` is what `setjmp` saves: a jump there returns from this call.
  unfoldable pub schedule : C → Threads C → Outcome (Flow C × Threads C)
  unfolding next_thread
  schedule now s = deref (get_elem? s.tcb_list s.top_thread) >>= λ t.
      let turned = if is_stopped t.status then t else record t { status = ready } in
      let saved = if is_exited t.status then turned else record turned { buf = now } in
      let ts = set s.tcb_list s.top_thread saved in
      next_thread (s.num_of_threads + 1) s.num_of_threads s.top_thread ts >>= λ found. elim found [
        | none ↦ done (loops, record s { tcb_list = ts })
        | some next ↦ deref (get_elem? ts next) >>= λ u. done (
          jumps u.buf u.buf_return_val,
          record s {
            current = next;
            top_thread = next;
            tcb_list = set ts next (record u { status = running });
          },
        )
      ]

  -- The part of `scheduler_init` behind the signal handler and the timer.
  unfoldable pub scheduler_init : Threads C → Outcome (Threads C)
  scheduler_init s = deref (get_elem? s.tcb_list 0) >>= λ t. done (record s {
    tcb_list =
        set s.tcb_list 0 (record t { thread_id = 0; buf_return_val = 131914; status = ready });
  })
