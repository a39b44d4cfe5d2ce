-- ===== src/Threads/Types.antt =====
-- Challenge2/threads.c: its structs and global variables, and what a call leads to.
use operating_system_challen.Base.{
  ℕ, Bool, List, [], ◌∷◌, ◌++◌, get_elem?, set, Outcome, done, fault, deref, ◌>>=◌,
}

abbrev pub max_threads : ℕ
max_threads = 128

-- `enum thread_status`
pub data Status : Type 0 where
  exited : Status
  running : Status
  ready : Status
  blocked : Status

-- `struct thread_control_block`, without the stack. `C` stands for a `jmp_buf`.
pub record Tcb (C : Type 0) : Type 0 where
  pub thread_id : ℕ
  pub buf : C
  pub buf_return_val : ℕ
  pub status : Status

-- A `struct threadList`: its threads in order, or a pointer to nodes that were freed.
pub data Waiters : Type 0 where
  linked : List ℕ → Waiters
  dangling : Waiters

-- `struct counts`. The two numbers are the 32 bits of an `int`.
pub record Counts : Type 0 where
  pub max_count : ℕ
  pub current_count : ℕ
  pub print_serial_thread : Bool

-- The fields of a `pthread_mutex_t` that the code uses; `lock` is 1 for a mutex that is free.
pub record Mutex : Type 0 where
  pub count : ℕ
  pub lock : ℕ
  pub owner : ℕ

-- The global and static variables.
pub record Threads (C : Type 0) : Type 0 where
  pub current : ℕ
  pub num_of_threads : ℕ
  pub tcb_list : List (Tcb C)
  pub mutex_lists : List Waiters
  pub barrier_lists : List Waiters
  pub barrier_counts : List Counts
  pub top_thread : ℕ
  pub mutex_id : ℕ
  pub barrier_id : ℕ
  pub is_first_call : Bool
  pub exited_threads : ℕ

-- A call returns, jumps with `longjmp`, runs for ever, or ends the process.
pub data Flow (C : Type 0) : Type 0 where
  returns : ℕ → Flow C
  jumps : C → ℕ → Flow C
  loops : Flow C
  ends : Flow C

abbrev pub set_status : {C : Type 0} → ℕ → Status → List (Tcb C) → Outcome (List (Tcb C))
set_status i x ts = deref (get_elem? ts i) >>= λ t. done (set ts i (record t { status = x }))

-- The node of a thread is put behind the last one.
abbrev pub append_thread : ℕ → Waiters → Outcome Waiters
append_thread id (linked ids) = done (linked (ids ++ id ∷ []))
append_thread id dangling = fault

-- The loop that frees the nodes. The pointer to the first node stays.
abbrev pub free_threads : Waiters → Outcome Waiters
free_threads (linked []) = done (linked [])
free_threads (linked (id ∷ ids)) = done dangling
free_threads dangling = fault
