-- ===== src/Threads/Circle.antt =====
-- Challenge2/threads.c: the search for the next thread in the circle.
use operating_system_challen.Base.{
  ℕ, zero, suc, ◌+◌, ◌-◌, ◌≤◌, ◌<◌, ◌≡◌, refl, ap, ◌∙◌, ◌≢◌, inl, inr, false, some, List, arith,
  ltb, if◌then◌else◌, get_elem?, length, get_elem?-some, Bool-cases, done, deref, bind-done,
}
use operating_system_challen.Threads.Types.{Tcb}
use operating_system_challen.Threads.Schedule.{is_stopped, after, next_thread}

-- How many steps a thread is behind another in the circle of threads 0 to `num`.
abbrev pub distance : (num a b : ℕ) → ℕ
distance num a b = if ltb a b then b - a else num + 1 + b - a

distance-after :
    (num a b : ℕ)
    → a ≤ num
    → b ≤ num
    → b ≢ after num a
    → distance num a b ≡ distance num (after num a) b + 1
distance-after num a b a_in b_in ne = ground arith

distance-next : (num a : ℕ) → a ≤ num → distance num a (after num a) ≡ 1
distance-next num a a_in = ground arith

module _ {C : Type 0} where
  -- The thread could run.
  pub record CanRun (num : ℕ) (ts : List (Tcb C)) (i : ℕ) (t : Tcb C) : Type 0 where
    pub inside : i ≤ num
    pub found : get_elem? ts i ≡ some t
    pub goes : is_stopped t.status ≡ false

  -- In a table that has room for all threads, the search ends with a thread that can run if there
  -- is one, and with the next one in the circle, in a number of rounds that is the distance to any
  -- thread that can run.
  pub next_thread-finds :
      (left num top u : ℕ) (t : Tcb C) (ts : List (Tcb C))
      → top ≤ num
      → num < length ts
      → CanRun num ts u t
      → distance num top u ≤ left
      → (v : ℕ) × (t' : Tcb C) × (next_thread left num top ts ≡ done (some v))
        × CanRun num ts v t'
        × ((w : ℕ) (x : Tcb C) → CanRun num ts w x → distance num top v ≤ distance num top w)
  unfolding next_thread
  next_thread-finds zero num top u t ts top_in all_in c near =
      absurd (let inside = c.inside in ground arith)
  next_thread-finds (suc left) num top u t ts top_in all_in c near =
      let a_in : after num top ≤ num = ground arith in
      let (ta, at) = get_elem?-some ts (after num top) (omega (arith, a_in)) in
      elim (Bool-cases (is_stopped ta.status)) [
        | inr goes ↦ (
          after num top,
          ta,
          bind-done _ (ap deref at) ∙ rw goes refl,
          record { inside = a_in; found = at; goes = goes },
          λ w x d. let inside = d.inside in ground (arith, distance-next num top top_in),
        )
        | inl stopped ↦
            let other : (w : ℕ) (x : Tcb C) → CanRun num ts w x → w ≢ after num top =
              λ w x d e. ground (arith, e, d.found, d.goes, at, stopped) in
            let step : (w : ℕ) (x : Tcb C)
                → CanRun num ts w x
                → distance num top w ≡ distance num (after num top) w + 1 =
              λ w x d. distance-after num top w top_in d.inside (other w x d) in
            let (v, t', run, d, first) =
              next_thread-finds left num (after num top) u t ts a_in all_in c
                (omega (arith, step u t c, near)) in
            (
              v,
              t',
              bind-done _ (ap deref at) ∙ rw stopped run,
              d,
              λ w x e. omega (arith, step v t' d, step w x e, first w x e),
            )
      ]
