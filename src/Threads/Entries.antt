-- ===== src/Threads/Entries.antt =====
-- Challenge2/threads.c: an entry of the table when the turn goes on.
use operating_system_challen.Base.{
  some_injective, ℕ, ◌≡◌, refl, sym, ap, ◌∙◌, inl, inr, false, ◌&&◌, not, some, List, arith, ◌==◌,
  if◌then◌else◌, get_elem?, set, length-set, get_elem?-set, get_elem?-some, get_elem?-lt,
  Bool-cases,
}
use operating_system_challen.Threads.Types.{Status, exited, running, ready, blocked, Tcb}
use operating_system_challen.Threads.Schedule.{is_exited, is_stopped}

pub not_stopped-is_exited : (x : Status) → is_stopped x ≡ false → is_exited x ≡ false
not_stopped-is_exited exited e = e
not_stopped-is_exited running e = refl
not_stopped-is_exited ready e = refl
not_stopped-is_exited blocked e = refl

module _ {C : Type 0} where
  -- The entry of the thread that was running, when its turn is over.
  abbrev pub turn_over : C → Tcb C → Tcb C
  turn_over now t =
      let turned = if is_stopped t.status then t else record t { status = ready } in
      if is_exited t.status then turned else record turned { buf = now }

  pub record IsOver (now : C) (t t' : Tcb C) : Type 0 where
    pub status_over : t'.status ≡ (if not (is_stopped t.status) then ready else t.status)
    pub stays : is_stopped t'.status ≡ is_stopped t.status
    pub buf_over : t'.buf ≡ (if not (is_exited t.status) then now else t.buf)
    pub value_over : t'.buf_return_val ≡ t.buf_return_val

  pub turn_over-IsOver : (now : C) (t : Tcb C) → IsOver now t (turn_over now t)
  turn_over-IsOver now t = by_status t.thread_id t.buf t.buf_return_val t.status
    where
      by_status :
          (id : ℕ) (b : C) (value : ℕ) (x : Status)
          → IsOver now
              (record { thread_id = id; buf = b; buf_return_val = value; status = x })
              (turn_over now
                (record { thread_id = id; buf = b; buf_return_val = value; status = x }))
      by_status id b value exited = record {
        status_over = refl;
        stays = refl;
        buf_over = refl;
        value_over = refl;
      }
      by_status id b value running = record {
        status_over = refl;
        stays = refl;
        buf_over = refl;
        value_over = refl;
      }
      by_status id b value ready = record {
        status_over = refl;
        stays = refl;
        buf_over = refl;
        value_over = refl;
      }
      by_status id b value blocked = record {
        status_over = refl;
        stays = refl;
        buf_over = refl;
        value_over = refl;
      }

  abbrev pub entry_over : C → (top i : ℕ) → Tcb C → Tcb C
  entry_over now top i t = if i == top then turn_over now t else t

  pub entry_over-stays :
      (now : C) (top i : ℕ) (t : Tcb C)
      → is_stopped (entry_over now top i t).status ≡ is_stopped t.status
  entry_over-stays now top i t = elim (Bool-cases (i == top)) [
    | inl e ↦ rw e ((turn_over-IsOver now t).stays)
    | inr e ↦ rw e refl
  ]

  entry_over-status :
      (now : C) (top i : ℕ) (t : Tcb C)
      → (entry_over now top i t).status
        ≡ (if (i == top) && not (is_stopped t.status) then ready else t.status)
  entry_over-status now top i t = elim (Bool-cases (i == top)) [
    | inl e ↦ rw e ((turn_over-IsOver now t).status_over)
    | inr e ↦ rw e refl
  ]

  entry_over-buf :
      (now : C) (top i : ℕ) (t : Tcb C)
      → (entry_over now top i t).buf
        ≡ (if (i == top) && not (is_exited t.status) then now else t.buf)
  entry_over-buf now top i t = elim (Bool-cases (i == top)) [
    | inl e ↦ rw e ((turn_over-IsOver now t).buf_over)
    | inr e ↦ rw e refl
  ]

  pub entry_over-at :
      (now : C) (top i : ℕ) (ts : List (Tcb C)) (r x : Tcb C)
      → get_elem? ts top ≡ some r
      → get_elem? ts i ≡ some x
      → get_elem? (set ts top (turn_over now r)) i ≡ some (entry_over now top i x)
  entry_over-at now top i ts r x at bt =
      let other = get_elem?-set ts top i (turn_over now r) (get_elem?-lt ts top r at) in
      elim (Bool-cases (i == top)) [
        | inl e ↦
            let here : top ≡ i = ground (arith, e) in
            let same : r ≡ x = ground (arith, e, at, bt) in
            ground (arith, e, other, ap (turn_over now) same)
        | inr e ↦ ground (arith, e, other, bt)
      ]

  pub before_over :
      (now : C) (top i : ℕ) (ts : List (Tcb C)) (r y : Tcb C)
      → get_elem? ts top ≡ some r
      → get_elem? (set ts top (turn_over now r)) i ≡ some y
      → (x : Tcb C) × (get_elem? ts i ≡ some x) × (entry_over now top i x ≡ y)
  before_over now top i ts r y at bt =
      let lt = get_elem?-lt (set ts top (turn_over now r)) i y bt in
      let (x, ct) = get_elem?-some ts i (omega (arith, lt, length-set ts top (turn_over now r))) in
      (
        x,
        ct,
        some_injective (entry_over now top i x) y (sym (entry_over-at now top i ts r x at ct) ∙ bt),
      )

  -- Where the thread that gets the turn goes on.
  pub jump_to :
      (now : C) (top v : ℕ) (w w' : Tcb C)
      → entry_over now top v w ≡ w'
      → is_stopped w.status ≡ false
      → (w'.buf ≡ (if v == top then now else w.buf)) × (w'.buf_return_val ≡ w.buf_return_val)
  jump_to now top v w w' same goes =
      let over = turn_over-IsOver now w in
      elim (Bool-cases (v == top)) [
        | inl e ↦
            let own : turn_over now w ≡ w' = ground (arith, e, same) in
            (
              ap (λ (x : Tcb C). x.buf) (sym own)
                  ∙ (over.buf_over ∙ rw (e, not_stopped-is_exited w.status goes) refl),
              ap (λ (x : Tcb C). x.buf_return_val) (sym own) ∙ over.value_over,
            )
        | inr e ↦
            let own : w ≡ w' = ground (arith, e, same) in
            (
              ap (λ (x : Tcb C). x.buf) (sym own) ∙ rw e refl,
              ap (λ (x : Tcb C). x.buf_return_val) (sym own),
            )
      ]

  -- An entry behind the call.
  pub record IsEntry (now : C) (top v i : ℕ) (x y : Tcb C) : Type 0 where
    pub status_behind : y.status ≡ (
        if i == v
        then running
        else if (i == top) && not (is_stopped x.status)
        then ready
        else x.status)
    pub buf_behind : y.buf ≡ (if (i == top) && not (is_exited x.status) then now else x.buf)

  pub IsEntry-behind :
      (now : C) (top v i : ℕ) (ts : List (Tcb C)) (w' x : Tcb C)
      → get_elem? ts v ≡ some w'
      → get_elem? ts i ≡ some (entry_over now top i x)
      → (y : Tcb C) × (get_elem? (set ts v (record w' { status = running })) i ≡ some y)
        × IsEntry now top v i x y
  IsEntry-behind now top v i ts w' x at bt =
      let over = turn_over-IsOver now x in
      elim (Bool-cases (i == v)) [
        | inl e ↦
            let same : w' ≡ entry_over now top i x = ground (arith, e, at, bt) in
            let there =
              get_elem?-set ts v i (record w' { status = running }) (get_elem?-lt ts v w' at) in
            (
              record w' { status = running },
              ground (arith, e, there),
              record {
                status_behind = rw e refl;
                buf_behind = ap (λ (t : Tcb C). t.buf) same ∙ entry_over-buf now top i x;
              },
            )
        | inr e ↦
            let there =
              get_elem?-set ts v i (record w' { status = running }) (get_elem?-lt ts v w' at) in
            (
              entry_over now top i x,
              ground (arith, e, there, bt),
              record {
                status_behind = rw e (entry_over-status now top i x);
                buf_behind = entry_over-buf now top i x;
              },
            )
      ]
