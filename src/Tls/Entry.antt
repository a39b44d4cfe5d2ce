-- ===== src/Tls/Entry.antt =====
-- Challenge4/tls.c: the entry that `findIndex` gives to a new thread.
use operating_system_challen.Base.{
  if◌then◌else◌, ℕ, zero, suc, ◌+◌, ◌<◌, ◌≤◌, ◌≡◌, ◌≢◌, refl, sym, ap, ◌∙◌, inl, inr, false, Option,
  none, some, List, [], ◌∷◌, arith, ◌==◌, set, length, length-set, get_elem?-set, get_elem?-some,
  Bool-cases, Option-cases, done, find_index as first_index,
}
use operating_system_challen.Tls.Memory.{MemoryView}
use operating_system_challen.Tls.Types.{Page, Storage, Pair, TlsState, empty_tls, max_threads}
use operating_system_challen.Tls.Table.{find_index, tls_at}
use operating_system_challen.Tls.Refs.{pages_in, pages_of, refs, count, refs-set}
use operating_system_challen.Tls.Invariant.{Inv, IsCaller}

-- The thread is in no entry, it is not the number of an empty one, and two entries are left.
pub record IsNew {M : Type 0} (tid : ℕ) (s : TlsState M) : Type 0 where
  pub started : s.first_call ≡ false
  pub unknown : first_index (λ (e : Pair). e.tid == tid) s.table 0 ≡ none
  pub proper : empty_tls.tid ≢ tid
  pub room : s.max_index + 1 < max_threads

abbrev pub entered : {M : Type 0} → TlsState M → TlsState M
entered s = record s {
  max_index = s.max_index + 1;
  table = set s.table (s.max_index + 1) empty_tls;
}

pub find_index-new :
    {M : Type 0} (tid : ℕ) (s : TlsState M)
    → IsNew tid s
    → find_index tid s ≡ done (s.max_index, entered s)
unfolding find_index
find_index-new tid s new = ground (arith, new.started, new.unknown, new.room)

module _ {M : Type 0} (v : MemoryView M) (s : TlsState M) (inv : Inv v s)
    (room : s.max_index + 1 < max_threads) where
  -- The entry that is cleared has no storage before.
  pub tls_at-entered : (j : ℕ) → tls_at j (entered s) ≡ tls_at j s
  tls_at-entered j = elim (Bool-cases (s.max_index + 1 == j)) [
    | inr ne ↦
        ground
          (arith, get_elem?-set s.table (s.max_index + 1) j empty_tls (omega (arith, inv.entries)))
    | inl same ↦ elim (Option-cases (tls_at j s)) [
      | inl nothing ↦ ground (
        arith,
        nothing,
        get_elem?-set s.table (s.max_index + 1) j empty_tls (omega (arith, inv.entries)),
      )
      | inr (t, at) ↦ absurd (ground (arith, inv.assigned j t at))
    ]
  ]

  pub refs-entered : (q : ℕ) → refs q (entered s).table ≡ refs q s.table
  unfolding count
  refs-entered q =
      let (e, at) = get_elem?-some s.table (s.max_index + 1) (omega (arith, inv.entries)) in
      elim (Option-cases e.tls) [
        | inl nothing ↦
            let blank : count q (pages_of e) ≡ 0 =
              ap (λ (x : Option Storage). count q (pages_in x)) nothing in
            omega (arith, refs-set q s.table (s.max_index + 1) e empty_tls at, blank)
        | inr (t, has) ↦
            let own : tls_at (s.max_index + 1) s ≡ some t = ground (arith, at, has) in
            absurd (omega (arith, inv.assigned (s.max_index + 1) t own))
      ]

  pub entered-Inv : Inv v (entered s)
  entered-Inv = record {
    entries = length-set s.table (s.max_index + 1) empty_tls ∙ inv.entries;
    in_table = room;
    page_ok = inv.page_ok;
    apart = inv.apart;
    owned = λ i t k p at. inv.owned i t k p (sym (tls_at-entered i) ∙ at);
    counted = λ p g at. inv.counted p g at ∙ sym (refs-entered p);
    sized = λ i t at. inv.sized i t (sym (tls_at-entered i) ∙ at);
    assigned = λ i t at. omega (arith, inv.assigned i t (sym (tls_at-entered i) ∙ at));
    small = λ i t at. inv.small i t (sym (tls_at-entered i) ∙ at);
  }

  -- The new entry has no storage yet.
  pub tls_at-new : tls_at s.max_index (entered s) ≡ none
  tls_at-new = elim (Option-cases (tls_at s.max_index s)) [
    | inl nothing ↦ tls_at-entered s.max_index ∙ nothing
    | inr (t, at) ↦ absurd (omega (arith, inv.assigned s.max_index t at))
  ]

-- The new entry gets its thread and its storage, and pages and memory may change.
module _ {M : Type 0} (v : MemoryView M) (s : TlsState M) (inv : Inv v s)
    (room : s.max_index + 1 < max_threads) (tid : ℕ) (t : Storage) (heap : List Page) (m : M) where
  abbrev pub assigned : TlsState M
  assigned = record s {
    max_index = s.max_index + 1;
    table = set (entered s).table s.max_index (record { tid = tid; tls = some t });
    heap = heap;
    memory = m;
  }

  pub in_range : s.max_index < length (entered s).table
  in_range = omega (arith, (entered-Inv v s inv room).entries, inv.in_table)

  pub tls_at-assigned :
      (k : ℕ) → tls_at k assigned ≡ (if s.max_index == k then some t else tls_at k s)
  tls_at-assigned k =
      let there =
        get_elem?-set (entered s).table s.max_index k (record { tid = tid; tls = some t })
          in_range in
      elim (Bool-cases (s.max_index == k)) [
        | inl same ↦ ground (arith, same, there)
        | inr other ↦ rw other (ground (arith, other, there) ∙ tls_at-entered v s inv room k)
      ]

  pub refs-assigned : (q : ℕ) → refs q assigned.table ≡ refs q s.table + count q t.pages
  unfolding count
  refs-assigned q =
      let e' : Pair = record { tid = tid; tls = some t } in
      let (e, at) = get_elem?-some (entered s).table s.max_index in_range in
      let nothing : e.tls ≡ none = ground (arith, at, tls_at-new v s inv room) in
      let blank : count q (pages_of e) ≡ 0 =
        ap (λ (x : Option Storage). count q (pages_in x)) nothing in
      omega (
        arith,
        refs-set q (entered s).table s.max_index e e' at,
        blank,
        refs-entered v s inv room q,
      )

-- A thread that is in no entry is found where it is put.
pub first_index-set-none :
    (es : List Pair) (i k tid : ℕ) (e' : Pair)
    → first_index (λ (x : Pair). x.tid == tid) es k ≡ none
    → e'.tid ≡ tid
    → i < length es
    → first_index (λ (x : Pair). x.tid == tid) (set es i e') k ≡ some (k + i)
unfolding first_index
first_index-set-none [] i k tid e' h same lt = absurd (omega arith)
first_index-set-none (x ∷ xs) zero k tid e' h same lt = ground (arith, same)
first_index-set-none (x ∷ xs) (suc i) k tid e' h same lt =
    let rest : first_index (λ (x : Pair). x.tid == tid) xs (k + 1) ≡ none = ground arith in
    ground (arith, first_index-set-none xs i (k + 1) tid e' rest same (omega arith))

-- Clearing an entry finds no thread but the one of no entry.
pub first_index-set_other :
    (es : List Pair) (i k tid : ℕ) (e' : Pair)
    → first_index (λ (x : Pair). x.tid == tid) es k ≡ none
    → e'.tid ≢ tid
    → first_index (λ (x : Pair). x.tid == tid) (set es i e') k ≡ none
unfolding first_index
first_index-set_other [] i k tid e' h ne = refl
first_index-set_other (x ∷ xs) zero k tid e' h ne = ground arith
first_index-set_other (x ∷ xs) (suc i) k tid e' h ne =
    let rest : first_index (λ (x : Pair). x.tid == tid) xs (k + 1) ≡ none = ground arith in
    ground (arith, first_index-set_other xs i (k + 1) tid e' rest ne)

first_index-ge :
    (es : List Pair) (k r tid : ℕ) → first_index (λ (x : Pair). x.tid == tid) es k ≡ some r → k ≤ r
unfolding first_index
first_index-ge [] k r tid h = cc
first_index-ge (x ∷ xs) k r tid h = elim (Bool-cases (x.tid == tid)) [
  | inl here ↦ ground arith
  | inr other ↦ omega (arith, first_index-ge xs (k + 1) r tid (ground arith))
]

-- A thread that was found is found behind a change of a later entry.
pub first_index-set_behind :
    (es : List Pair) (i k r tid : ℕ) (e' : Pair)
    → first_index (λ (x : Pair). x.tid == tid) es k ≡ some r
    → r < k + i
    → first_index (λ (x : Pair). x.tid == tid) (set es i e') k ≡ some r
unfolding first_index
first_index-set_behind [] i k r tid e' h lt = h
first_index-set_behind (x ∷ xs) zero k r tid e' h lt =
    absurd (omega (arith, first_index-ge (x ∷ xs) k r tid h))
first_index-set_behind (x ∷ xs) (suc i) k r tid e' h lt = elim (Bool-cases (x.tid == tid)) [
  | inl here ↦ ground arith
  | inr other ↦
      ground (arith, first_index-set_behind xs i (k + 1) r tid e' (ground arith) (omega arith))
]

-- A thread with a storage keeps its entry when another is entered.
pub entered-IsCaller :
    {M : Type 0} (v : MemoryView M) (s : TlsState M) (inv : Inv v s)
    (room : s.max_index + 1 < max_threads) (tid i : ℕ) (t : Storage)
    → IsCaller tid s i t
    → IsCaller tid (entered s) i t
entered-IsCaller v s inv room tid i t c = record {
  started = c.started;
  found =
      first_index-set_behind s.table (s.max_index + 1) 0 i tid empty_tls c.found
        (omega (arith, inv.assigned i t c.has));
  has = tls_at-entered v s inv room i ∙ c.has;
}
