-- ===== src/Tls/Allocation.antt =====
-- Challenge4/tls.c: what a thread has behind `tls_create`.
use mathlib.Core.Path.{subst}
use operating_system_challen.Base.{
  deref, ℕ, ◌+◌, ◌*◌, ◌/◌, ◌%◌, ◌^◌, ◌<◌, ◌≤◌, ◌≡◌, ◌≢◌, ◌⊎◌, refl, sym, ap, ap₂, ◌∙◌, inl, inr,
  true, false, Option, none, some, List, arith, ◌==◌, ltb, get_elem?, length, length-set,
  get_elem?-lt, get_elem?-some, Bool-cases, Option-cases, done, bind-done, if-false, pos,
}
use operating_system_challen.Tls.Memory.{Memory, MemoryView, IsMemory}
use operating_system_challen.Tls.Types.{Page, Storage, TlsState, empty_tls, page_size}
use operating_system_challen.Tls.Sizes.{round_up, round_up-ceiling}
use operating_system_challen.Tls.Table.{tls_at}
use operating_system_challen.Tls.Calls.{tls_create}
use operating_system_challen.Tls.Refs.{pages_in, refs, count, refs-zero, count-zero}
use operating_system_challen.Tls.Invariant.{Inv, IsCaller, byte_at}
use operating_system_challen.Tls.Lookup.{some-page_at}
use operating_system_challen.Tls.Entry.{
  IsNew, entered, assigned, tls_at-assigned, refs-assigned, find_index-new, entered-Inv, tls_at-new,
  first_index-set-none, first_index-set_other,
}
use operating_system_challen.Tls.Creation.{AreNew, new_pages-AreNew}

module _ {M : Type 0} (v : MemoryView M) (tid size pages : ℕ) (s : TlsState M) (inv : Inv v s)
    (new : IsNew tid s) (few : pages < 2 ^ 20) (ids : List ℕ) (heap' : List Page) (m' : M)
    (are_new : AreNew v pages s.heap s.memory ids heap' m') where
  abbrev storage : Storage
  storage = record { tid = tid; size = size; page_num = pages; pages = ids }

  abbrev created : TlsState M
  created = assigned v s inv new.room tid storage heap' m'

  -- A storage is the new one, or one that was there.
  new_or_old :
      (k : ℕ) (u : Storage)
      → tls_at k created ≡ some u
      → ((storage ≡ u) × (k ≡ s.max_index)) ⊎ (tls_at k s ≡ some u)
  new_or_old k u at = elim (Bool-cases (s.max_index == k)) [
    | inl same ↦ inl (
      ground (arith, same, tls_at-assigned v s inv new.room tid storage heap' m' k, at),
      ground (arith, same),
    )
    | inr other ↦
        inr (ground (arith, other, tls_at-assigned v s inv new.room tid storage heap' m' k, at))
  ]

  id_of : (k p : ℕ) → get_elem? ids k ≡ some p → p ≡ length s.heap + k
  id_of k p at =
      let lt = get_elem?-lt ids k p at in
      ground (arith, at, are_new.numbers k (omega (arith, lt, are_new.ids_length)))

  refs-outside : (p : ℕ) → length s.heap ≤ p → refs p s.table ≡ 0
  unfolding count
  refs-outside p le = refs-zero p s.table (λ i e at. elim (Option-cases e.tls) [
    | inl nothing ↦ ap (λ (x : Option Storage). count p (pages_in x)) nothing
    | inr (t, has) ↦
        let own : tls_at i s ≡ some t = ground (arith, at, has) in
        ap (λ (x : Option Storage). count p (pages_in x)) has
        ∙ count-zero p t.pages (λ k q bt same. omega (arith, inv.owned i t k q own bt, same))
  ])

  counted_new : (p : ℕ) (g : Page) → get_elem? heap' p ≡ some g → g.ref_count ≡ refs p created.table
  counted_new p g at = elim (Bool-cases (ltb p (length s.heap))) [
    | inl before ↦
        let (f, bt) = get_elem?-some s.heap p (ground (arith, before)) in
        let same = are_new.old p f bt in
        let number = inv.counted p f bt in
        ground (
          arith,
          same,
          at,
          number,
          before,
          refs-assigned v s inv new.room tid storage heap' m' p,
          are_new.counts p,
        )
    | inr behind ↦
        let (one, _) = are_new.blank p g at (ground (arith, behind)) in
        let lt = get_elem?-lt heap' p g at in
        ground (
          arith,
          one,
          lt,
          are_new.heap_length,
          behind,
          refs-outside p (ground (arith, behind)),
          refs-assigned v s inv new.room tid storage heap' m' p,
          are_new.counts p,
        )
  ]

  created-Inv : Inv v created
  created-Inv = record {
    entries =
        length-set (entered s).table s.max_index (record { tid = tid; tls = some storage })
        ∙ (entered-Inv v s inv new.room).entries;
    in_table = new.room;
    page_ok = are_new.heap_ok.page_ok;
    apart = are_new.heap_ok.apart;
    owned = λ i u k p at bt. elim (new_or_old i u at) [
      | inl (same, _) ↦
          let own : get_elem? ids k ≡ some p =
            subst (λ (x : Storage). get_elem? x.pages k ≡ some p) (sym same) bt in
          omega (
            arith,
            id_of k p own,
            are_new.heap_length,
            are_new.ids_length,
            get_elem?-lt ids k p own,
          )
      | inr before ↦ omega (arith, are_new.heap_length, inv.owned i u k p before bt)
    ];
    counted = counted_new;
    sized = λ i u at. elim (new_or_old i u at) [
      | inl (same, _) ↦ subst (λ (x : Storage). length x.pages ≡ x.page_num) same are_new.ids_length
      | inr before ↦ inv.sized i u before
    ];
    assigned = λ i u at. elim (new_or_old i u at) [
      | inl (_, here) ↦ omega (arith, here)
      | inr before ↦ omega (arith, inv.assigned i u before)
    ];
    small = λ i u at. elim (new_or_old i u at) [
      | inl (same, _) ↦ subst (λ (x : Storage). x.page_num < 2 ^ 20) same few
      | inr before ↦ inv.small i u before
    ];
  }

  tls_at-created : tls_at s.max_index created ≡ some storage
  tls_at-created = ground (arith, tls_at-assigned v s inv new.room tid storage heap' m' s.max_index)

  created-IsCaller : IsCaller tid created s.max_index storage
  created-IsCaller =
      let inv2 = entered-Inv v s inv new.room in
      record {
        started = new.started;
        found =
            first_index-set-none (entered s).table s.max_index 0 tid
              (record { tid = tid; tls = some storage })
              (first_index-set_other s.table (s.max_index + 1) 0 tid empty_tls new.unknown
                new.proper)
              refl (omega (arith, inv2.entries, inv.in_table))
            ∙ ap some (omega arith);
        has = tls_at-created;
      }

  new_byte : (o : ℕ) → o < pages * page_size → byte_at v s.max_index o created ≡ some 0
  new_byte o lt =
      let n = o / page_size in
      let (g, at) = get_elem?-some heap' (length s.heap + n) (omega (arith, are_new.heap_length)) in
      let page =
        some-page_at created s.max_index n (length s.heap + n) g storage tls_at-created
          (are_new.numbers n (omega arith)) at in
      let (_, zeros) = are_new.blank (length s.heap + n) g at (omega arith) in
      let zero_there = zeros (o % page_size) (omega arith) in ground (arith, page, zero_there)

  old_byte : (k o : ℕ) → k ≢ s.max_index → byte_at v k o created ≡ byte_at v k o s
  old_byte k o ne =
      let same : tls_at k created ≡ tls_at k s =
        ground (arith, ne, tls_at-assigned v s inv new.room tid storage heap' m' k) in
      elim (Option-cases (tls_at k s)) [
        | inl n ↦ ground (arith, n, same)
        | inr (t, has) ↦ elim (Option-cases (get_elem? t.pages (o / page_size))) [
          | inl n ↦ ground (arith, n, has, same)
          | inr (p, at) ↦
              let (g, bt) = get_elem?-some s.heap p (inv.owned k t (o / page_size) p has at) in
              let after = are_new.old p g bt in
              let byte = are_new.kept p (o % page_size) g bt (omega arith) in
              ground (arith, has, same, at, bt, after, byte)
        ]
      ]

module _ {M : Type 0} (h : Memory M) (v : MemoryView M) (laws : IsMemory h v) (tid size pages : ℕ)
    (s : TlsState M) (inv : Inv v s) (new : IsNew tid s) (few : pages < 2 ^ 20) where
  tls_create-pages :
      size ≢ 0
      → round_up size ≡ pos pages
      → (s' : TlsState M) × (t : Storage) × (tls_create h tid size s ≡ done (true, s'))
        × Inv v s'
        × IsCaller tid s' s.max_index t
        × (t.page_num ≡ pages)
        × ((o : ℕ) → o < pages * page_size → byte_at v s.max_index o s' ≡ some 0)
        × ((k o : ℕ) → k ≢ s.max_index → byte_at v k o s' ≡ byte_at v k o s)
  unfolding tls_create
  tls_create-pages some_bytes rounded =
      let (ids, heap', m', run, are_new) =
        new_pages-AreNew h v laws pages s.heap s.memory
          (record { page_ok = inv.page_ok; apart = inv.apart }) in
      let inv2 = entered-Inv v s inv new.room in
      let (own, at_own) =
        get_elem?-some (entered s).table s.max_index (omega (arith, inv2.entries, inv.in_table)) in
      let nothing : own.tls ≡ none = ground (arith, at_own, tls_at-new v s inv new.room) in
      let not_empty : (size == 0) ≡ false = ground (arith, some_bytes) in
      (
        created v tid size pages s inv new few ids heap' m' are_new,
        storage v tid size pages s inv new few ids heap' m' are_new,
        bind-done _ (find_index-new tid s new)
            ∙ (bind-done _ (ap deref at_own)
                ∙ (if-false _ _ not_empty
                    ∙ rw (nothing, rounded)
                        (ap₂
                          (λ (n : ℕ) (x : List ℕ × List Page × M). done (
                            true,
                            assigned v s inv new.room tid
                                (record { tid = tid; size = size; page_num = n; pages = x.0 }) x.1
                                x.2,
                          ))
                          (omega arith) run))),
        created-Inv v tid size pages s inv new few ids heap' m' are_new,
        created-IsCaller v tid size pages s inv new few ids heap' m' are_new,
        refl,
        new_byte v tid size pages s inv new few ids heap' m' are_new,
        old_byte v tid size pages s inv new few ids heap' m' are_new,
      )

-- In well-formed tables with two entries left, a thread that is in no entry creates a storage of 1
-- to 2^24 - 1 bytes: it has the pages that hold them, whose bytes are 0, in an entry of its own.
-- No byte of another storage is changed, and the tables stay well-formed.
pub tls_create-blank :
    {M : Type 0} (h : Memory M) (v : MemoryView M) (laws : IsMemory h v) (tid size : ℕ)
    (s : TlsState M)
    → Inv v s
    → IsNew tid s
    → size ≢ 0
    → size < 2 ^ 24
    → (s' : TlsState M) × (t : Storage) × (tls_create h tid size s ≡ done (true, s'))
      × Inv v s'
      × IsCaller tid s' s.max_index t
      × (t.page_num ≡ (size + 4095) / page_size)
      × ((o : ℕ) → o < (size + 4095) / page_size * page_size → byte_at v s.max_index o s' ≡ some 0)
      × ((k o : ℕ) → k ≢ s.max_index → byte_at v k o s' ≡ byte_at v k o s)
tls_create-blank h v laws tid size s inv new some_bytes small =
    tls_create-pages h v laws tid size ((size + 4095) / page_size) s inv new (omega arith)
      some_bytes (round_up-ceiling size small)
