-- ===== src/Tls/Sharing.antt =====
-- Challenge4/tls.c: `tls_clone` gives a thread a storage with the bytes of another's.
use mathlib.Core.Path.{subst}
use operating_system_challen.Base.{
  deref, ℕ, suc, ◌+◌, ◌/◌, ◌%◌, ◌^◌, ◌<◌, ◌≤◌, ◌≡◌, ◌≢◌, refl, sym, ap, ap₂, ◌∙◌, inl, inr, true,
  Option, none, some, List, [], ◌∷◌, ◌++◌, arith, ◌==◌, ltb, if◌then◌else◌, get_elem?, set, length,
  length-set, length-append, get_elem?-set, get_elem?-lt, get_elem?-some, Bool-cases, Option-cases,
  done, bind-done,
}
use operating_system_challen.Tls.Memory.{MemoryView}
use operating_system_challen.Tls.Types.{Page, Storage, TlsState, empty_tls, page_size}
use operating_system_challen.Tls.Table.{tls_at}
use operating_system_challen.Tls.Calls.{share_pages, tls_clone}
use operating_system_challen.Tls.Refs.{pages_in, refs, count}
use operating_system_challen.Tls.Invariant.{Inv, IsCaller, byte_at}
use operating_system_challen.Tls.Lookup.{tls_at-some}
use operating_system_challen.Tls.Writing.{find_index-caller}
use operating_system_challen.Tls.Entry.{
  IsNew, entered, assigned, tls_at-assigned, refs-assigned, find_index-new, entered-Inv, tls_at-new,
  entered-IsCaller, first_index-set-none, first_index-set_other,
}

-- The element behind the first `length pre`.
at_length : (pre : List ℕ) (x : ℕ) (xs : List ℕ) → get_elem? (pre ++ x ∷ xs) (length pre) ≡ some x
at_length [] x xs = refl
at_length (y ∷ ys) x xs = at_length ys x xs

snoc-append : (pre : List ℕ) (x : ℕ) (xs : List ℕ) → (pre ++ x ∷ []) ++ xs ≡ pre ++ x ∷ xs
snoc-append [] x xs = refl
snoc-append (y ∷ ys) x xs = ap (◌∷◌ y) (snoc-append ys x xs)

-- Each page gets as many references more as it has places in the list.
pub share_pages_lem :
    (pre suf : List ℕ) (heap : List Page)
    → ((k q : ℕ) → get_elem? suf k ≡ some q → q < length heap)
    → (heap' : List Page) × (share_pages (length suf) (length pre) (pre ++ suf) heap
        ≡ done (suf, heap'))
      × (length heap' ≡ length heap)
      × ((q : ℕ) (f : Page)
          → get_elem? heap q ≡ some f
          → get_elem? heap' q ≡ some (record f { ref_count = f.ref_count + count q suf }))
unfolding share_pages count
share_pages_lem pre [] heap owned = (heap, refl, refl, λ q f at. ground (arith, at, plus_zero f))
  where
    plus_zero : (f : Page) → f ≡ record f { ref_count = f.ref_count + 0 }
    plus_zero f = ap (λ (n : ℕ). record f { ref_count = n }) (omega arith)
share_pages_lem pre (p ∷ suf) heap owned =
    let lt = owned 0 p refl in
    let (g, at_p) = get_elem?-some heap p lt in
    let heap1 = set heap p (record g { ref_count = g.ref_count + 1 }) in
    let size1 = length-set heap p (record g { ref_count = g.ref_count + 1 }) in
    let (heap', run, size, gets) =
      share_pages_lem (pre ++ p ∷ []) suf heap1
        (λ k q bt. omega (arith, size1, owned (suc k) q bt)) in
    let run' : share_pages (length suf) (length pre + 1) (pre ++ p ∷ suf) heap1
        ≡ done (suf, heap') =
      ap₂ (λ (x : ℕ) (ys : List ℕ). share_pages (length suf) x ys heap1)
        (sym (length-append {0} pre (p ∷ []))) (sym (snoc-append pre p suf))
      ∙ run in
    (
      heap',
      bind-done _ (ap deref (at_length pre p suf))
          ∙ (bind-done _ (ap deref at_p) ∙ bind-done _ run'),
      size ∙ size1,
      λ q f at. elim (Bool-cases (q == p)) [
        | inl same ↦
            let mine : get_elem? heap1 q ≡ some (record f { ref_count = f.ref_count + 1 }) =
              ground (
                arith,
                same,
                at,
                at_p,
                get_elem?-set heap p q (record g { ref_count = g.ref_count + 1 }) lt,
              ) in
            gets q (record f { ref_count = f.ref_count + 1 }) mine
            ∙ ap (λ (n : ℕ). some (record f { ref_count = n })) (ground (arith, same))
        | inr other ↦
            let mine : get_elem? heap1 q ≡ some f = ground (
              arith,
              other,
              at,
              get_elem?-set heap p q (record g { ref_count = g.ref_count + 1 }) lt,
            ) in
            gets q f mine
            ∙ ap (λ (n : ℕ). some (record f { ref_count = f.ref_count + n }))
                (ground (arith, other))
      ],
    )

abbrev address_of : List Page → ℕ → Option ℕ
address_of heap q = elim (get_elem? heap q) [ none ↦ none | some g ↦ some (g.addr) ]

abbrev byte_in : {M : Type 0} → MemoryView M → M → List ℕ → List Page → ℕ → Option ℕ
byte_in v m ps heap o = elim (get_elem? ps (o / page_size)) [
  | none ↦ none
  | some p ↦ elim (address_of heap p) [ none ↦ none | some a ↦ some (v.byte m (a + o % page_size)) ]
]

byte_at-byte_in :
    {M : Type 0} (v : MemoryView M) (s : TlsState M) (k o : ℕ)
    → byte_at v k o s ≡ byte_in v s.memory (pages_in (tls_at k s)) s.heap o
byte_at-byte_in v s k o = elim (Option-cases (tls_at k s)) [
  | inl n ↦ ground (arith, n)
  | inr (t, at) ↦ elim (Option-cases (get_elem? t.pages (o / page_size))) [
    | inl n ↦ ground (arith, n, at)
    | inr (p, bt) ↦ elim (Option-cases (get_elem? s.heap p)) [
      | inl n ↦ ground (arith, n, at, bt)
      | inr (g, ct) ↦ ground (arith, at, bt, ct)
    ]
  ]
]

byte_in-addresses :
    {M : Type 0} (v : MemoryView M) (m : M) (ps : List ℕ) (heap heap' : List Page) (o : ℕ)
    → ((q : ℕ) → address_of heap' q ≡ address_of heap q)
    → byte_in v m ps heap' o ≡ byte_in v m ps heap o
byte_in-addresses v m ps heap heap' o same = elim (Option-cases (get_elem? ps (o / page_size))) [
  | inl n ↦ ground (arith, n)
  | inr (p, at) ↦ rw (byte_in, at, same p) refl
]

-- Two places that have the same pages show the same bytes where no page has moved.
same_bytes :
    {M : Type 0} (v : MemoryView M) (s s' : TlsState M) (k k' o : ℕ)
    → s'.memory ≡ s.memory
    → pages_in (tls_at k' s') ≡ pages_in (tls_at k s)
    → ((q : ℕ) → address_of s'.heap q ≡ address_of s.heap q)
    → byte_at v k' o s' ≡ byte_at v k o s
same_bytes {M} v s s' k k' o memory pages addrs =
    byte_at-byte_in v s' k' o
    ∙ (ap₂ (λ (m : M) (ps : List ℕ). byte_in v m ps s'.heap o) memory pages
        ∙ (byte_in-addresses v s.memory (pages_in (tls_at k s)) s.heap s'.heap o addrs
            ∙ sym (byte_at-byte_in v s k o)))

-- The pages behind a clone.
record IsShared (pages : List ℕ) (heap heap' : List Page) : Type 0 where
  same_length : length heap' ≡ length heap
  gets :
      (q : ℕ) (f : Page)
      → get_elem? heap q ≡ some f
      → get_elem? heap' q ≡ some (record f { ref_count = f.ref_count + count q pages })

page_before :
    {pages : List ℕ} {heap heap' : List Page}
    → IsShared pages heap heap'
    → (q : ℕ) (f' : Page) → get_elem? heap' q ≡ some f'
    → (f : Page) × (get_elem? heap q ≡ some f)
      × (f' ≡ record f { ref_count = f.ref_count + count q pages })
page_before {heap} {heap'} h q f' at =
    let (f, bt) =
      get_elem?-some heap q (omega (arith, get_elem?-lt heap' q f' at, h.same_length)) in
    (f, bt, ground (arith, at, h.gets q f bt))

same_address :
    {pages : List ℕ} {heap heap' : List Page}
    → IsShared pages heap heap'
    → (q : ℕ) → address_of heap' q ≡ address_of heap q
same_address {heap} {heap'} h q = elim (Option-cases (get_elem? heap' q)) [
  | inl n ↦ elim (Option-cases (get_elem? heap q)) [
    | inl n' ↦ ground (arith, n, n')
    | inr (f, at) ↦ absurd (ground (arith, n, h.gets q f at))
  ]
  | inr (f', at) ↦ let (f, bt, same) = page_before h q f' at in ground (arith, at, bt, same)
]

module _ {M : Type 0} (v : MemoryView M) (self : ℕ) (s : TlsState M) (inv : Inv v s)
    (new : IsNew self s) (j : ℕ) (t : Storage) (has : tls_at j s ≡ some t) (heap' : List Page)
    (shared : IsShared t.pages s.heap heap') where
  abbrev cloned : TlsState M
  cloned = assigned v s inv new.room self (record t { tid = self }) heap' s.memory

  tls_at-cloned :
      (k : ℕ)
      → tls_at k cloned ≡ (if s.max_index == k then some (record t { tid = self }) else tls_at k s)
  tls_at-cloned = tls_at-assigned v s inv new.room self (record t { tid = self }) heap' s.memory

  refs-cloned : (q : ℕ) → refs q cloned.table ≡ refs q s.table + count q t.pages
  refs-cloned = refs-assigned v s inv new.room self (record t { tid = self }) heap' s.memory

  -- A storage of the clone has the pages of one that was there, and is as large.
  from_old :
      (k : ℕ) (u : Storage)
      → tls_at k cloned ≡ some u
      → (k' : ℕ) × (w : Storage) × (tls_at k' s ≡ some w)
        × (u.pages ≡ w.pages)
        × (u.page_num ≡ w.page_num)
        × (k ≤ s.max_index)
  from_old k u at = elim (Bool-cases (s.max_index == k)) [
    | inl same ↦
        let copy : record t { tid = self } ≡ u = ground (arith, same, tls_at-cloned k, at) in
        (
          j,
          t,
          has,
          ap (λ (x : Storage). x.pages) (sym copy),
          ap (λ (x : Storage). x.page_num) (sym copy),
          ground (arith, same),
        )
    | inr other ↦
        let own : tls_at k s ≡ some u = ground (arith, other, tls_at-cloned k, at) in
        (k, u, own, refl, refl, omega (arith, inv.assigned k u own))
  ]

  cloned-Inv : Inv v cloned
  cloned-Inv = record {
    entries = length-set (entered s).table s.max_index _ ∙ (entered-Inv v s inv new.room).entries;
    in_table = new.room;
    page_ok = λ p g at.
        let (f, bt, same) = page_before shared p g at in
        subst (λ (x : Page). (v.is_mapped s.memory x.addr ≡ true) × (x.addr % page_size ≡ 0))
          (sym same) (inv.page_ok p f bt);
    apart = λ p q f g at bt same.
        let (f0, at0, same_f) = page_before shared p f at in
        let (g0, bt0, same_g) = page_before shared q g bt in
        inv.apart p q f0 g0 at0 bt0
          (sym (ap (λ (x : Page). x.addr) same_f) ∙ (same ∙ ap (λ (x : Page). x.addr) same_g));
    owned = λ i u k p at bt.
        let (k', w, ct, pages, _, _) = from_old i u at in
        omega (
          arith,
          shared.same_length,
          inv.owned k' w k p ct (subst (λ (x : List ℕ). get_elem? x k ≡ some p) pages bt),
        );
    counted = λ p g at.
        let (f, bt, same) = page_before shared p g at in
        ap (λ (x : Page). x.ref_count) same
        ∙ (ap (λ (x : ℕ). x + count p t.pages) (inv.counted p f bt) ∙ sym (refs-cloned p));
    sized = λ i u at.
        let (k', w, ct, pages, nums, _) = from_old i u at in
        ap length pages ∙ (inv.sized k' w ct ∙ sym nums);
    assigned = λ i u at. let (k', w, ct, pages, nums, le) = from_old i u at in omega (arith, le);
    small = λ i u at.
        let (k', w, ct, pages, nums, _) = from_old i u at in omega (arith, nums, inv.small k' w ct);
  }

module _ {M : Type 0} (v : MemoryView M) (self tid : ℕ) (s : TlsState M) (inv : Inv v s)
    (new : IsNew self s) (j : ℕ) (t : Storage) (c : IsCaller tid s j t) where
  -- In well-formed tables with two entries left, a thread that is in no entry and clones another's
  -- storage has a storage, in the entry of its own, with the same bytes, and no byte of a storage
  -- is changed. The tables stay well-formed: each page of the storage is counted once more.
  pub tls_clone-shares :
      (s' : TlsState M) × (tls_clone self tid s ≡ done (true, s'))
      × Inv v s'
      × ((o : ℕ) → byte_at v s.max_index o s' ≡ byte_at v j o s)
      × ((k o : ℕ) → k ≢ s.max_index → byte_at v k o s' ≡ byte_at v k o s)
      × IsCaller self s' s.max_index (record t { tid = self })
  unfolding tls_clone
  tls_clone-shares =
      let inv2 = entered-Inv v s inv new.room in
      let c2 = entered-IsCaller v s inv new.room tid j t c in
      let (heap', run, size, gets) =
        share_pages_lem [] t.pages s.heap (λ k q at. inv.owned j t k q c.has at) in
      let (own, at_own) =
        get_elem?-some (entered s).table s.max_index (omega (arith, inv2.entries, inv.in_table)) in
      let (other, at_other, other_has) = tls_at-some (entered s) j t c2.has in
      let nothing : own.tls ≡ none = ground (arith, at_own, tls_at-new v s inv new.room) in
      let loops : (if ltb t.page_num (2 ^ 31) then t.page_num else 0) ≡ length t.pages =
        ground (arith, inv.sized j t c.has, inv.small j t c.has) in
      let shared : IsShared t.pages s.heap heap' = record { same_length = size; gets = gets } in
      let mine = tls_at-cloned v self s inv new j t c.has heap' shared in
      let own_tls : tls_at s.max_index (cloned v self s inv new j t c.has heap' shared)
          ≡ some (record t { tid = self }) =
        ground (arith, mine s.max_index) in
      let other_tls : (k : ℕ)
          → k ≢ s.max_index
          → tls_at k (cloned v self s inv new j t c.has heap' shared) ≡ tls_at k s =
        λ k ne. ground (arith, mine k) in
      (
        cloned v self s inv new j t c.has heap' shared,
        bind-done _ (find_index-new self s new)
            ∙ (bind-done _ (find_index-caller tid (entered s) j t c2)
                ∙ (bind-done _ (ap deref at_own)
                    ∙ (bind-done _ (ap deref at_other)
                        ∙ rw (nothing, other_has)
                            (bind-done _
                              (ap (λ (n : ℕ). share_pages n 0 t.pages s.heap) loops ∙ run))))),
        cloned-Inv v self s inv new j t c.has heap' shared,
        λ o.
            same_bytes v s (cloned v self s inv new j t c.has heap' shared) j s.max_index o refl
              (ap pages_in own_tls ∙ sym (ap pages_in c.has)) (same_address shared),
        λ k o ne.
            same_bytes v s (cloned v self s inv new j t c.has heap' shared) k k o refl
              (ap pages_in (other_tls k ne)) (same_address shared),
        record {
          started = new.started;
          found =
              first_index-set-none (entered s).table s.max_index 0 self
                (record { tid = self; tls = some (record t { tid = self }) })
                (first_index-set_other s.table (s.max_index + 1) 0 self empty_tls new.unknown
                  new.proper)
                refl (omega (arith, inv2.entries, inv.in_table))
              ∙ ap some (omega arith);
          has = own_tls;
        },
      )
