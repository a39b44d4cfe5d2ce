-- ===== src/Tls/Copy/Table.antt =====
-- Challenge4/tls.c: the table and the pages behind a copied page.
use operating_system_challen.Base.{
  ℕ, zero, suc, ◌+◌, ◌-◌, ◌%◌, ◌≤◌, ◌<◌, ◌≡◌, refl, sym, ap, ◌∙◌, ◌≢◌, ◌⊎◌, inl, inr, true, some,
  List, [], ◌∷◌, ◌++◌, arith, ◌==◌, if◌then◌else◌, get_elem?, set, length, length-set,
  length-append, get_elem?-set, get_elem?-set_self, get_elem?-set_ne, get_elem?-lt,
  get_elem?-append, get_elem?-append_last, get_elem?-append_cases, Option-cases, Bool-cases,
  find_index as first_index,
}
use operating_system_challen.Tls.Memory.{MemoryView}
use operating_system_challen.Tls.Types.{Page, Storage, Pair, TlsState, page_size}
use operating_system_challen.Tls.Table.{tls_at, page_at}
use operating_system_challen.Tls.Refs.{
  pages_in, refs, count, refs-set, refs-zero, count-set, count-zero, count-pos, refs-le,
}
use operating_system_challen.Tls.Invariant.{Inv}
use operating_system_challen.Tls.Lookup.{page_at-some, some-page_at}
use operating_system_challen.Tls.Copy.Bytes.{Copied}

-- A change of an entry that keeps its thread does not change what is found.
pub first_index-set :
    (es : List Pair) (i k tid : ℕ) (e e' : Pair)
    → get_elem? es i ≡ some e
    → e'.tid ≡ e.tid
    → first_index (λ (x : Pair). x.tid == tid) (set es i e') k
      ≡ first_index (λ (x : Pair). x.tid == tid) es k
unfolding first_index
first_index-set [] i k tid e e' at same = refl
first_index-set (x ∷ xs) zero k tid e e' at same = ground (arith, same, at)
first_index-set (x ∷ xs) (suc i) k tid e e' at same =
    ground (arith, first_index-set xs i (k + 1) tid e e' at same)

module _ {M : Type 0} (v : MemoryView M) (s : TlsState M) (inv : Inv v s) (i n p : ℕ) (g : Page)
    (t : Storage) (e : Pair) (at_i : get_elem? s.table i ≡ some e) (has : e.tls ≡ some t)
    (at_n : get_elem? t.pages n ≡ some p) (at_p : get_elem? s.heap p ≡ some g) (a : ℕ) where
  abbrev pub new_storage : Storage
  new_storage = record t { pages = set t.pages n (length s.heap) }

  abbrev pub new_pair : Pair
  new_pair = record e { tls = some new_storage }

  abbrev pub new_page : Page
  new_page = record { addr = a; ref_count = 1 }

  abbrev pub old_page : Page
  old_page = record g { ref_count = g.ref_count - 1 }

  abbrev pub copied : M → TlsState M
  copied m = record s {
    table = set s.table i new_pair;
    heap = set s.heap p old_page ++ new_page ∷ [];
    memory = m;
  }

  in_heap : p < length s.heap
  in_heap = get_elem?-lt s.heap p g at_p

  pub tls_at-copied :
      (m : M) (j : ℕ) → tls_at j (copied m) ≡ (if i == j then some new_storage else tls_at j s)
  tls_at-copied m j = elim (Bool-cases (i == j)) [
    | inl same ↦ ground (arith, get_elem?-set s.table i j new_pair (get_elem?-lt s.table i e at_i))
    | inr ne ↦ ground (arith, get_elem?-set s.table i j new_pair (get_elem?-lt s.table i e at_i))
  ]

  heap-old :
      (q : ℕ) (f : Page)
      → get_elem? s.heap q ≡ some f
      → (f' : Page) × (get_elem? (set s.heap p old_page ++ new_page ∷ []) q ≡ some f')
        × (f'.addr ≡ f.addr)
        × (f' ≡ (if p == q then old_page else f))
  heap-old q f at = elim (Bool-cases (p == q)) [
    | inl same ↦ (
      old_page,
      ground (
        arith,
        get_elem?-append (set s.heap p old_page) (new_page ∷ []) q
            (ground (arith, length-set s.heap p old_page, in_heap)),
        get_elem?-set s.heap p q old_page in_heap,
      ),
      ground (arith, at, at_p, ap (get_elem? s.heap) (same_of q same)),
      ground arith,
    )
    | inr ne ↦ (
      f,
      ground (
        arith,
        get_elem?-append (set s.heap p old_page) (new_page ∷ []) q
            (ground (arith, length-set s.heap p old_page, get_elem?-lt s.heap q f at)),
        get_elem?-set s.heap p q old_page in_heap,
      ),
      refl,
      ground arith,
    )
  ]
    where
      same_of : (q : ℕ) → (p == q) ≡ true → p ≡ q
      same_of q h = ground arith

  heap-new :
      (q : ℕ) (f' : Page)
      → get_elem? (set s.heap p old_page ++ new_page ∷ []) q ≡ some f'
      → ((f : Page) × (get_elem? s.heap q ≡ some f)
          × (f'.addr ≡ f.addr)
          × (f' ≡ (if p == q then old_page else f)))
        ⊎ ((q ≡ length s.heap) × (f' ≡ new_page))
  heap-new q f' at = elim (get_elem?-append_cases (set s.heap p old_page) new_page f' q at) [
    | inr (last, same) ↦ inr (last ∙ length-set s.heap p old_page, sym same)
    | inl old ↦ elim (Option-cases (get_elem? s.heap q)) [
      | inl none_there ↦ elim (Bool-cases (p == q)) [
        | inl same ↦
            let p_q : p ≡ q = ground arith in
            absurd (ground (arith, at_p, none_there, ap (get_elem? s.heap) p_q))
        | inr ne ↦ absurd (ground (arith, get_elem?-set s.heap p q old_page in_heap))
      ]
      | inr (f, bt) ↦
          let (f'', ct, addr, eq) = heap-old q f bt in
          let same : f'' ≡ f' = ground (arith, ct, at) in
          inl (f, bt, ap (λ (x : Page). x.addr) (sym same) ∙ addr, sym same ∙ eq)
    ]
  ]

  refs-copied :
      (q : ℕ)
      → refs q (set s.table i new_pair) + (if q == p then 1 else 0)
        ≡ refs q s.table + (if q == length s.heap then 1 else 0)
  refs-copied q = omega (
    arith,
    refs-set q s.table i e new_pair at_i,
    count-set q t.pages n p (length s.heap) at_n,
    ap (count q) (ap pages_in has),
  )

  refs-fresh : refs (length s.heap) s.table ≡ 0
  unfolding count
  refs-fresh = refs-zero (length s.heap) s.table λ j f at. elim (Option-cases f.tls) [
    | inl nothing ↦ ap (count (length s.heap)) (ap pages_in nothing)
    | inr (u, something) ↦
        ap (count (length s.heap)) (ap pages_in something)
        ∙ count-zero (length s.heap) u.pages
            λ k q bt same. let lt = inv.owned j u k q (ground (arith, at)) bt in omega arith
  ]

  pub own : tls_at i s ≡ some t
  own = ground (arith, at_i, has)

  pub page_at-copied :
      (m : M) (j k : ℕ) (q : ℕ) (f : Page)
      → page_at j k s ≡ some (q, f)
      → (j ≢ i) ⊎ (k ≢ n)
      → (f' : Page) × (page_at j k (copied m) ≡ some (q, f')) × (f'.addr ≡ f.addr)
  page_at-copied m j k q f pt away =
      let (u, tu, bu, cu) = page_at-some s j k q f pt in
      let (f', cf, addr, _) = heap-old q f cu in
      elim (Bool-cases (i == j)) [
        | inr ne ↦
            (f', some-page_at (copied m) j k q f' u (tls_at-copied m j ∙ (rw ne tu)) bu cf, addr)
        | inl same ↦
            let i_j : i ≡ j = ground arith in
            let here : tls_at j s ≡ some t = ap (λ (x : ℕ). tls_at x s) (sym i_j) ∙ own in
            let u_t : u ≡ t = ground (arith, here, tu) in
            let off : n ≢ k = elim away [
              | inl no_j ↦ absurd (no_j (sym i_j))
              | inr no_k ↦ λ x. no_k (sym x)
            ] in
            (
              f',
              some-page_at (copied m) j k q f' new_storage (tls_at-copied m j ∙ (rw same refl))
                  (get_elem?-set_ne t.pages n k (length s.heap) off
                    ∙ (ap (λ (x : Storage). get_elem? x.pages k) (sym u_t) ∙ bu))
                  cf,
              addr,
            )
      ]

  pub page_at-here : (m : M) → page_at i n (copied m) ≡ some (length s.heap, new_page)
  page_at-here m =
      some-page_at (copied m) i n (length s.heap) new_page new_storage
        (tls_at-copied m i ∙ ground arith)
        (get_elem?-set_self t.pages n (length s.heap) (get_elem?-lt t.pages n p at_n))
        (ap (get_elem? (set s.heap p old_page ++ new_page ∷ []))
            (sym (length-set s.heap p old_page))
          ∙ get_elem?-append_last (set s.heap p old_page) new_page)

  pub not_new :
      {m : M}
      → Copied v g.addr a s.memory m
      → (q : ℕ) (f : Page) → get_elem? s.heap q ≡ some f
      → f.addr ≡ a
      → ⊥
  not_new c q f at same =
      ground (arith, (inv.page_ok q f at).0, c.fresh, ap (v.is_mapped s.memory) same)

  pub copied-Inv : (m : M) → Copied v g.addr a s.memory m → Inv v (copied m)
  copied-Inv m c = record {
    entries = length-set s.table i new_pair ∙ inv.entries;
    in_table = inv.in_table;
    page_ok = λ q f at. elim (heap-new q f at) [
      | inl (f0, ft, addr, _) ↦
          let ok = inv.page_ok q f0 ft in
          (
            ap (v.is_mapped m) addr ∙ c.still_mapped f0.addr ok.0,
            ap (λ (x : ℕ). x % page_size) addr ∙ ok.1,
          )
      | inr (_, same) ↦
          let addr : f.addr ≡ a = ap (λ (x : Page). x.addr) same in
          (ap (v.is_mapped m) addr ∙ c.mapped, ap (λ (x : ℕ). x % page_size) addr ∙ c.aligned)
    ];
    apart = λ q r f h at bt same. elim (heap-new q f at) [
      | inl (f0, ft, fa, _) ↦ elim (heap-new r h bt) [
        | inl (h0, ht, ha, _) ↦ inv.apart q r f0 h0 ft ht (sym fa ∙ (same ∙ ha))
        | inr (_, new) ↦
            absurd (not_new c q f0 ft (sym fa ∙ (same ∙ ap (λ (x : Page). x.addr) new)))
      ]
      | inr (last, new) ↦ elim (heap-new r h bt) [
        | inl (h0, ht, ha, _) ↦
            absurd (not_new c r h0 ht (sym ha ∙ (sym same ∙ ap (λ (x : Page). x.addr) new)))
        | inr (last', _) ↦ last ∙ sym last'
      ]
    ];
    owned = λ j u k q at bt.
        let longer : length (set s.heap p old_page ++ new_page ∷ []) ≡ length s.heap + 1 =
          length-append {0} (set s.heap p old_page) (new_page ∷ [])
          ∙ ap (λ (x : ℕ). x + 1) (length-set s.heap p old_page) in
        elim (Bool-cases (i == j)) [
          | inr ne ↦
              omega
                (arith, longer, inv.owned j u k q (sym (tls_at-copied m j ∙ (rw ne refl)) ∙ at) bt)
          | inl same ↦
              let u_t : new_storage ≡ u = ground (arith, tls_at-copied m j, at) in
              let bt' : get_elem? (set t.pages n (length s.heap)) k ≡ some q =
                ap (λ (x : Storage). get_elem? x.pages k) u_t ∙ bt in
              elim (Bool-cases (n == k)) [
                | inl here ↦ ground (
                  arith,
                  longer,
                  bt',
                  get_elem?-set t.pages n k (length s.heap) (get_elem?-lt t.pages n p at_n),
                )
                | inr there ↦ omega (
                  arith,
                  longer,
                  inv.owned i t k q own
                      (sym (get_elem?-set_ne t.pages n k (length s.heap) (ground arith)) ∙ bt'),
                )
              ]
        ];
    counted = λ q f at. elim (heap-new q f at) [
      | inl (f0, ft, _, eq) ↦
          let count_q = inv.counted q f0 ft in
          let lt = get_elem?-lt s.heap q f0 ft in
          let many = refs-copied q in
          let some_p : 1 ≤ refs p s.table = omega (
            arith,
            refs-le p s.table i e at_i,
            ap (count p) (ap pages_in has),
            count-pos p t.pages n at_n,
          ) in
          elim (Bool-cases (p == q)) [
            | inl same ↦
                let p_q : p ≡ q = ground arith in
                let f0_g : f0 ≡ g = ground (arith, ft, at_p, ap (get_elem? s.heap) p_q) in
                let count_g : g.ref_count ≡ refs q s.table =
                  ap (λ (x : Page). x.ref_count) (sym f0_g) ∙ count_q in
                ground (arith, eq, many, count_g, lt, some_p, ap (λ (x : ℕ). refs x s.table) p_q)
            | inr ne ↦ ground (arith, eq, many, count_q, lt)
          ]
      | inr (last, new) ↦
          ground
            (arith, new, refs-copied q, refs-fresh, in_heap, ap (λ (x : ℕ). refs x s.table) last)
    ];
    assigned = λ j u at. elim (Bool-cases (i == j)) [
      | inr ne ↦ inv.assigned j u (sym (tls_at-copied m j ∙ (rw ne refl)) ∙ at)
      | inl same ↦ ground (arith, inv.assigned i t own)
    ];
    small = λ j u at. elim (Bool-cases (i == j)) [
      | inr ne ↦ inv.small j u (sym (tls_at-copied m j ∙ (rw ne refl)) ∙ at)
      | inl same ↦
          let u_t : new_storage ≡ u = ground (arith, tls_at-copied m j, at) in
          omega (arith, ap (λ (x : Storage). x.page_num) u_t, inv.small i t own)
    ];
    sized = λ j u at. elim (Bool-cases (i == j)) [
      | inr ne ↦ inv.sized j u (sym (tls_at-copied m j ∙ (rw ne refl)) ∙ at)
      | inl same ↦
          let u_t : new_storage ≡ u = ground (arith, tls_at-copied m j, at) in
          ap (λ (x : Storage). length x.pages) (sym u_t)
          ∙ (length-set t.pages n (length s.heap)
              ∙ (inv.sized i t own ∙ ap (λ (x : Storage). x.page_num) u_t))
    ];
  }
