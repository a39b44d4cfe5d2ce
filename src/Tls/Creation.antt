-- ===== src/Tls/Creation.antt =====
-- Challenge4/tls.c: `tls_create` gives a thread a storage of blank pages.
use mathlib.Core.Path.{subst}
use operating_system_challen.Base.{
  some_injective, ℕ, zero, suc, ◌+◌, ◌%◌, ◌<◌, ◌≤◌, ◌≡◌, ◌≢◌, refl, sym, ap, ◌∙◌, inl, inr, true,
  ◌&&◌, some, List, [], ◌∷◌, ◌++◌, arith, ◌==◌, leb, ltb, if◌then◌else◌, get_elem?, length,
  length-append, get_elem?-lt, get_elem?-append_cases, get_elem?-append, get_elem?-append_last,
  Bool-cases,
}
use operating_system_challen.Tls.Memory.{Memory, MemoryView, IsMemory, closed}
use operating_system_challen.Tls.Types.{Page, page_size}
use operating_system_challen.Tls.Calls.{new_pages}
use operating_system_challen.Tls.Refs.{count}

module _ {M : Type 0} (v : MemoryView M) where
  -- The pages are mapped and apart.
  pub record IsHeap (heap : List Page) (m : M) : Type 0 where
    pub page_ok :
        (p : ℕ) (g : Page)
        → get_elem? heap p ≡ some g
        → (v.is_mapped m g.addr ≡ true) × (g.addr % page_size ≡ 0)
    pub apart :
        (p q : ℕ) (f g : Page)
        → get_elem? heap p ≡ some f
        → get_elem? heap q ≡ some g
        → f.addr ≡ g.addr
        → p ≡ q

  -- `ids` are blank pages behind those of `heap`, which stay as they were.
  pub record AreNew (left : ℕ) (heap : List Page) (m : M) (ids : List ℕ) (heap' : List Page)
      (m' : M) : Type 0 where
    pub heap_ok : IsHeap heap' m'
    pub ids_length : length ids ≡ left
    pub heap_length : length heap' ≡ length heap + left
    pub numbers : (k : ℕ) → k < left → get_elem? ids k ≡ some (length heap + k)
    pub counts :
        (p : ℕ) → count p ids ≡ (if leb (length heap) p && ltb p (length heap + left) then 1 else 0)
    pub old : (p : ℕ) (g : Page) → get_elem? heap p ≡ some g → get_elem? heap' p ≡ some g
    pub kept :
        (p r : ℕ) (g : Page)
        → get_elem? heap p ≡ some g
        → r < page_size
        → v.byte m' (g.addr + r) ≡ v.byte m (g.addr + r)
    pub blank :
        (p : ℕ) (g : Page)
        → get_elem? heap' p ≡ some g
        → length heap ≤ p
        → (g.ref_count ≡ 1) × ((r : ℕ) → r < page_size → v.byte m' (g.addr + r) ≡ 0)

module _ {M : Type 0} (h : Memory M) (v : MemoryView M) (laws : IsMemory h v) where
  -- One more page.
  one_page :
      (heap : List Page) (m m1 : M) (a : ℕ)
      → IsHeap v heap m
      → h.mmap closed m ≡ (a, m1)
      → IsHeap v (heap ++ record { addr = a; ref_count = 1 } ∷ []) m1
        × ((p r : ℕ) (g : Page)
            → get_elem? heap p ≡ some g
            → r < page_size
            → v.byte m1 (g.addr + r) ≡ v.byte m (g.addr + r))
        × ((r : ℕ) → r < page_size → v.byte m1 (a + r) ≡ 0)
  one_page heap m m1 a ok run =
      let pg : Page = record { addr = a; ref_count = 1 } in
      let (aligned, unmapped, mapped, _, zeros, stays, bytes) = laws.mmap_ok closed m m1 a run in
      let other : (p : ℕ) (g : Page) → get_elem? heap p ≡ some g → g.addr ≢ a = λ p g at same.
        let (there, _) = ok.page_ok p g at in
        ground (arith, there, unmapped, ap (v.is_mapped m) same) in
      (
        record {
          page_ok = λ p g at. elim (get_elem?-append_cases heap pg g p at) [
            | inl before ↦ let (there, whole) = ok.page_ok p g before in (stays g.addr there, whole)
            | inr (_, same) ↦ (
              subst (λ (x : Page). v.is_mapped m1 x.addr ≡ true) same mapped,
              subst (λ (x : Page). x.addr % page_size ≡ 0) same aligned,
            )
          ];
          apart = λ p q f g at bt same. elim (get_elem?-append_cases heap pg f p at) [
            | inl before ↦ elim (get_elem?-append_cases heap pg g q bt) [
              | inl before' ↦ ok.apart p q f g before before' same
              | inr (_, own) ↦
                  absurd (other p f before (same ∙ sym (ap (λ (x : Page). x.addr) own)))
            ]
            | inr (here, own) ↦ elim (get_elem?-append_cases heap pg g q bt) [
              | inl before' ↦
                  absurd (other q g before' (sym same ∙ sym (ap (λ (x : Page). x.addr) own)))
              | inr (here', _) ↦ here ∙ sym here'
            ]
          ];
        },
        λ p r g at lt.
            let (_, whole) = ok.page_ok p g at in
            let ne = other p g at in
            elim (Bool-cases (ltb g.addr a)) [
              | inl below ↦ bytes (g.addr + r) (
                  inl (
                    let lower : g.addr < a = ground (arith, below) in
                    omega (arith, aligned, whole)))
              | inr above ↦ bytes (g.addr + r) (
                  inr (
                    let higher : a ≤ g.addr = ground (arith, above) in
                    let apart : g.addr ≢ a = ne in omega (arith, aligned, whole)))
            ],
        zeros,
      )

  more :
      (left : ℕ) (heap heap1 heap' : List Page) (m m1 m' : M) (a : ℕ) (ids : List ℕ)
      → length heap1 ≡ length heap + 1
      → ((p : ℕ) (g : Page) → get_elem? heap p ≡ some g → get_elem? heap1 p ≡ some g)
      → get_elem? heap1 (length heap) ≡ some (record { addr = a; ref_count = 1 })
      → ((p r : ℕ) (g : Page)
          → get_elem? heap p ≡ some g
          → r < page_size
          → v.byte m1 (g.addr + r) ≡ v.byte m (g.addr + r))
      → ((r : ℕ) → r < page_size → v.byte m1 (a + r) ≡ 0)
      → AreNew v left heap1 m1 ids heap' m'
      → AreNew v (suc left) heap m (length heap ∷ ids) heap' m'
  unfolding count
  more left heap heap1 heap' m m1 m' a ids size1 old1 last kept1 blank1 new = record {
    heap_ok = new.heap_ok;
    ids_length = ap suc new.ids_length;
    heap_length = omega (arith, new.heap_length, size1);
    numbers = λ k. number k;
    counts = λ p. ground (arith, new.counts p, size1);
    old = λ p g at. new.old p g (old1 p g at);
    kept = λ p r g at lt. new.kept p r g (old1 p g at) lt ∙ kept1 p r g at lt;
    blank = λ p g at le. elim (Bool-cases (p == length heap)) [
      | inl here ↦
          let same : pg ≡ g = some_injective pg g (
            sym (new.old (length heap) pg last)
            ∙ (ap (get_elem? heap') (ground (arith, here)) ∙ at)) in
          (
            sym (ap (λ (x : Page). x.ref_count) same),
            λ r lt.
                subst (λ (x : Page). v.byte m' (x.addr + r) ≡ 0) same
                  (new.kept (length heap) r pg last lt ∙ blank1 r lt),
          )
      | inr there ↦ new.blank p g at (ground (arith, there, size1))
    ];
  }
    where
      pg : Page
      pg = record { addr = a; ref_count = 1 }

      number : (k : ℕ) → k < suc left → get_elem? (length heap ∷ ids) k ≡ some (length heap + k)
      number zero lt = ap some (omega arith)
      number (suc k) lt = new.numbers k (omega arith) ∙ ap some (omega (arith, size1))

  pub new_pages-AreNew :
      (left : ℕ) (heap : List Page) (m : M)
      → IsHeap v heap m
      → (ids : List ℕ) × (heap' : List Page) × (m' : M) × (new_pages h left heap m
          ≡ (ids, heap', m'))
        × AreNew v left heap m ids heap' m'
  unfolding new_pages count
  new_pages-AreNew zero heap m ok = (
    [],
    heap,
    m,
    refl,
    record {
      heap_ok = ok;
      ids_length = refl;
      heap_length = omega arith;
      numbers = λ k lt. absurd (omega arith);
      counts = λ p. ground arith;
      old = λ p g at. at;
      kept = λ p r g at lt. refl;
      blank = λ p g at le. absurd (omega (arith, get_elem?-lt heap p g at));
    },
  )
  new_pages-AreNew (suc left) heap m ok =
      let a = (h.mmap closed m).0 in
      let m1 = (h.mmap closed m).1 in
      let pg : Page = record { addr = a; ref_count = 1 } in
      let heap1 = heap ++ pg ∷ [] in
      let size1 : length heap1 ≡ length heap + 1 = length-append {0} heap (pg ∷ []) in
      let (ok1, kept1, blank1) = one_page heap m m1 a ok refl in
      let (ids, heap', m', run, new) = new_pages-AreNew left heap1 m1 ok1 in
      let old1 : (p : ℕ) (g : Page) → get_elem? heap p ≡ some g → get_elem? heap1 p ≡ some g =
        λ p g at. get_elem?-append heap (pg ∷ []) p (get_elem?-lt heap p g at) ∙ at in
      (
        length heap ∷ ids,
        heap',
        m',
        ap (λ (x : List ℕ × List Page × M). (length heap ∷ x.0, x.1, x.2)) run,
        more left heap heap1 heap' m m1 m' a ids size1 old1 (get_elem?-append_last heap pg) kept1
            blank1 new,
      )
