-- ===== src/Tls/Copy/Result.antt =====
-- Challenge4/tls.c: a copy changes no byte that a thread sees, and leaves a page to write to.
use operating_system_challen.Base.{
  deref, ℕ, ◌+◌, ◌-◌, ◌/◌, ◌%◌, ◌≤◌, ◌<◌, ◌≡◌, refl, sym, ap, ap₂, ◌∙◌, ◌≢◌, ◌⊎◌, inl, inr, false,
  ◌&&◌, none, some, List, [], ◌∷◌, ◌++◌, arith, ◌==◌, ltb, get_elem?, get_elem?-some,
  get_elem?-set_ne, set, length, Option-cases, Bool-cases, done, bind-done, if-true, if-false,
}
use operating_system_challen.Tls.Memory.{Memory, MemoryView, IsMemory, closed, writable}
use operating_system_challen.Tls.Types.{Page, Storage, Pair, TlsState, page_size}
use operating_system_challen.Tls.Table.{tls_at, page_at, set_page}
use operating_system_challen.Tls.Pages.{copy_page, open_page, next_page}
use operating_system_challen.Tls.Invariant.{Inv, Wrote, byte_at}
use operating_system_challen.Tls.Lookup.{page_at-some, tls_at-some, some-page_at}
use operating_system_challen.Tls.Bytes.{protect_ok}
use operating_system_challen.Tls.Copy.Bytes.{Copied, Copied-memory}
use operating_system_challen.Tls.Copy.Table.{
  copied, copied-Inv, page_at-copied, page_at-here, not_new, tls_at-copied, new_storage, new_pair,
  own, first_index-set,
}

apart_of :
    {i n : ℕ} (j q : ℕ) → ((j == i) && (q / page_size == n)) ≡ false → (j ≢ i) ⊎ (q / page_size ≢ n)
apart_of {i} j q e = elim (Bool-cases (j == i)) [
  | inl same ↦ inr (ground arith)
  | inr ne ↦ inl (ground arith)
]

-- Bytes of a page are not on another.
far :
    {a : ℕ} (b q : ℕ)
    → b ≢ a
    → b % page_size ≡ 0
    → a % page_size ≡ 0
    → (b + q % page_size < a) ⊎ (a + 4096 ≤ b + q % page_size)
far {a} b q ne ab aa = elim (Bool-cases (ltb b a)) [
  | inl lt ↦ inl (ground arith)
  | inr ge ↦ inr (ground arith)
]

-- Steps that change nothing, behind and before others.
pub and_nothing :
    {M : Type 0} {v : MemoryView M} (i o : ℕ) {bytes : List ℕ} (s s1 s2 : TlsState M)
    → Wrote v i o bytes s s1
    → Wrote v i o [] s1 s2
    → Wrote v i o bytes s s2
and_nothing {v} i o s s1 s2 a b = record {
  seen = λ j q. ground (arith, a.seen j q, b.seen j q);
  same_sizes = λ j. b.same_sizes j ∙ a.same_sizes j;
  same_threads = λ tid. b.same_threads tid ∙ a.same_threads tid;
  same_first = b.same_first ∙ a.same_first;
}

pub nothing_and :
    {M : Type 0} {v : MemoryView M} (i o : ℕ) {bytes : List ℕ} (s s1 s2 : TlsState M)
    → Wrote v i o [] s s1
    → Wrote v i o bytes s1 s2
    → Wrote v i o bytes s s2
nothing_and {v} i o s s1 s2 a b = record {
  seen = λ j q. ground (arith, a.seen j q, b.seen j q);
  same_sizes = λ j. b.same_sizes j ∙ a.same_sizes j;
  same_threads = λ tid. b.same_threads tid ∙ a.same_threads tid;
  same_first = b.same_first ∙ a.same_first;
}

-- The page `n` of the storage at `i` is its own, and open for writing.
pub record IsOpened {M : Type 0} (v : MemoryView M) (i n : ℕ) (s : TlsState M) (p : ℕ) (g : Page)
    : Type 0 where
  pub page : page_at i n s ≡ some (p, g)
  pub single : g.ref_count < 2
  pub writes : v.access s.memory g.addr ≡ writable

set_page_lem :
    {M : Type 0} (s : TlsState M) (i n p : ℕ) (e : Pair) (t : Storage)
    → get_elem? s.table i ≡ some e
    → e.tls ≡ some t
    → set_page i n p s ≡ record s {
      table = set s.table i (record e { tls = some (record t { pages = set t.pages n p }) });
    }
unfolding set_page
set_page_lem s i n p e t at has = ground (arith, at, has)

module _ {M : Type 0} (v : MemoryView M) (s : TlsState M) (inv : Inv v s) (i n p : ℕ) (g : Page)
    (t : Storage) (e_i : Pair) (at_i : get_elem? s.table i ≡ some e_i) (has : e_i.tls ≡ some t)
    (at_n : get_elem? t.pages n ≡ some p) (at_p : get_elem? s.heap p ≡ some g) (a : ℕ)
    (pt : page_at i n s ≡ some (p, g)) (m : M) (c : Copied v g.addr a s.memory m) where
  abbrev pub after : TlsState M
  after = copied v s inv i n p g t e_i at_i has at_n at_p a m

  -- A storage has its pages already.
  owned_page :
      (j k q : ℕ) (u : Storage)
      → tls_at j s ≡ some u
      → get_elem? u.pages k ≡ some q
      → (f : Page) × (page_at j k s ≡ some (q, f))
  owned_page j k q u tu bu =
      let (f, cu) = get_elem?-some s.heap q (inv.owned j u k q tu bu) in
      (f, some-page_at s j k q f u tu bu cu)

  no_page : (j k : ℕ) → page_at j k s ≡ none → page_at j k after ≡ none
  no_page j k nothing = elim (Option-cases (page_at j k after)) [
    | inl e ↦ e
    | inr ((q, f), e) ↦
        let (u, tu, bu, cu) = page_at-some after j k q f e in
        let moved = tls_at-copied v s inv i n p g t e_i at_i has at_n at_p a m j in
        elim (Bool-cases (i == j)) [
          | inr ne ↦
              let (x, there) = owned_page j k q u (sym (moved ∙ (rw ne refl)) ∙ tu) bu in
              absurd (ground (arith, there, nothing))
          | inl same ↦
              let u_t : new_storage v s inv i n p g t e_i at_i has at_n at_p a ≡ u =
                ground (arith, moved, tu) in
              let j_i : j ≡ i = ground arith in
              let off : n ≢ k = λ n_k.
                ground (arith, pt, nothing, ap₂ (λ (x y : ℕ). page_at x y s) j_i (sym n_k)) in
              let bt : get_elem? t.pages k ≡ some q =
                sym (get_elem?-set_ne t.pages n k (length s.heap) off)
                ∙ (ap (λ (x : Storage). get_elem? x.pages k) u_t ∙ bu) in
              let (x, there) =
                owned_page j k q t
                  (ap (λ (x : ℕ). tls_at x s) j_i ∙ own v s inv i n p g t e_i at_i has at_n at_p a)
                  bt in
              absurd (ground (arith, there, nothing))
        ]
  ]

  seen : (j q : ℕ) → byte_at v j q after ≡ byte_at v j q s
  seen j q = elim (Option-cases (page_at j (q / page_size) s)) [
    | inl nothing ↦ ground (arith, nothing, no_page j (q / page_size) nothing)
    | inr ((k, f), found) ↦ elim (Bool-cases ((j == i) && (q / page_size == n))) [
      | inl here ↦
          let same_j : j ≡ i = ground arith in
          let same_n : q / page_size ≡ n = ground arith in
          ground (
            arith,
            ap₂ (λ (x y : ℕ). page_at x y s) same_j same_n,
            ap₂ (λ (x y : ℕ). page_at x y after) same_j same_n,
            pt,
            page_at-here v s inv i n p g t e_i at_i has at_n at_p a m,
            c.copy (q % page_size) (omega arith),
          )
      | inr there ↦
          let (f', found', addr) =
            page_at-copied v s inv i n p g t e_i at_i has at_n at_p a m j (q / page_size) k f found
              (apart_of j q there) in
          let (u, _, _, cu) = page_at-some s j (q / page_size) k f found in
          let away : f.addr ≢ a = not_new v s inv i n p g t e_i at_i has at_n at_p a c k f cu in
          let af = (inv.page_ok k f cu).1 in
          let aa = c.aligned in
          ground (
            arith,
            found,
            found',
            addr,
            c.others (f.addr + q % page_size) (far f.addr q away af aa),
          )
    ]
  ]

  pub copied-Wrote : (o : ℕ) → Wrote v i o [] s after
  copied-Wrote o = record {
    seen = λ j q. ground (arith, seen j q);
    same_sizes = λ j. elim (Bool-cases (i == j)) [
      | inl same ↦
          let i_j : i ≡ j = ground arith in
          ground (
            arith,
            tls_at-copied v s inv i n p g t e_i at_i has at_n at_p a m j,
            ap (λ (x : ℕ). tls_at x s) i_j,
            own v s inv i n p g t e_i at_i has at_n at_p a,
          )
      | inr ne ↦ ground (arith, tls_at-copied v s inv i n p g t e_i at_i has at_n at_p a m j)
    ];
    same_threads = λ tid.
        first_index-set s.table i 0 tid e_i (new_pair v s inv i n p g t e_i at_i has at_n at_p a)
          at_i refl;
    same_first = refl;
  }

module _ {M : Type 0} (h : Memory M) (v : MemoryView M) (laws : IsMemory h v) (s : TlsState M)
    (inv : Inv v s) (i n p : ℕ) (g : Page) (at : page_at i n s ≡ some (p, g)) where
  pub copy_page_ok :
      (s' : TlsState M) × (copy_page h i n s ≡ done s')
      × Inv v s'
      × ((o : ℕ) → Wrote v i o [] s s')
      × ((p' : ℕ) × (g' : Page) × IsOpened v i n s' p' g')
  unfolding copy_page
  copy_page_ok =
      let (t, own, at_n, at_p) = page_at-some s i n p g at in
      let (e, at_i, has) = tls_at-some s i t own in
      let ok = inv.page_ok p g at_p in
      let a = (h.mmap writable s.memory).0 in
      let (bytes, m3, loaded, stored, c) = Copied-memory h v laws g.addr s.memory ok.0 ok.1 in
      let m4 = h.mprotect g.addr closed m3 in
      let s' = copied v s inv i n p g t e at_i has at_n at_p a m4 in
      (
        s',
        rw (at) (
            rw loaded (
              rw stored (
                rw
                  (set_page_lem
                    (record s {
                      heap =
                          set s.heap p (record g { ref_count = g.ref_count - 1 })
                          ++ record { addr = a; ref_count = 1 } ∷ [];
                    })
                    i n (length s.heap) e t at_i has)
                  refl))),
        copied-Inv v s inv i n p g t e at_i has at_n at_p a m4 c,
        copied-Wrote v s inv i n p g t e at_i has at_n at_p a at m4 c,
        (
          length s.heap,
          record { addr = a; ref_count = 1 },
          record {
            page = page_at-here v s inv i n p g t e at_i has at_n at_p a m4;
            single = omega arith;
            writes = c.writes;
          },
        ),
      )

  pub open_page_ok :
      (s' : TlsState M) × (open_page h i n s ≡ done s')
      × Inv v s'
      × ((o : ℕ) → Wrote v i o [] s s')
      × ((p' : ℕ) × (g' : Page) × IsOpened v i n s' p' g')
  unfolding open_page
  open_page_ok = elim (Bool-cases (ltb 1 g.ref_count)) [
    | inl many ↦
        let (s', run, inv', wrote, opened) = copy_page_ok in
        (s', bind-done _ (ap deref at) ∙ (if-true _ _ many ∙ run), inv', wrote, opened)
    | inr single ↦
        let (s', run, _, inv', wrote, page, acc, _) =
          protect_ok h v laws s inv i n p g at writable in
        (
          s',
          bind-done _ (ap deref at) ∙ (if-false _ _ single ∙ run),
          inv',
          wrote,
          (p, g, record { page = page; single = ground arith; writes = acc }),
        )
  ]

-- From page `n` to the next, which is opened and, where it is shared, copied.
module _ {M : Type 0} (h : Memory M) (v : MemoryView M) (laws : IsMemory h v) where
  pub next_page_ok :
      (s : TlsState M) (i n p q : ℕ) (g f : Page)
      → Inv v s
      → page_at i n s ≡ some (p, g)
      → page_at i (n + 1) s ≡ some (q, f)
      → (s' : TlsState M) × (next_page h i n s ≡ done s')
        × Inv v s'
        × ((o : ℕ) → Wrote v i o [] s s')
        × ((p' : ℕ) × (g' : Page) × IsOpened v i (n + 1) s' p' g')
  unfolding next_page
  next_page_ok s i n p q g f inv at bt =
      let (s1, run1, eq1, inv1, wrote1, _, _, _) = protect_ok h v laws s inv i n p g at closed in
      let bt1 : page_at i (n + 1) s1 ≡ some (q, f) = ap (page_at i (n + 1)) eq1 ∙ bt in
      let (s2, run2, eq2, inv2, wrote2, page2, acc2, _) =
        protect_ok h v laws s1 inv1 i (n + 1) q f bt1 writable in
      elim (Bool-cases (ltb 1 f.ref_count)) [
        | inl many ↦
            let (s3, run3, inv3, wrote3, opened) =
              copy_page_ok h v laws s2 inv2 i (n + 1) q f page2 in
            (
              s3,
              bind-done _ run1
                  ∙ (bind-done _ (ap deref bt1) ∙ (if-true _ _ many ∙ (bind-done _ run2 ∙ run3))),
              inv3,
              λ o.
                  and_nothing i o s s1 s3 (wrote1 o)
                    (and_nothing i o s1 s2 s3 (wrote2 o) (wrote3 o)),
              opened,
            )
        | inr single ↦ (
          s2,
          bind-done _ run1 ∙ (bind-done _ (ap deref bt1) ∙ (if-false _ _ single ∙ run2)),
          inv2,
          λ o. and_nothing i o s s1 s2 (wrote1 o) (wrote2 o),
          (q, f, record { page = page2; single = ground arith; writes = acc2 }),
        )
      ]
