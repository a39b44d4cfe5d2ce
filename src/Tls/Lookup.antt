-- ===== src/Tls/Lookup.antt =====
-- Challenge4/tls.c: a page of a storage, and the ways to it.
use operating_system_challen.Base.{
  ℕ, ◌≤◌, ◌<◌, ◌≡◌, ap, ◌∙◌, ◌≢◌, ◌⊎◌, inl, inr, some, arith, get_elem?, length, Option-cases,
  get_elem?-some, Bool-cases, ◌==◌,
}
use operating_system_challen.Tls.Memory.{MemoryView}
use operating_system_challen.Tls.Types.{Page, Storage, Pair, TlsState}
use operating_system_challen.Tls.Table.{tls_at, page_at, page_count}
use operating_system_challen.Tls.Refs.{
  pages_in, pages_of, refs, count, count-two, count-pos, refs-le, refs-two,
}
use operating_system_challen.Tls.Invariant.{Inv}

module _ {M : Type 0} where
  pub tls_at-some :
      (s : TlsState M) (i : ℕ) (t : Storage)
      → tls_at i s ≡ some t
      → (e : Pair) × (get_elem? s.table i ≡ some e) × (e.tls ≡ some t)
  tls_at-some s i t h = elim (Option-cases (get_elem? s.table i)) [
    | inl n ↦ absurd (ground arith)
    | inr (e, at) ↦ (e, at, ground arith)
  ]

  pub page_at-some :
      (s : TlsState M) (i n p : ℕ) (g : Page)
      → page_at i n s ≡ some (p, g)
      → (t : Storage) × (tls_at i s ≡ some t)
        × (get_elem? t.pages n ≡ some p)
        × (get_elem? s.heap p ≡ some g)
  page_at-some s i n p g h = elim (Option-cases (tls_at i s)) [
    | inl e ↦ absurd (ground arith)
    | inr (t, at) ↦ elim (Option-cases (get_elem? t.pages n)) [
      | inl e ↦ absurd (ground arith)
      | inr (q, bt) ↦ elim (Option-cases (get_elem? s.heap q)) [
        | inl e ↦ absurd (ground arith)
        | inr (f, ct) ↦
            let same : q ≡ p = ground arith in (t, at, rw (← same) bt, rw (← same) (ground arith))
      ]
    ]
  ]

  pub some-page_at :
      (s : TlsState M) (i n p : ℕ) (g : Page) (t : Storage)
      → tls_at i s ≡ some t
      → get_elem? t.pages n ≡ some p
      → get_elem? s.heap p ≡ some g
      → page_at i n s ≡ some (p, g)
  some-page_at s i n p g t a b c = ground arith

module _ {M : Type 0} (v : MemoryView M) (s : TlsState M) (inv : Inv v s) where
  -- A page that two places point to has two references.
  pub shared_page :
      (i n j k p : ℕ) (g h : Page)
      → page_at i n s ≡ some (p, g)
      → page_at j k s ≡ some (p, h)
      → (i ≢ j) ⊎ (n ≢ k)
      → 2 ≤ g.ref_count
  shared_page i n j k p g h a b apart =
      let (t, at, bt, ct) = page_at-some s i n p g a in
      let (u, au, bu, cu) = page_at-some s j k p h b in
      let (e, ae, et) = tls_at-some s i t at in
      let (f, af, fu) = tls_at-some s j u au in
      let many : 2 ≤ refs p s.table = elim (Bool-cases (i == j)) [
        | inl same ↦ elim apart [
          | inl ne ↦ absurd (ground arith)
          | inr ne ↦
              let i_j : i ≡ j = ground arith in
              let t_u : t ≡ u = ground (arith, ap (λ (x : ℕ). tls_at x s) i_j) in
              let bu' : get_elem? t.pages k ≡ some p = rw t_u bu in
              let two : 2 ≤ count p t.pages = count-two p t.pages n k bt bu' ne in
              let all : count p (pages_of e) ≤ refs p s.table = refs-le p s.table i e ae in
              omega (arith, two, all, ap (count p) (ap pages_in et))
        ]
        | inr ne ↦
            let both = refs-two p s.table i j e f ae af (ground arith) in
            let one = count-pos p t.pages n bt in
            let other = count-pos p u.pages k bu in
            omega (
              arith,
              both,
              one,
              other,
              ap (count p) (ap pages_in et),
              ap (count p) (ap pages_in fu),
            )
      ] in
      omega (arith, many, inv.counted p g ct)

  -- A storage has each of its pages.
  pub page_at-count :
      (i n k : ℕ)
      → page_count i s ≡ some k
      → n < k
      → (p : ℕ) × (g : Page) × (page_at i n s ≡ some (p, g))
  page_at-count i n k c lt = elim (Option-cases (tls_at i s)) [
    | inl e ↦ absurd (ground arith)
    | inr (t, at) ↦
        let size : length t.pages ≡ k = inv.sized i t at ∙ ground arith in
        let (p, bt) = get_elem?-some t.pages n (omega arith) in
        let (g, ct) = get_elem?-some s.heap p (inv.owned i t n p at bt) in
        (p, g, some-page_at s i n p g t at bt ct)
  ]
