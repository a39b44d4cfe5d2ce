-- ===== src/Tls/ReadLoop.antt =====
-- Challenge4/tls.c: the loop of `boundaryRead`.
use operating_system_challen.Base.{
  deref, ℕ, zero, suc, ◌+◌, ◌*◌, ◌/◌, ◌%◌, ◌≤◌, ◌<◌, ◌≡◌, refl, sym, ap, ◌∙◌, ◌≢◌, inl, inr, some,
  List, [], ◌∷◌, arith, leb, length, get_or, tabulate, Bool-cases, done, bind-done,
}
use operating_system_challen.Tls.Memory.{Memory, MemoryView, IsMemory, closed, readable}
use operating_system_challen.Tls.Types.{Page, TlsState, page_size}
use operating_system_challen.Tls.Table.{page_at, page_count}
use operating_system_challen.Tls.Transfer.{read_loop}
use operating_system_challen.Tls.Invariant.{Inv, Wrote, byte_at}
use operating_system_challen.Tls.Lookup.{page_at-some, page_at-count}
use operating_system_challen.Tls.Bytes.{protect_ok, Wrote-nothing}
use operating_system_challen.Tls.Copy.Result.{and_nothing}
use operating_system_challen.Tls.Loops.{IsAt, IsAt-next, IsAt-first, at_end}

-- `out` are the `n` bytes at offset `o` of the storage at `i`.
pub record DidRead {M : Type 0} (v : MemoryView M) (i o n : ℕ) (out : List ℕ) (s : TlsState M)
    : Type 0 where
  pub size : length out ≡ n
  pub bytes : (k : ℕ) → k < n → byte_at v i (o + k) s ≡ some (get_or out k 0)

-- The page `n` of the storage at `i` can be read.
pub record IsReadable {M : Type 0} (v : MemoryView M) (i n : ℕ) (s : TlsState M) (p : ℕ) (g : Page)
    : Type 0 where
  pub page : page_at i n s ≡ some (p, g)
  pub reads : v.access s.memory g.addr ≢ closed

module _ {M : Type 0} (v : MemoryView M) where
  pub byte_at-page :
      (s : TlsState M) (i n r p : ℕ) (g : Page)
      → page_at i n s ≡ some (p, g)
      → r < page_size
      → byte_at v i (n * page_size + r) s ≡ some (v.byte s.memory (g.addr + r))
  byte_at-page s i n r p g at lt =
      let page : (n * page_size + r) / page_size ≡ n = omega arith in
      let rest : (n * page_size + r) % page_size ≡ r = omega arith in
      ground (
        arith,
        at,
        ap (λ (x : ℕ). page_at i x s) page,
        ap (λ (x : ℕ). v.byte s.memory (g.addr + x)) rest,
      )

  DidRead-cons :
      (i o o' n b : ℕ) (out : List ℕ) (s s' : TlsState M)
      → byte_at v i o s ≡ some b
      → o' ≡ o + 1
      → ((q : ℕ) → byte_at v i q s' ≡ byte_at v i q s)
      → DidRead v i o' n out s'
      → DidRead v i o (suc n) (b ∷ out) s
  DidRead-cons i o o' n b out s s' first next same rest = record {
    size = ap suc rest.size;
    bytes = λ k lt. each k lt;
  }
    where
      each : (k : ℕ) → k < suc n → byte_at v i (o + k) s ≡ some (get_or (b ∷ out) k 0)
      each zero lt = ap (λ (x : ℕ). byte_at v i x s) (omega arith) ∙ first
      each (suc k) lt =
          ap (λ (x : ℕ). byte_at v i x s) (omega arith)
          ∙ (sym (same (o' + k)) ∙ rest.bytes k (omega arith))

module _ {M : Type 0} (h : Memory M) (v : MemoryView M) (laws : IsMemory h v) where
  load_byte :
      (i n r addr p : ℕ) (g : Page) (s : TlsState M)
      → Inv v s
      → IsReadable v i n s p g
      → addr ≡ g.addr + r
      → r < page_size
      → h.load addr 1 s.memory ≡ some (v.byte s.memory (g.addr + r) ∷ [])
  unfolding tabulate
  load_byte i n r addr p g s inv o here lt =
      let (t, _, _, at) = page_at-some s i n p g o.page in
      ap (λ (x : ℕ). h.load x 1 s.memory) here
      ∙ laws.load_ok g.addr r 1 s.memory (inv.page_ok p g at).0 o.reads (omega arith)

  pub read_loop_ok :
      (left i pages n r start count end p : ℕ) (g : Page) (s : TlsState M)
      → Inv v s
      → page_count i s ≡ some pages
      → n * page_size + r + left ≤ pages * page_size
      → IsReadable v i n s p g
      → IsAt g r start count end
      → (out : List ℕ) × (last : ℕ) × (s' : TlsState M) × (read_loop h left i n start count end s
          ≡ done (out, last, s'))
        × Inv v s'
        × ((o : ℕ) → Wrote v i o [] s s')
        × DidRead v i (n * page_size + r) left out s
        × ((q : ℕ) × (f : Page) × (page_at i last s' ≡ some (q, f)))
  unfolding read_loop
  read_loop_ok zero i pages n r start count end p g s inv sized fits o a = (
    [],
    n,
    s,
    refl,
    inv,
    λ x. Wrote-nothing v i x s s (λ j q. refl) refl refl,
    record { size = refl; bytes = λ k lt. absurd (omega arith) },
    (p, g, o.page),
  )
  read_loop_ok (suc left) i pages n r start count end p g s inv sized fits o a =
      elim (Bool-cases (leb page_size r)) [
        | inr before ↦
            let lt : r < page_size = ground arith in
            let loaded = load_byte i n r (start + count) p g s inv o a.position lt in
            let (out, last, s2, run2, inv2, wrote2, did2, end2) =
              read_loop_ok left i pages n (r + 1) start (count + 1) end p g s inv sized
                (omega arith) o (IsAt-next a lt) in
            (
              v.byte s.memory (g.addr + r) ∷ out,
              last,
              s2,
              rw (at_end a ∙ before, read_loop) (bind-done _ (ap deref loaded) ∙ bind-done _ run2),
              inv2,
              wrote2,
              DidRead-cons v i (n * page_size + r) (n * page_size + (r + 1)) left
                  (v.byte s.memory (g.addr + r)) out s s (byte_at-page v s i n r p g o.page lt)
                  (omega arith) (λ q. refl) did2,
              end2,
            )
        | inl at_last ↦
            let inside = a.inside in
            let full : r ≡ page_size = ground arith in
            let (q, f, at1) = page_at-count v s inv i (n + 1) pages sized (omega arith) in
            let (s1, run1, eq1, inv1, wrote1, _, _, byte1) =
              protect_ok h v laws s inv i n p g o.page closed in
            let at1' : page_at i (n + 1) s1 ≡ some (q, f) = ap (page_at i (n + 1)) eq1 ∙ at1 in
            let (s2, run2, eq2, inv2, wrote2, at2, acc2, byte2) =
              protect_ok h v laws s1 inv1 i (n + 1) q f at1' readable in
            let o2 : IsReadable v i (n + 1) s2 q f = record {
              page = at2;
              reads = λ e. ground (arith, acc2, e);
            } in
            let loaded = load_byte i (n + 1) 0 f.addr q f s2 inv2 o2 (omega arith) (omega arith) in
            let both : (x : ℕ) → Wrote v i x [] s s2 =
              λ x. and_nothing i x s s1 s2 (wrote1 x) (wrote2 x) in
            let (out, last, s3, run3, inv3, wrote3, did3, end3) =
              read_loop_ok left i pages (n + 1) 1 f.addr 1 (f.addr + page_size) q f s2 inv2
                ((both 0).same_sizes i ∙ sized) (omega arith) o2 (IsAt-first f) in
            let o_here : ℕ = n * page_size + r in
            let b = v.byte s2.memory (f.addr + 0) in
            let same : (x : ℕ) → byte_at v i x s2 ≡ byte_at v i x s =
              λ x. ground (arith, (both 0).seen i x) in
            let first : byte_at v i o_here s ≡ some b =
              sym (same o_here)
              ∙ (ap (λ (x : ℕ). byte_at v i x s2) (omega arith)
                  ∙ byte_at-page v s2 i (n + 1) 0 q f at2 (omega arith)) in
            (
              b ∷ out,
              last,
              s3,
              rw (at_end a ∙ at_last, read_loop)
                  (bind-done _ run1
                    ∙ (bind-done _ run2
                        ∙ (bind-done _ (ap deref at2)
                            ∙ (bind-done _ (ap deref loaded) ∙ bind-done _ run3)))),
              inv3,
              λ x. and_nothing i x s s2 s3 (both x) (wrote3 x),
              DidRead-cons v i o_here ((n + 1) * page_size + 1) left b out s s2 first (omega arith)
                  same did3,
              end3,
            )
      ]
