-- ===== src/Tls/Reading.antt =====
-- Challenge4/tls.c: what `tls_read` returns of the storage of its thread.
use mathlib.Core.Path.{subst}
use operating_system_challen.Base.{
  deref, ℕ, ◌+◌, ◌-◌, ◌*◌, ◌/◌, ◌%◌, ◌^◌, ◌≤◌, ◌<◌, ◌≡◌, refl, sym, ap, ◌∙◌, ◌≢◌, inl, inr, true,
  false, some, List, [], arith, leb, ltb, ◌==◌, if◌then◌else◌, tabulate, length-tabulate,
  Bool-cases, done, ◌>>=◌, bind-done, if-true, if-false,
}
use operating_system_challen.Tls.Memory.{Memory, MemoryView, IsMemory, closed, readable}
use operating_system_challen.Tls.Types.{Page, Storage, TlsState, page_size}
use operating_system_challen.Tls.Table.{page_at, page_count}
use operating_system_challen.Tls.Pages.{protect}
use operating_system_challen.Tls.Transfer.{scan, read_loop, boundary_read}
use operating_system_challen.Tls.Calls.{tls_read}
use operating_system_challen.Tls.Invariant.{Inv, Wrote, IsCaller, byte_at}
use operating_system_challen.Tls.Lookup.{tls_at-some, page_at-some, page_at-count}
use operating_system_challen.Tls.Bytes.{protect_ok}
use operating_system_challen.Tls.Copy.Bytes.{get_or-tabulate}
use operating_system_challen.Tls.Copy.Result.{and_nothing}
use operating_system_challen.Tls.Loops.{scan_lem}
use operating_system_challen.Tls.Writing.{find_index-caller}
use operating_system_challen.Tls.ReadLoop.{DidRead, IsReadable, read_loop_ok, byte_at-page}

module _ {M : Type 0} (h : Memory M) (v : MemoryView M) (laws : IsMemory h v) (tid i : ℕ)
    (t : Storage) (s : TlsState M) (inv : Inv v s) (caller : IsCaller tid s i t) (offset len : ℕ)
    (in_storage : offset < t.page_num * page_size) (len_ok : len ≤ t.page_num * page_size) where
  sized : page_count i s ≡ some t.page_num
  sized = ground (arith, caller.has)

  abbrev rem : ℕ
  rem = offset - offset / page_size * page_size

  -- Up to the test for the end of the page.
  opened :
      (s1 : TlsState M) × (p : ℕ) × (g : Page) × Inv v s1
      × ((o : ℕ) → Wrote v i o [] s s1)
      × IsReadable v i (offset / page_size) s1 p g
      × (tls_read h tid offset len s ≡ (
          if ltb (g.addr + page_size) (g.addr + rem + len)
          then boundary_read h len i t.page_num
              (offset / page_size)
              (g.addr + rem)
              (g.addr + page_size)
              s1
          else (deref (h.load (g.addr + rem) len s1.memory) >>= λ bytes.
              protect h i (offset / page_size) closed s1 >>= λ s2. done (true, bytes, s2))))
  unfolding tls_read
  opened =
      let (e, at, has) = tls_at-some s i t caller.has in
      let small = inv.small i t caller.has in
      let (p, g, at0) =
        page_at-count v s inv i (offset / page_size) t.page_num sized (omega arith) in
      let (s1, run, _, inv1, wrote, page, acc, _) =
        protect_ok h v laws s inv i (offset / page_size) p g at0 readable in
      let long_enough : ltb (t.page_num * page_size % 2 ^ 32) len ≡ false = ground arith in
      (
        s1,
        p,
        g,
        inv1,
        wrote,
        record { page = page; reads = λ x. ground (arith, acc, x) },
        bind-done _ (find_index-caller tid s i t caller)
            ∙ (bind-done _ (ap deref at)
                ∙ (rw has
                    (if-false _ _ long_enough ∙ (bind-done _ run ∙ bind-done _ (ap deref page))))),
      )

  -- What was read behind a step that changes nothing was there before it.
  DidRead-before :
      (o n : ℕ) (out : List ℕ) (s1 : TlsState M)
      → Wrote v i o [] s s1
      → DidRead v i o n out s1
      → DidRead v i o n out s
  DidRead-before o n out s1 w d = record {
    size = d.size;
    bytes = λ k lt. ground (arith, w.seen i (o + k), d.bytes k lt);
  }

  read_inside :
      offset % page_size + len ≤ page_size
      → (out : List ℕ) × (s' : TlsState M) × (tls_read h tid offset len s ≡ done (true, out, s'))
        × Inv v s'
        × ((o : ℕ) → Wrote v i o [] s s')
        × DidRead v i offset len out s
  read_inside inside =
      let (s1, p, g, inv1, wrote, o, eq) = opened in
      let n = offset / page_size in
      let (s2, run2, _, inv2, wrote2, _, _, _) =
        protect_ok h v laws s1 inv1 i n p g o.page closed in
      let (_, _, _, at) = page_at-some s1 i n p g o.page in
      let no_end : ltb (g.addr + page_size) (g.addr + rem + len) ≡ false = ground arith in
      let loaded =
        laws.load_ok g.addr rem len s1.memory (inv1.page_ok p g at).0 o.reads (omega arith) in
      let out = tabulate (v.byte s1.memory) (g.addr + rem) len in
      (
        out,
        s2,
        eq ∙ (if-false _ _ no_end ∙ (bind-done _ (ap deref loaded) ∙ bind-done _ run2)),
        inv2,
        λ x. and_nothing i x s s1 s2 (wrote x) (wrote2 x),
        DidRead-before offset len out s1 (wrote offset) (record {
          size = length-tabulate (v.byte s1.memory) (g.addr + rem) len;
          bytes = λ k lt.
              ap (λ (x : ℕ). byte_at v i x s1) (omega arith)
              ∙ (byte_at-page v s1 i n (rem + k) p g o.page (omega arith)
                  ∙ (ap (λ (x : ℕ). some (v.byte s1.memory x)) (omega arith)
                      ∙ ap some
                          (sym (get_or-tabulate (v.byte s1.memory) (g.addr + rem) len k lt))));
        }),
      )

  -- The scan of `boundaryRead`.
  scanned :
      (s1 : TlsState M) (p : ℕ) (g : Page)
      → Inv v s1
      → Wrote v i 0 [] s s1
      → scan len i t.page_num (offset / page_size) (g.addr + rem) 0 (g.addr + page_size) s1
        ≡ done (leb (offset + len) (t.page_num * page_size))
  scanned s1 p g inv1 w =
      scan_lem v len i t.page_num (offset / page_size) rem (g.addr + rem) 0 (g.addr + page_size) g
        s1 inv1 (w.same_sizes i ∙ sized) (omega arith)
        (record { position = omega arith; limit = refl; inside = omega arith })
      ∙ ap (λ (x : ℕ). done (leb x (t.page_num * page_size))) (omega arith)

  read_across :
      page_size < offset % page_size + len
      → offset + len ≤ t.page_num * page_size
      → (out : List ℕ) × (s' : TlsState M) × (tls_read h tid offset len s ≡ done (true, out, s'))
        × Inv v s'
        × ((o : ℕ) → Wrote v i o [] s s')
        × DidRead v i offset len out s
  unfolding boundary_read
  read_across over inside =
      let (s1, p, g, inv1, wrote, o, eq) = opened in
      let n = offset / page_size in
      let past : ltb (g.addr + page_size) (g.addr + rem + len) ≡ true = ground arith in
      let fits : leb (offset + len) (t.page_num * page_size) ≡ true = ground arith in
      let some_bytes : (len == 0) ≡ false = ground arith in
      let (out, last, s2, run2, inv2, wrote2, did, (q, f, at2)) =
        read_loop_ok h v laws len i t.page_num n rem (g.addr + rem) 0 (g.addr + page_size) p g s1
          inv1 ((wrote 0).same_sizes i ∙ sized) (omega arith) o
          (record { position = omega arith; limit = refl; inside = omega arith }) in
      let (s3, run3, _, inv3, wrote3, _, _, _) =
        protect_ok h v laws s2 inv2 i last q f at2 closed in
      let rounds : read_loop h (if len == 0 then 1 else len) i n (g.addr + rem) 0
            (g.addr + page_size) s1
          ≡ done (out, last, s2) =
        ap (λ (x : ℕ). read_loop h x i n (g.addr + rem) 0 (g.addr + page_size) s1)
          (if-false _ _ some_bytes)
        ∙ run2 in
      let here : n * page_size + rem ≡ offset = omega arith in
      (
        out,
        s3,
        eq
            ∙ (if-true _ _ past
                ∙ (bind-done _ (scanned s1 p g inv1 (wrote 0) ∙ ap done fits)
                    ∙ (bind-done _ rounds ∙ bind-done _ run3))),
        inv3,
        λ x. and_nothing i x s s2 s3 (and_nothing i x s s1 s2 (wrote x) (wrote2 x)) (wrote3 x),
        DidRead-before offset len out s1 (wrote offset)
            (subst (λ (x : ℕ). DidRead v i x len out s1) here did),
      )

  -- In well-formed tables, `tls_read` from an offset of the storage to a place inside it returns
  -- the bytes there, over the ends of pages too, and changes no byte.
  pub tls_read-reads :
      offset + len ≤ t.page_num * page_size
      → (out : List ℕ) × (s' : TlsState M) × (tls_read h tid offset len s ≡ done (true, out, s'))
        × Inv v s'
        × ((o : ℕ) → Wrote v i o [] s s')
        × DidRead v i offset len out s
  tls_read-reads inside = elim (Bool-cases (leb (offset % page_size + len) page_size)) [
    | inl one_page ↦ read_inside (ground arith)
    | inr more ↦ read_across (ground arith) inside
  ]

  -- In well-formed tables, a `tls_read` from an offset of the storage that goes on past the last
  -- page, of a length that is not above the size of the pages together, returns -1, copies nothing
  -- and changes no byte; but the page of the offset is left open for reading.
  pub tls_read-past_end :
      t.page_num * page_size < offset + len
      → (s' : TlsState M) × (p : ℕ) × (g : Page) × (tls_read h tid offset len s
          ≡ done (false, [], s'))
        × Inv v s'
        × ((o : ℕ) → Wrote v i o [] s s')
        × (page_at i (offset / page_size) s' ≡ some (p, g))
        × (v.access s'.memory g.addr ≢ closed)
  unfolding boundary_read
  tls_read-past_end beyond =
      let (s1, p, g, inv1, wrote, o, eq) = opened in
      let past : ltb (g.addr + page_size) (g.addr + rem + len) ≡ true = ground arith in
      let unfit : leb (offset + len) (t.page_num * page_size) ≡ false = ground arith in
      (
        s1,
        p,
        g,
        eq ∙ (if-true _ _ past ∙ bind-done _ (scanned s1 p g inv1 (wrote 0) ∙ ap done unfit)),
        inv1,
        wrote,
        o.page,
        o.reads,
      )
