-- ===== src/Tls/Writing.antt =====
-- Challenge4/tls.c: what `tls_write` does to the storage of its thread, and to no other.
use operating_system_challen.Base.{
  deref, ℕ, ◌+◌, ◌-◌, ◌*◌, ◌/◌, ◌%◌, ◌^◌, ◌≤◌, ◌<◌, ◌≡◌, refl, sym, ap, ◌∙◌, inl, inr, Bool, true,
  false, some, List, [], ◌∷◌, arith, leb, ltb, ◌==◌, if◌then◌else◌, length, take, length-take,
  Bool-cases, Option-cases, done, fault, ◌>>=◌, bind-done, if-true, if-false,
}
use operating_system_challen.Tls.Memory.{Memory, MemoryView, IsMemory, closed}
use operating_system_challen.Tls.Types.{Page, Storage, TlsState, page_size}
use operating_system_challen.Tls.Table.{find_index, page_count}
use operating_system_challen.Tls.Pages.{protect, open_page}
use operating_system_challen.Tls.Transfer.{c_string, scan, boundary_write}
use operating_system_challen.Tls.Calls.{tls_write}
use operating_system_challen.Tls.Invariant.{Inv, Wrote, IsCaller}
use operating_system_challen.Tls.Lookup.{tls_at-some, page_at-count}
use operating_system_challen.Tls.Bytes.{store_in_page, protect_ok}
use operating_system_challen.Tls.Copy.Result.{IsOpened, open_page_ok, nothing_and, and_nothing}
use operating_system_challen.Tls.Loops.{IsAt, Wrote-at, scan_lem, write_loop_ok}

-- What the `do` loop writes of a string: an empty one has its 0 written.
abbrev pub at_least_one : List ℕ → List ℕ
at_least_one str = elim str [ [] ↦ 0 ∷ [] | c ∷ cs ↦ c ∷ cs ]

pub length-c_string :
    (buffer str : List ℕ) → c_string buffer ≡ some str → length str < length buffer
unfolding c_string
length-c_string [] str e = cc
length-c_string (c ∷ cs) str e = elim (Bool-cases (c == 0)) [
  | inl z ↦ let same : [] ≡ str = ground arith in ground (arith, ap (length {0}) same)
  | inr nz ↦ elim (Option-cases (c_string cs)) [
    | inl nothing ↦ absurd (ground arith)
    | inr (rest, there) ↦
        let same : c ∷ rest ≡ str = ground arith in
        let lt = length-c_string cs rest there in ground (arith, lt, ap (length {0}) same)
  ]
]

pub take-c_string :
    (buffer str : List ℕ) → c_string buffer ≡ some str → take (length str) buffer ≡ str
unfolding c_string
take-c_string [] str e = cc
take-c_string (c ∷ cs) str e = elim (Bool-cases (c == 0)) [
  | inl z ↦ let same : [] ≡ str = ground arith in rw (← same) refl
  | inr nz ↦ elim (Option-cases (c_string cs)) [
    | inl nothing ↦ absurd (ground arith)
    | inr (rest, there) ↦
        let same : c ∷ rest ≡ str = ground arith in
        rw (← same) (ap (◌∷◌ c) (take-c_string cs rest there))
  ]
]

pub find_index-caller :
    {M : Type 0} (tid : ℕ) (s : TlsState M) (i : ℕ) (t : Storage)
    → IsCaller tid s i t
    → find_index tid s ≡ done (i, s)
unfolding find_index
find_index-caller tid s i t c = ground (arith, c.started, c.found)

module _ {M : Type 0} (h : Memory M) (v : MemoryView M) (laws : IsMemory h v) (tid i : ℕ)
    (t : Storage) (s : TlsState M) (inv : Inv v s) (caller : IsCaller tid s i t) (offset len : ℕ)
    (in_storage : offset < t.page_num * page_size) (len_ok : len ≤ t.page_num * page_size) where
  sized : page_count i s ≡ some t.page_num
  sized = ground (arith, caller.has)

  -- Up to the test for the end of the page.
  opened :
      (s1 : TlsState M) × (p : ℕ) × (g : Page) × (open_page h i (offset / page_size) s ≡ done s1)
      × Inv v s1
      × ((o : ℕ) → Wrote v i o [] s s1)
      × IsOpened v i (offset / page_size) s1 p g
      × ((buffer : List ℕ)
          → tls_write h tid offset len buffer s ≡ (
              if ltb (g.addr + page_size) (g.addr + (offset - offset / page_size * page_size) + len)
              then boundary_write h buffer i t.page_num
                  (offset / page_size)
                  (g.addr + (offset - offset / page_size * page_size))
                  (g.addr + page_size)
                  s1
              else if ltb (length buffer) len
              then fault
              else (deref (
                    h.store
                      (g.addr + (offset - offset / page_size * page_size))
                      (take len buffer)
                      s1.memory)
                  >>= λ m.
                      protect h i (offset / page_size) closed (record s1 { memory = m }) >>= λ s2.
                      done (true, s2))))
  unfolding tls_write
  opened =
      let (e, at, has) = tls_at-some s i t caller.has in
      let small = inv.small i t caller.has in
      let (p0, g0, at0) =
        page_at-count v s inv i (offset / page_size) t.page_num sized (omega arith) in
      let (s1, run, inv1, wrote, (p, g, o)) =
        open_page_ok h v laws s inv i (offset / page_size) p0 g0 at0 in
      let long_enough : ltb (t.page_num * page_size % 2 ^ 32) len ≡ false = ground arith in
      (
        s1,
        p,
        g,
        run,
        inv1,
        wrote,
        o,
        λ buffer.
            bind-done _ (find_index-caller tid s i t caller)
            ∙ (bind-done _ (ap deref at)
                ∙ (rw has (
                    if-false _ _ long_enough ∙ (bind-done _ run ∙ bind-done _ (ap deref o.page))))),
      )

  -- A write inside one page.
  pub tls_write-inside :
      (buffer : List ℕ)
      → offset % page_size + len ≤ page_size
      → len ≤ length buffer
      → (s' : TlsState M) × (tls_write h tid offset len buffer s ≡ done (true, s'))
        × Inv v s'
        × Wrote v i offset (take len buffer) s s'
  tls_write-inside buffer inside enough =
      let (s1, p, g, run, inv1, wrote, o, eq) = opened in
      let n = offset / page_size in
      let r = offset - offset / page_size * page_size in
      let size = length-take len buffer enough in
      let (m, stored, inv2, wrote2, writes) =
        store_in_page h v laws s1 inv1 i n p g o.page r (take len buffer) o.single o.writes
          (omega arith) in
      let s2 = record s1 { memory = m } in
      let (s3, run3, _, inv3, wrote3, _, _, _) =
        protect_ok h v laws s2 inv2 i n p g o.page closed in
      let no_end : ltb (g.addr + page_size) (g.addr + r + len) ≡ false = ground arith in
      let no_fault : ltb (length buffer) len ≡ false = ground arith in
      (
        s3,
        eq buffer
            ∙ (if-false _ _ no_end
                ∙ (if-false _ _ no_fault ∙ (bind-done _ (ap deref stored) ∙ bind-done _ run3))),
        inv3,
        nothing_and i offset s s1 s3 (wrote offset) (
            and_nothing i offset s1 s2 s3 (Wrote-at (n * page_size + r) offset (omega arith) wrote2)
              (wrote3 offset)),
      )

  -- In well-formed tables, a `tls_write` from an offset of the storage over the end of its page,
  -- of a length that is not above the size of the pages together and from a buffer that holds a
  -- string, writes that string, whatever the length, and returns 0, if the string ends in the
  -- storage; otherwise it returns -1 and writes nothing. An empty string is written as its 0. No
  -- other byte of a storage changes.
  pub tls_write-across :
      (buffer str : List ℕ)
      → page_size < offset % page_size + len
      → c_string buffer ≡ some str
      → (s' : TlsState M) × (tls_write h tid offset len buffer s
          ≡ done (leb (offset + length str) (t.page_num * page_size), s'))
        × Inv v s'
        × Wrote v i offset
            (if leb (offset + length str) (t.page_num * page_size) then at_least_one str else [])
            s
            s'
  unfolding boundary_write
  tls_write-across buffer str over string =
      let (s1, p, g, run, inv1, wrote, o, eq) = opened in
      let n = offset / page_size in
      let r = offset - offset / page_size * page_size in
      let past : ltb (g.addr + page_size) (g.addr + r + len) ≡ true = ground arith in
      let a : IsAt g r (g.addr + r) 0 (g.addr + page_size) = record {
        position = omega arith;
        limit = refl;
        inside = omega arith;
      } in
      let here : n * page_size + r ≡ offset = omega arith in
      let size1 = (wrote 0).same_sizes i ∙ sized in
      let scanned : scan (length str) i t.page_num n (g.addr + r) 0 (g.addr + page_size) s1
          ≡ done (leb (offset + length str) (t.page_num * page_size)) =
        scan_lem v (length str) i t.page_num n r (g.addr + r) 0 (g.addr + page_size) g s1 inv1 size1
          (omega arith) a
        ∙ ap (λ (x : ℕ). done (leb x (t.page_num * page_size))) (omega arith) in
      elim (Bool-cases (leb (offset + length str) (t.page_num * page_size))) [
        | inl fits ↦
            let (last, s2, run2, inv2, wrote2, (q, f, at2)) =
              write_loop_ok h v laws (at_least_one str) i t.page_num n r (g.addr + r) 0
                (g.addr + page_size) p g s1 inv1 size1 (short str fits) o a in
            let (s3, run3, _, inv3, wrote3, _, _, _) =
              protect_ok h v laws s2 inv2 i last q f at2 closed in
            (
              s3,
              eq buffer
                  ∙ (if-true _ _ past
                      ∙ (bind-done _ (ap deref string)
                          ∙ (bind-done _ (scanned ∙ ap done fits)
                              ∙ (bind-done _ run2
                                  ∙ (bind-done _ run3
                                      ∙ ap (λ (b : Bool). done (b, s3)) (sym fits)))))),
              inv3,
              rw fits (
                  nothing_and i offset s s1 s3 (wrote offset) (
                    and_nothing i offset s1 s2 s3 (Wrote-at (n * page_size + r) offset here wrote2)
                      (wrote3 offset))),
            )
        | inr beyond ↦ (
          s1,
          eq buffer
              ∙ (if-true _ _ past
                  ∙ (bind-done _ (ap deref string)
                      ∙ (bind-done _ (scanned ∙ ap done beyond)
                          ∙ ap (λ (b : Bool). done (b, s1)) (sym beyond)))),
          inv1,
          rw beyond (wrote offset),
        )
      ]
    where
      short :
          (str : List ℕ)
          → leb (offset + length str) (t.page_num * page_size) ≡ true
          → offset / page_size * page_size
              + (offset - offset / page_size * page_size)
              + length (at_least_one str)
            ≤ t.page_num * page_size
      short [] e = omega arith
      short (c ∷ cs) e = ground arith
