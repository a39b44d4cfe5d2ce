-- ===== src/Tls/Loops.antt =====
-- Challenge4/tls.c: the loops of `boundaryWrite` do not fail inside a storage, and write their bytes.
use mathlib.Core.Path.{subst}
use operating_system_challen.Base.{
  deref, ℕ, zero, suc, ◌+◌, ◌*◌, ◌≤◌, ◌<◌, ◌≡◌, refl, sym, ap, ◌∙◌, inl, inr, true, false, some,
  List, [], ◌∷◌, arith, leb, length, Bool-cases, done, bind-done,
}
use operating_system_challen.Tls.Memory.{Memory, MemoryView, IsMemory}
use operating_system_challen.Tls.Types.{Page, TlsState, page_size}
use operating_system_challen.Tls.Table.{page_at, page_count}
use operating_system_challen.Tls.Transfer.{scan, put_byte, write_loop}
use operating_system_challen.Tls.Invariant.{Inv, Wrote}
use operating_system_challen.Tls.Lookup.{page_at-count}
use operating_system_challen.Tls.Bytes.{Wrote-trans, Wrote-nothing, store_in_page}
use operating_system_challen.Tls.Copy.Result.{IsOpened, next_page_ok, nothing_and}

-- `start + count` is the byte `r` of the page `g`, which `end` ends.
pub record IsAt (g : Page) (r start count end : ℕ) : Type 0 where
  pub position : start + count ≡ g.addr + r
  pub limit : end ≡ g.addr + page_size
  pub inside : r ≤ page_size

pub IsAt-next :
    {g : Page} {r start count end : ℕ}
    → IsAt g r start count end
    → r < page_size
    → IsAt g (r + 1) start (count + 1) end
IsAt-next a lt = record {
  position = omega (arith, a.position);
  limit = a.limit;
  inside = omega arith;
}

pub IsAt-first : (g : Page) → IsAt g 1 g.addr 1 (g.addr + page_size)
IsAt-first g = record { position = refl; limit = refl; inside = omega arith }

-- The test for the end of the page.
pub at_end :
    {g : Page} {r start count end : ℕ}
    → IsAt g r start count end
    → leb end (start + count) ≡ leb page_size r
at_end a = ground (arith, a.position, a.limit)

module _ {M : Type 0} (v : MemoryView M) where
  -- The scan tells whether the bytes that are left end inside the storage.
  pub scan_lem :
      (left : ℕ) (i pages n r start count end : ℕ) (g : Page) (s : TlsState M)
      → Inv v s
      → page_count i s ≡ some pages
      → n < pages
      → IsAt g r start count end
      → scan left i pages n start count end s
        ≡ done (leb (n * page_size + r + left) (pages * page_size))
  unfolding scan
  scan_lem zero i pages n r start count end g s inv sized lt a =
      let inside = a.inside in ap done (sym (le_true (omega arith)))
    where
      le_true : {x y : ℕ} → x ≤ y → leb x y ≡ true
      le_true h = ground arith
  scan_lem (suc left) i pages n r start count end g s inv sized lt a =
      elim (Bool-cases (leb page_size r)) [
        | inr before ↦
            let rest =
              scan_lem left i pages n (r + 1) start (count + 1) end g s inv sized lt
                (IsAt-next a (ground arith)) in
            rw (at_end a ∙ before, scan)
              (rest ∙ ap (λ (x : ℕ). done (leb x (pages * page_size))) (omega arith))
        | inl at_last ↦
            let inside = a.inside in
            elim (Bool-cases (leb pages (n + 1))) [
              | inl last ↦
                  rw (at_end a ∙ at_last, scan) (rw last (ap done (sym (le_false (ground arith)))))
              | inr more ↦
                  let (p, f, at) = page_at-count v s inv i (n + 1) pages sized (ground arith) in
                  let rest =
                    scan_lem left i pages (n + 1) 1 f.addr 1 (f.addr + page_size) f s inv sized
                      (ground arith) (IsAt-first f) in
                  rw (at_end a ∙ at_last, scan)
                    (rw more (
                      bind-done _ (ap deref at)
                      ∙ (rest ∙ ap (λ (x : ℕ). done (leb x (pages * page_size))) (ground arith))))
            ]
      ]
    where
      le_false : {x y : ℕ} → y < x → leb x y ≡ false
      le_false h = ground arith

pub Wrote-at :
    {M : Type 0} {v : MemoryView M} {i : ℕ} (o o' : ℕ) {bytes : List ℕ} {s s' : TlsState M}
    → o ≡ o'
    → Wrote v i o bytes s s'
    → Wrote v i o' bytes s s'
Wrote-at {v} {i} o o' {bytes} {s} {s'} e w = subst (λ (x : ℕ). Wrote v i x bytes s s') e w

module _ {M : Type 0} (h : Memory M) (v : MemoryView M) (laws : IsMemory h v) where
  pub put_byte_ok :
      (i n r addr b p : ℕ) (g : Page) (s : TlsState M)
      → Inv v s
      → IsOpened v i n s p g
      → addr ≡ g.addr + r
      → r < page_size
      → (s' : TlsState M) × (put_byte h addr b s ≡ done s')
        × Inv v s'
        × Wrote v i (n * page_size + r) (b ∷ []) s s'
        × IsOpened v i n s' p g
  unfolding put_byte
  put_byte_ok i n r addr b p g s inv o here lt =
      let (m, stored, inv', wrote, writes) =
        store_in_page h v laws s inv i n p g o.page r (b ∷ []) o.single o.writes (omega arith) in
      (
        record s { memory = m },
        bind-done _ (ap deref (ap (λ (x : ℕ). h.store x (b ∷ []) s.memory) here ∙ stored)),
        inv',
        wrote,
        record { page = o.page; single = o.single; writes = writes },
      )

  pub write_loop_ok :
      (bytes : List ℕ) (i pages n r start count end p : ℕ) (g : Page) (s : TlsState M)
      → Inv v s
      → page_count i s ≡ some pages
      → n * page_size + r + length bytes ≤ pages * page_size
      → IsOpened v i n s p g
      → IsAt g r start count end
      → (last : ℕ) × (s' : TlsState M) × (write_loop h bytes i n start count end s
          ≡ done (last, s'))
        × Inv v s'
        × Wrote v i (n * page_size + r) bytes s s'
        × ((q : ℕ) × (f : Page) × (page_at i last s' ≡ some (q, f)))
  unfolding write_loop
  write_loop_ok [] i pages n r start count end p g s inv sized fits o a = (
    n,
    s,
    refl,
    inv,
    Wrote-nothing v i (n * page_size + r) s s (λ j q. refl) refl refl,
    (p, g, o.page),
  )
  write_loop_ok (b ∷ bs) i pages n r start count end p g s inv sized fits o a =
      elim (Bool-cases (leb page_size r)) [
        | inr before ↦
            let (s1, run1, inv1, wrote1, o1) =
              put_byte_ok i n r (start + count) b p g s inv o a.position (ground arith) in
            let (last, s2, run2, inv2, wrote2, end2) =
              write_loop_ok bs i pages n (r + 1) start (count + 1) end p g s1 inv1
                (wrote1.same_sizes i ∙ sized) (omega arith) o1 (IsAt-next a (ground arith)) in
            (
              last,
              s2,
              rw (at_end a ∙ before, write_loop) (bind-done _ run1 ∙ run2),
              inv2,
              Wrote-trans v i (n * page_size + r) (b ∷ []) bs s s1 s2 wrote1
                  (Wrote-at (n * page_size + (r + 1)) (n * page_size + r + 1) (omega arith) wrote2),
              end2,
            )
        | inl at_last ↦
            let inside = a.inside in
            let full : r ≡ page_size = ground arith in
            let (q, f, at1) = page_at-count v s inv i (n + 1) pages sized (omega arith) in
            let (s1, run1, inv1, wrote1, (p1, g1, o1)) =
              next_page_ok h v laws s i n p q g f inv o.page at1 in
            let (s2, run2, inv2, wrote2, o2) =
              put_byte_ok i (n + 1) 0 g1.addr b p1 g1 s1 inv1 o1 (omega arith) (omega arith) in
            let (last, s3, run3, inv3, wrote3, end3) =
              write_loop_ok bs i pages (n + 1) 1 g1.addr 1 (g1.addr + page_size) p1 g1 s2 inv2
                (wrote2.same_sizes i ∙ ((wrote1 0).same_sizes i ∙ sized)) (omega arith) o2
                (IsAt-first g1) in
            let o_here : ℕ = n * page_size + r in
            (
              last,
              s3,
              rw (at_end a ∙ at_last, write_loop)
                  (bind-done _ run1 ∙ (bind-done _ (ap deref o1.page) ∙ (bind-done _ run2 ∙ run3))),
              inv3,
              Wrote-trans v i o_here (b ∷ []) bs s s2 s3
                  (nothing_and i o_here s s1 s2 (wrote1 o_here)
                    (Wrote-at ((n + 1) * page_size + 0) o_here (omega arith) wrote2))
                  (Wrote-at ((n + 1) * page_size + 1) (o_here + 1) (omega arith) wrote3),
              end3,
            )
      ]
