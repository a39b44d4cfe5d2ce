-- ===== src/Tls/Pages.antt =====
-- Challenge4/tls.c: one page is opened, closed, or copied before it is written.
use operating_system_challen.Base.{
  deref, ℕ, ◌+◌, ◌-◌, [], ◌∷◌, ◌++◌, ltb, if◌then◌else◌, length, set, Outcome, done, ◌>>=◌,
}
use operating_system_challen.Tls.Memory.{Memory, Access, closed, writable}
use operating_system_challen.Tls.Types.{Page, TlsState, page_size}
use operating_system_challen.Tls.Table.{page_at, set_page}

module _ {M : Type 0} (h : Memory M) where
  -- `mprotect((void *) ttpArray[index].tls -> pages[n] -> addr, ps, prot)`
  unfoldable pub protect : (index n : ℕ) → Access → TlsState M → Outcome (TlsState M)
  protect index n prot s = deref (page_at index n s) >>= λ (p, g).
      done (record s { memory = h.mprotect g.addr prot s.memory })

  -- The copy of a page that others use: the storage gets a page of its own, open for writing.
  unfoldable pub copy_page : (index n : ℕ) → TlsState M → Outcome (TlsState M)
  unfolding set_page
  copy_page index n s = deref (page_at index n s) >>= λ (p, g).
      let (a, m1) = h.mmap writable s.memory in
      let pg : Page = record { addr = a; ref_count = 1 } in
      let s1 =
        set_page index n (length s.heap) (record s {
          heap = set s.heap p (record g { ref_count = g.ref_count - 1 }) ++ pg ∷ [];
        }) in
      let m2 = h.mprotect g.addr writable m1 in
      deref (h.load g.addr page_size m2) >>= λ bytes.
      deref (h.store a bytes m2) >>= λ m3. done (record s1 { memory = h.mprotect g.addr closed m3 })

  -- The first page of a `tls_write`.
  unfoldable pub open_page : (index n : ℕ) → TlsState M → Outcome (TlsState M)
  unfolding protect copy_page
  open_page index n s = deref (page_at index n s) >>= λ (p, g).
      if ltb 1 g.ref_count then copy_page index n s else protect index n writable s

  -- The step of `boundaryWrite` from page `n` to the next.
  unfoldable pub next_page : (index n : ℕ) → TlsState M → Outcome (TlsState M)
  unfolding protect copy_page
  next_page index n s = protect index n closed s >>= λ s1.
      deref (page_at index (n + 1) s1) >>= λ (p, g).
      if ltb 1 g.ref_count
      then (protect index (n + 1) writable s1 >>= λ s2. copy_page index (n + 1) s2)
      else protect index (n + 1) writable s1
