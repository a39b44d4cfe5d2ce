-- ===== src/Tls/Transfer.antt =====
-- Challenge4/tls.c: `boundaryWrite` and `boundaryRead`, byte by byte over the pages of a storage.
-- Addresses are those of `startWrite`, `startRead` and `endPage`; `count` is the byte behind them.
use operating_system_challen.Base.{
  deref, ℕ, zero, suc, ◌+◌, Bool, true, false, Option, none, some, List, [], ◌∷◌, ◌++◌, not, ◌==◌,
  leb, if◌then◌else◌, length, Outcome, done, ◌>>=◌,
}
use operating_system_challen.Tls.Memory.{Memory, closed, readable}
use operating_system_challen.Tls.Types.{TlsState, page_size}
use operating_system_challen.Tls.Table.{page_at}
use operating_system_challen.Tls.Pages.{protect, next_page}

-- The characters that `strlen` counts in a buffer; `none` if no 0 ends them.
unfoldable pub c_string : List ℕ → Option (List ℕ)
c_string [] = none
c_string (c ∷ cs) =
    let rest = c_string cs in
    if c == 0 then some [] else elim rest [ none ↦ none | some str ↦ some (c ∷ str) ]

module _ {M : Type 0} where
  -- The scan of both functions: `false` if the bytes that are left go past the last page.
  unfoldable pub scan : (left index pages n start count end : ℕ) → TlsState M → Outcome Bool
  scan zero index pages n start count end s = done true
  scan (suc left) index pages n start count end s = elim (leb end (start + count)) [
    | false ↦ scan left index pages n start (count + 1) end s
    | true ↦ elim (leb pages (n + 1)) [
      | true ↦ done false
      | false ↦ deref (page_at index (n + 1) s) >>= λ (p, g).
          scan left index pages (n + 1) g.addr 1 (g.addr + page_size) s
    ]
  ]

module _ {M : Type 0} (h : Memory M) where
  -- `memcpy((void *) addr, &byte, 1)`
  unfoldable pub put_byte : (addr byte : ℕ) → TlsState M → Outcome (TlsState M)
  put_byte addr byte s =
      deref (h.store addr (byte ∷ []) s.memory) >>= λ m. done (record s { memory = m })

  -- The loop of `boundaryWrite` over the bytes that are left, with the number of its last page.
  unfoldable pub write_loop :
      List ℕ → (index n start count end : ℕ) → TlsState M → Outcome (ℕ × TlsState M)
  unfolding put_byte next_page
  write_loop [] index n start count end s = done (n, s)
  write_loop (b ∷ bs) index n start count end s = elim (leb end (start + count)) [
    | false ↦ put_byte (start + count) b s >>= λ s1. write_loop bs index n start (count + 1) end s1
    | true ↦ next_page h index n s >>= λ s1. deref (page_at index (n + 1) s1) >>= λ (p, g).
        put_byte g.addr b s1 >>= λ s2. write_loop bs index (n + 1) g.addr 1 (g.addr + page_size) s2
  ]

  -- A `do` loop has a first round: of an empty string it writes the 0.
  unfoldable pub boundary_write :
      List ℕ → (index pages n start end : ℕ) → TlsState M → Outcome (Bool × TlsState M)
  unfolding c_string scan write_loop protect
  boundary_write src index pages n start end s = deref (c_string src) >>= λ str.
      scan (length str) index pages n start 0 end s >>= λ fits.
      if not fits
      then done (false, s)
      else (write_loop (elim str [ [] ↦ 0 ∷ [] | c ∷ cs ↦ c ∷ cs ]) index n start 0 end s
          >>= λ (last, s1). protect h index last closed s1 >>= λ s2. done (true, s2))

  -- The loop of `boundaryRead`: the bytes, and the number of its last page.
  unfoldable pub read_loop :
      (left index n start count end : ℕ) → TlsState M → Outcome (List ℕ × ℕ × TlsState M)
  unfolding protect
  read_loop zero index n start count end s = done ([], n, s)
  read_loop (suc left) index n start count end s = elim (leb end (start + count)) [
    | false ↦ deref (h.load (start + count) 1 s.memory) >>= λ byte.
        read_loop left index n start (count + 1) end s >>= λ (rest, last, s').
        done (byte ++ rest, last, s')
    | true ↦ protect h index n closed s >>= λ s1. protect h index (n + 1) readable s1 >>= λ s2.
        deref (page_at index (n + 1) s2) >>= λ (p, g). deref (h.load g.addr 1 s2.memory) >>= λ byte.
        read_loop left index (n + 1) g.addr 1 (g.addr + page_size) s2 >>= λ (rest, last, s').
        done (byte ++ rest, last, s')
  ]

  unfoldable pub boundary_read :
      (len index pages n start end : ℕ) → TlsState M → Outcome (Bool × List ℕ × TlsState M)
  unfolding scan read_loop protect
  boundary_read len index pages n start end s = scan len index pages n start 0 end s >>= λ fits.
      if not fits
      then done (false, [], s)
      else (read_loop (if len == 0 then 1 else len) index n start 0 end s >>= λ (bytes, last, s1).
          protect h index last closed s1 >>= λ s2. done (true, bytes, s2))
