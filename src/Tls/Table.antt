-- ===== src/Tls/Table.antt =====
-- Challenge4/tls.c: `ttpArray`, with `tls_init` and `findIndex`.
use operating_system_challen.Base.{
  ℕ, ◌+◌, false, Option, none, some, ◌==◌, ltb, if◌then◌else◌, get_elem?, set,
  find_index as first_index, Outcome, done, fault,
}
use operating_system_challen.Tls.Types.{Page, Storage, TlsState, empty_tls, max_threads}

module _ {M : Type 0} where
  -- The part of `tls_init` that is not about signals.
  unfoldable pub tls_init : TlsState M → TlsState M
  tls_init s = record s { table = set s.table 0 empty_tls }

  -- A new thread takes the entry at `maxIndex`, and the one behind it is cleared.
  unfoldable pub find_index : ℕ → TlsState M → Outcome (ℕ × TlsState M)
  unfolding tls_init first_index
  find_index tid s =
      let s1 = if s.first_call then record (tls_init s) { first_call = false } else s in
      elim (first_index (λ p. p.tid == tid) s1.table 0) [
        | some i ↦ done (i, s1)
        | none ↦
            if ltb (s1.max_index + 1) max_threads
            then done (
              s1.max_index,
              record s1 {
                max_index = s1.max_index + 1;
                table = set s1.table (s1.max_index + 1) empty_tls;
              },
            )
            else fault
      ]

  -- `ttpArray[index].tls`
  abbrev pub tls_at : ℕ → TlsState M → Option Storage
  tls_at index s = elim (get_elem? s.table index) [ none ↦ none | some p ↦ p.tls ]

  abbrev pub page_count : ℕ → TlsState M → Option ℕ
  page_count index s = elim (tls_at index s) [ none ↦ none | some t ↦ some t.page_num ]

  -- `ttpArray[index].tls -> pages[n]`, with the page that it points to.
  abbrev pub page_at : (index n : ℕ) → TlsState M → Option (ℕ × Page)
  page_at index n s = elim (tls_at index s) [
    | none ↦ none
    | some t ↦ elim (get_elem? t.pages n) [
      | none ↦ none
      | some p ↦ elim (get_elem? s.heap p) [ none ↦ none | some g ↦ some (p, g) ]
    ]
  ]

  -- `ttpArray[index].tls -> pages[n] = p`
  unfoldable pub set_page : (index n p : ℕ) → TlsState M → TlsState M
  set_page index n p s = elim (get_elem? s.table index) [
    | none ↦ s
    | some e ↦ elim e.tls [
      | none ↦ s
      | some t ↦ record s {
        table = set s.table index (record e { tls = some (record t { pages = set t.pages n p }) });
      }
    ]
  ]
