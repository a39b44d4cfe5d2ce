-- ===== src/Tls/Invariant.antt =====
-- Challenge4/tls.c: well-formed tables, what a thread sees of its storage, and writes to it.
use operating_system_challen.Base.{
  ℕ, ◌+◌, ◌-◌, ◌/◌, ◌%◌, ◌^◌, ◌<◌, ◌≡◌, true, false, ◌&&◌, Option, none, some, List, ◌==◌, leb, ltb,
  if◌then◌else◌, get_elem?, get_or, length, find_index as first_index,
}
use operating_system_challen.Tls.Memory.{MemoryView}
use operating_system_challen.Tls.Types.{Page, Storage, Pair, TlsState, max_threads, page_size}
use operating_system_challen.Tls.Table.{tls_at, page_at, page_count}
use operating_system_challen.Tls.Refs.{refs}

module _ {M : Type 0} (v : MemoryView M) where
  -- Pages are mapped and apart, their counts are the numbers of pointers to them, and each storage
  -- has as many pages as it says. Entries
  -- from `maxIndex` on have no storage.
  pub record Inv (s : TlsState M) : Type 0 where
    pub entries : length s.table ≡ max_threads
    pub in_table : s.max_index < max_threads
    pub page_ok :
        (p : ℕ) (g : Page)
        → get_elem? s.heap p ≡ some g
        → (v.is_mapped s.memory g.addr ≡ true) × (g.addr % page_size ≡ 0)
    pub apart :
        (p q : ℕ) (f g : Page)
        → get_elem? s.heap p ≡ some f
        → get_elem? s.heap q ≡ some g
        → f.addr ≡ g.addr
        → p ≡ q
    pub owned :
        (i : ℕ) (t : Storage) (k p : ℕ)
        → tls_at i s ≡ some t
        → get_elem? t.pages k ≡ some p
        → p < length s.heap
    pub counted : (p : ℕ) (g : Page) → get_elem? s.heap p ≡ some g → g.ref_count ≡ refs p s.table
    pub sized : (i : ℕ) (t : Storage) → tls_at i s ≡ some t → length t.pages ≡ t.page_num
    pub assigned : (i : ℕ) (t : Storage) → tls_at i s ≡ some t → i < s.max_index
    pub small : (i : ℕ) (t : Storage) → tls_at i s ≡ some t → t.page_num < 2 ^ 20

  -- The byte at an offset of the storage at an index of the table.
  abbrev pub byte_at : (index offset : ℕ) → TlsState M → Option ℕ
  byte_at index offset s = elim (page_at index (offset / page_size) s) [
    | none ↦ none
    | some (p, g) ↦ some (v.byte s.memory (g.addr + offset % page_size))
  ]

  -- Behind a call the storage at `i` has `bytes` at offset `o`; every other byte of it and every
  -- other storage are as they were, and so are the sizes and the threads of the table.
  pub record Wrote (i o : ℕ) (bytes : List ℕ) (s s' : TlsState M) : Type 0 where
    pub seen :
        (j q : ℕ)
        → byte_at j q s' ≡ (
            if (j == i) && (leb o q && ltb q (o + length bytes))
            then some (get_or bytes (q - o) 0)
            else byte_at j q s)
    pub same_sizes : (j : ℕ) → page_count j s' ≡ page_count j s
    pub same_threads :
        (tid : ℕ)
        → first_index (λ (e : Pair). e.tid == tid) s'.table 0
          ≡ first_index (λ (e : Pair). e.tid == tid) s.table 0
    pub same_first : s'.first_call ≡ s.first_call

-- The thread has a storage, at index `i`.
pub record IsCaller {M : Type 0} (tid : ℕ) (s : TlsState M) (i : ℕ) (t : Storage) : Type 0 where
  pub started : s.first_call ≡ false
  pub found : first_index (λ (e : Pair). e.tid == tid) s.table 0 ≡ some i
  pub has : tls_at i s ≡ some t
