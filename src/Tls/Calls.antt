-- ===== src/Tls/Calls.antt =====
-- Challenge4/tls.c: the calls of tls.h, and the handler of a bad access. `tid` is the value of
-- `pthread_self()`; `true` is the return value 0, and `false` is -1.
use operating_system_challen.Base.{
  deref, ℕ, zero, suc, ◌+◌, ◌-◌, ◌*◌, ◌/◌, ◌%◌, ◌^◌, Bool, true, false, none, some, List, [], ◌∷◌,
  ◌++◌, ◌==◌, ltb, if◌then◌else◌, length, take, get_elem?, set, Outcome, done, fault, ◌>>=◌, ℤ, pos,
  negsuc,
}
use operating_system_challen.Tls.Memory.{Memory, closed, readable}
use operating_system_challen.Tls.Types.{Page, Storage, TlsState, page_size}
use operating_system_challen.Tls.Sizes.{round_up}
use operating_system_challen.Tls.Table.{find_index, page_at, tls_at}
use operating_system_challen.Tls.Pages.{protect, open_page}
use operating_system_challen.Tls.Transfer.{boundary_write, boundary_read}

-- The rounds of a `for` loop from 0 to an `int`.
abbrev pub rounds : ℤ → ℕ
rounds (pos n) = n
rounds (negsuc n) = 0

-- An `int` that is stored in an `unsigned`, and back.
abbrev pub to_unsigned : ℤ → ℕ
to_unsigned (pos n) = n % 2 ^ 32
to_unsigned (negsuc n) = 2 ^ 32 - 1 - n % 2 ^ 32

-- The loop of `tls_clone` over the pages: each gets one reference more.
unfoldable pub share_pages :
    (left i : ℕ) (pages : List ℕ) → List Page → Outcome (List ℕ × List Page)
share_pages zero i pages heap = done ([], heap)
share_pages (suc left) i pages heap = deref (get_elem? pages i) >>= λ p.
    deref (get_elem? heap p) >>= λ g.
    share_pages left (i + 1) pages (set heap p (record g { ref_count = g.ref_count + 1 }))
    >>= λ (rest, heap'). done (p ∷ rest, heap')

-- The loop of `sfHandle` over the pages of a storage: `true` if one is the page accessed.
unfoldable pub hits_page : ℕ → (left j : ℕ) → (pages : List ℕ) → List Page → Outcome Bool
hits_page sf_page zero j pages heap = done false
hits_page sf_page (suc left) j pages heap = deref (get_elem? pages j) >>= λ p.
    deref (get_elem? heap p) >>= λ g. elim (sf_page == g.addr / page_size * page_size) [
      | true ↦ done true
      | false ↦ hits_page sf_page left (j + 1) pages heap
    ]

module _ {M : Type 0} where
  unfoldable pub tls_destroy : TlsState M → Bool × TlsState M
  tls_destroy s = (true, s)

  unfoldable pub tls_clone : (self tid : ℕ) → TlsState M → Outcome (Bool × TlsState M)
  unfolding find_index share_pages
  tls_clone self tid s = find_index self s >>= λ (cloner, s1). find_index tid s1 >>= λ (clonee, s2).
      deref (get_elem? s2.table cloner) >>= λ own. deref (get_elem? s2.table clonee) >>= λ other.
      elim own.tls [
        | some t ↦ done (false, s2)
        | none ↦ elim other.tls [
          | none ↦ done (false, s2)
          | some t ↦
              let loops = if ltb t.page_num (2 ^ 31) then t.page_num else 0 in
              share_pages loops 0 t.pages s2.heap >>= λ (pages, heap).
              let copy : Storage = record {
                tid = self;
                size = t.size;
                page_num = t.page_num;
                pages = pages;
              } in
              done (
                true,
                record s2 {
                  table = set s2.table cloner (record { tid = self; tls = some copy });
                  heap = heap;
                },
              )
        ]
      ]

  -- The loop of `sfHandle` over the entries.
  unfoldable pub hits_storage : ℕ → (left i : ℕ) → TlsState M → Outcome Bool
  unfolding hits_page
  hits_storage sf_page zero i s = done false
  hits_storage sf_page (suc left) i s = deref (tls_at i s) >>= λ t.
      let loops = if ltb t.page_num (2 ^ 31) then t.page_num else 0 in
      hits_page sf_page loops 0 t.pages s.heap >>= λ hit. elim hit [
        | true ↦ done true
        | false ↦ hits_storage sf_page left (i + 1) s
      ]

  -- `true` if the thread is ended, `false` if the signal takes its default course.
  unfoldable pub sf_handle : (si_addr : ℕ) → TlsState M → Outcome Bool
  unfolding hits_storage
  sf_handle si_addr s = hits_storage (si_addr / page_size * page_size) s.max_index 0 s

module _ {M : Type 0} (h : Memory M) where
  -- The loop of `tls_create`: pages that nobody can use yet, one reference each.
  unfoldable pub new_pages : ℕ → List Page → M → List ℕ × List Page × M
  new_pages zero heap m = ([], heap, m)
  new_pages (suc left) heap m =
      let (a, m1) = h.mmap closed m in
      let pg : Page = record { addr = a; ref_count = 1 } in
      let (rest, heap', m') = new_pages left (heap ++ pg ∷ []) m1 in (length heap ∷ rest, heap', m')

  unfoldable pub tls_create : (tid size : ℕ) → TlsState M → Outcome (Bool × TlsState M)
  unfolding find_index round_up new_pages
  tls_create tid size s = find_index tid s >>= λ (index, s1).
      deref (get_elem? s1.table index) >>= λ e. if size == 0 then done (false, s1) else elim e.tls [
        | some t ↦ done (false, s1)
        | none ↦
            let page_num = round_up size in
            let (pages, heap, m) = new_pages (rounds page_num) s1.heap s1.memory in
            let t : Storage = record {
              tid = tid;
              size = size;
              page_num = to_unsigned page_num;
              pages = pages;
            } in
            done (
              true,
              record s1 {
                table = set s1.table index (record { tid = tid; tls = some t });
                heap = heap;
                memory = m;
              },
            )
      ]

  -- The bytes are those that are written to the buffer.
  unfoldable pub tls_read : (tid offset len : ℕ) → TlsState M → Outcome (Bool × List ℕ × TlsState M)
  unfolding find_index protect boundary_read
  tls_read tid offset len s = find_index tid s >>= λ (index, s1).
      deref (get_elem? s1.table index) >>= λ e. elim e.tls [
        | none ↦ done (false, [], s1)
        | some t ↦
            let n = offset / page_size in
            let rem = offset - n * page_size in
            if ltb (t.page_num * page_size % 2 ^ 32) len
            then done (false, [], s1)
            else (protect h index n readable s1 >>= λ s2. deref (page_at index n s2) >>= λ (p, g).
                let start = g.addr + rem in
                let end = g.addr + page_size in
                if ltb end (start + len)
                then boundary_read h len index t.page_num n start end s2
                else (deref (h.load start len s2.memory) >>= λ bytes.
                    protect h index n closed s2 >>= λ s3. done (true, bytes, s3)))
      ]

  -- `buffer` is the memory from the address that is passed on. A copy of `length` bytes that it does
  -- not have is a fault.
  unfoldable pub tls_write :
      (tid offset len : ℕ) (buffer : List ℕ) → TlsState M → Outcome (Bool × TlsState M)
  unfolding find_index protect open_page boundary_write
  tls_write tid offset len buffer s = find_index tid s >>= λ (index, s1).
      deref (get_elem? s1.table index) >>= λ e. elim e.tls [
        | none ↦ done (false, s1)
        | some t ↦
            let n = offset / page_size in
            let rem = offset - n * page_size in
            if ltb (t.page_num * page_size % 2 ^ 32) len
            then done (false, s1)
            else (open_page h index n s1 >>= λ s2. deref (page_at index n s2) >>= λ (p, g).
                let start = g.addr + rem in
                let end = g.addr + page_size in
                if ltb end (start + len)
                then boundary_write h buffer index t.page_num n start end s2
                else if ltb (length buffer) len
                then fault
                else (deref (h.store start (take len buffer) s2.memory) >>= λ m.
                    protect h index n closed (record s2 { memory = m }) >>= λ s3. done (true, s3)))
      ]
