-- ===== src/Tls/RoundTrip.antt =====
-- Challenge4/tls.c: what is written is read, and a clone keeps its bytes.
use operating_system_challen.Base.{
  some_injective, ℕ, suc, ◌+◌, ◌-◌, ◌*◌, ◌%◌, ◌≤◌, ◌<◌, ◌≡◌, refl, sym, ap, ap₂, ◌∙◌, ◌≢◌, inl, inr,
  true, ◌&&◌, some, List, [], ◌∷◌, arith, leb, ltb, if◌then◌else◌, length, take, length-take,
  get_or, Option-cases, done,
}
use operating_system_challen.Tls.Memory.{Memory, MemoryView, IsMemory}
use operating_system_challen.Tls.Types.{Storage, TlsState, page_size}
use operating_system_challen.Tls.Table.{tls_at}
use operating_system_challen.Tls.Calls.{tls_read, tls_write, tls_clone}
use operating_system_challen.Tls.Invariant.{Inv, Wrote, IsCaller, byte_at}
use operating_system_challen.Tls.Writing.{tls_write-inside}
use operating_system_challen.Tls.Reading.{tls_read-reads}
use operating_system_challen.Tls.Entry.{IsNew}
use operating_system_challen.Tls.Sharing.{tls_clone-shares}

same_elements :
    (xs ys : List ℕ)
    → length xs ≡ length ys
    → ((k : ℕ) → k < length ys → get_or xs k 0 ≡ get_or ys k 0)
    → xs ≡ ys
same_elements [] [] size each = refl
same_elements [] (y ∷ ys) size each = absurd (omega (arith, size))
same_elements (x ∷ xs) [] size each = absurd (omega (arith, size))
same_elements (x ∷ xs) (y ∷ ys) size each =
    ap₂ ◌∷◌ (each 0 (omega arith))
      (same_elements xs ys (omega (arith, size)) (λ k lt. each (suc k) (omega arith)))

-- Behind a write the thread has a storage of the same size still.
IsCaller-behind :
    {M : Type 0} (v : MemoryView M) (tid i o : ℕ) (t : Storage) (bytes : List ℕ) (s s' : TlsState M)
    → IsCaller tid s i t
    → Wrote v i o bytes s s'
    → (t' : Storage) × IsCaller tid s' i t' × (t'.page_num ≡ t.page_num)
IsCaller-behind v tid i o t bytes s s' c w = elim (Option-cases (tls_at i s')) [
  | inl n ↦ absurd (ground (arith, n, c.has, w.same_sizes i))
  | inr (t', at) ↦ (
    t',
    record { started = w.same_first ∙ c.started; found = w.same_threads tid ∙ c.found; has = at },
    ground (arith, at, c.has, w.same_sizes i),
  )
]

module _ {M : Type 0} (h : Memory M) (v : MemoryView M) (laws : IsMemory h v) (tid i : ℕ)
    (t : Storage) (s : TlsState M) (inv : Inv v s) (caller : IsCaller tid s i t) (offset len : ℕ)
    (buffer : List ℕ) (in_page : offset % page_size + len ≤ page_size)
    (in_storage : offset < t.page_num * page_size) (enough : len ≤ length buffer) where
  -- In well-formed tables, a thread reads back the bytes that it wrote to its storage inside one
  -- page, from a buffer that has them, and both calls return 0.
  pub tls_write-tls_read :
      (s1 s2 : TlsState M) × (tls_write h tid offset len buffer s ≡ done (true, s1))
      × (tls_read h tid offset len s1 ≡ done (true, take len buffer, s2))
  tls_write-tls_read =
      let len_ok : len ≤ t.page_num * page_size = omega arith in
      let (s1, run, inv1, wrote) =
        tls_write-inside h v laws tid i t s inv caller offset len in_storage len_ok buffer in_page
          enough in
      let (t1, caller1, size) =
        IsCaller-behind v tid i offset t (take len buffer) s s1 caller wrote in
      let (out, s2, run2, _, _, did) =
        tls_read-reads h v laws tid i t1 s1 inv1 caller1 offset len (omega (arith, size))
          (omega (arith, size)) (omega (arith, size)) in
      let full = length-take len buffer enough in
      let same : out ≡ take len buffer =
        same_elements out (take len buffer) (did.size ∙ sym full) (λ k lt. some_injective _ _ (
          sym (did.bytes k (omega (arith, full)))
          ∙ ground (arith, wrote.seen i (offset + k), full))) in
      (s1, s2, run, run2 ∙ ap (λ (x : List ℕ). done (true, x, s2)) same)

module _ {M : Type 0} (h : Memory M) (v : MemoryView M) (laws : IsMemory h v) (self tid : ℕ)
    (s : TlsState M) (inv : Inv v s) (new : IsNew self s) (j : ℕ) (t : Storage)
    (c : IsCaller tid s j t) (offset len : ℕ) (buffer : List ℕ)
    (in_page : offset % page_size + len ≤ page_size) (in_storage : offset < t.page_num * page_size)
    (enough : len ≤ length buffer) where
  -- In well-formed tables with two entries left, a thread that is in no entry clones a storage and
  -- writes to its clone, at an offset of it and inside one page, from a buffer that has the bytes:
  -- both calls return 0, the clone has the bytes written and else those of the storage, and every
  -- other storage, the cloned one too, is unchanged.
  pub tls_clone-tls_write :
      (s1 s2 : TlsState M) × (tls_clone self tid s ≡ done (true, s1))
      × (tls_write h self offset len buffer s1 ≡ done (true, s2))
      × ((o : ℕ)
          → byte_at v s.max_index o s2 ≡ (
              if leb offset o && ltb o (offset + len)
              then some (get_or (take len buffer) (o - offset) 0)
              else byte_at v j o s))
      × ((k o : ℕ) → k ≢ s.max_index → byte_at v k o s2 ≡ byte_at v k o s)
  tls_clone-tls_write =
      let (s1, run1, inv1, shared, others, caller1) = tls_clone-shares v self tid s inv new j t c in
      let (s2, run2, _, wrote) =
        tls_write-inside h v laws self s.max_index (record t { tid = self }) s1 inv1 caller1 offset
          len in_storage (omega arith) buffer in_page enough in
      let full = length-take len buffer enough in
      (
        s1,
        s2,
        run1,
        run2,
        λ o. ground (arith, wrote.seen s.max_index o, shared o, full),
        λ k o ne. ground (arith, wrote.seen k o, others k o ne),
      )
