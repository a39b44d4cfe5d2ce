-- ===== src/Tls/Copy/Bytes.antt =====
-- Challenge4/tls.c: the memory behind a copied page.
use operating_system_challen.Base.{
  ℕ, zero, suc, ◌+◌, ◌-◌, ◌%◌, ◌≤◌, ◌<◌, ◌≡◌, refl, ap, ◌∙◌, ◌≢◌, ◌⊎◌, inl, inr, true, false, some,
  List, arith, get_or, length, tabulate, length-tabulate, Bool-cases, leb, ltb, ◌&&◌, if◌then◌else◌,
}
use operating_system_challen.Tls.Memory.{Memory, MemoryView, IsMemory, closed, writable}

pub get_or-tabulate : (f : ℕ → ℕ) (i n k : ℕ) → k < n → get_or (tabulate f i n) k 0 ≡ f (i + k)
unfolding tabulate
get_or-tabulate f i zero k h = absurd (omega arith)
get_or-tabulate f i (suc n) zero h = ap f (omega arith)
get_or-tabulate f i (suc n) (suc k) h =
    get_or-tabulate f (i + 1) n k (omega arith) ∙ ap f (omega arith)

-- The bytes before, behind `mmap`, behind `mprotect`, behind the copy and behind the last call.
copied_bytes :
    (f f1 f2 f3 f4 : ℕ → ℕ) (a b : ℕ)
    → (a + 4096 ≤ b) ⊎ (b + 4096 ≤ a)
    → ((k : ℕ) → (k < b) ⊎ (b + 4096 ≤ k) → f1 k ≡ f k)
    → ((k : ℕ) → f2 k ≡ f1 k)
    → ((k : ℕ)
        → f3 k ≡ (
            if leb (b + 0) k && ltb k (b + 0 + length (tabulate f2 a 4096))
            then get_or (tabulate f2 a 4096) (k - (b + 0)) 0
            else f2 k))
    → ((k : ℕ) → f4 k ≡ f3 k)
    → ((r : ℕ) → r < 4096 → f4 (b + r) ≡ f (a + r))
      × ((k : ℕ) → (k < b) ⊎ (b + 4096 ≤ k) → f4 k ≡ f k)
copied_bytes f f1 f2 f3 f4 a b out far two three four = (
  λ r lt.
      let index : get_or (tabulate f2 a 4096) (b + r - (b + 0)) 0 ≡ f2 (a + r) =
        ap (λ (x : ℕ). get_or (tabulate f2 a 4096) x 0) (omega arith)
        ∙ get_or-tabulate f2 a 4096 r lt in
      let from : f1 (a + r) ≡ f (a + r) =
        far (a + r) (elim out [ inl lo ↦ inl (omega arith) | inr hi ↦ inr (omega arith) ]) in
      ground
        (arith, four (b + r), three (b + r), length-tabulate f2 a 4096, index, two (a + r), from),
  λ k away.
      let miss : (leb (b + 0) k && ltb k (b + 0 + length (tabulate f2 a 4096))) ≡ false =
        elim away [
          | inl lo ↦ ground (arith)
          | inr hi ↦ ground (arith, length-tabulate f2 a 4096)
        ] in
      ground (arith, four k, three k, miss, two k, far k away),
)

-- The memory `m'` has a new page at `b`, open for writing, with the bytes of the page at `a`.
pub record Copied {M : Type 0} (v : MemoryView M) (a b : ℕ) (m m' : M) : Type 0 where
  pub aligned : b % 4096 ≡ 0
  pub fresh : v.is_mapped m b ≡ false
  pub mapped : v.is_mapped m' b ≡ true
  pub writes : v.access m' b ≡ writable
  pub still_mapped : (c : ℕ) → v.is_mapped m c ≡ true → v.is_mapped m' c ≡ true
  pub copy : (r : ℕ) → r < 4096 → v.byte m' (b + r) ≡ v.byte m (a + r)
  pub others : (k : ℕ) → (k < b) ⊎ (b + 4096 ≤ k) → v.byte m' k ≡ v.byte m k

module _ {M : Type 0} (h : Memory M) (v : MemoryView M) (laws : IsMemory h v) (a : ℕ) (m : M)
    (there : v.is_mapped m a ≡ true) (aligned_a : a % 4096 ≡ 0) where
  -- `mmap`, and the copy between two calls of `mprotect`.
  pub Copied-memory :
      (bytes : List ℕ) × (m3 : M) × (h.load a 4096 (h.mprotect a writable (h.mmap writable m).1)
        ≡ some bytes)
      × (h.store (h.mmap writable m).0 bytes (h.mprotect a writable (h.mmap writable m).1)
          ≡ some m3)
      × Copied v a (h.mmap writable m).0 m (h.mprotect a closed m3)
  Copied-memory =
      let b = (h.mmap writable m).0 in
      let m1 = (h.mmap writable m).1 in
      let (aligned, fresh, new, acc, blank, kept, far) = laws.mmap_ok writable m m1 b refl in
      let a1 : v.is_mapped m1 a ≡ true = kept a there in
      let m2 = h.mprotect a writable m1 in
      let (acc2, other2, map2, byte2) = laws.mprotect_ok a writable m1 a1 in
      let apart : b ≢ a = λ same. ground (arith, there, fresh, ap (v.is_mapped m) same) in
      let out : (a + 4096 ≤ b) ⊎ (b + 4096 ≤ a) = far_apart b apart aligned in
      let bytes = tabulate (v.byte m2) a 4096 in
      let loaded : h.load a 4096 m2 ≡ some bytes =
        ap (λ (x : ℕ). h.load x 4096 m2) (omega arith)
        ∙ (laws.load_ok a 0 4096 m2 (map2 a ∙ a1) (λ e. ground (arith, acc2, e)) (omega arith)
            ∙ ap (λ (x : ℕ). some (tabulate (v.byte m2) x 4096)) (omega arith)) in
      let b2 : v.is_mapped m2 b ≡ true = map2 b ∙ new in
      let (m3, stored, acc3, map3, byte3) =
        laws.store_ok b 0 bytes m2 b2 (other2 b apart ∙ acc)
          (omega (arith, length-tabulate (v.byte m2) a 4096)) in
      let a3 : v.is_mapped m3 a ≡ true = map3 a ∙ (map2 a ∙ a1) in
      let (acc4, other4, map4, byte4) = laws.mprotect_ok a closed m3 a3 in
      let done_bytes =
        copied_bytes (v.byte m) (v.byte m1) (v.byte m2) (v.byte m3)
          (v.byte (h.mprotect a closed m3)) a b out far byte2 byte3 byte4 in
      (
        bytes,
        m3,
        loaded,
        ap (λ (x : ℕ). h.store x bytes m2) (omega arith) ∙ stored,
        record {
          aligned = aligned;
          fresh = fresh;
          mapped = map4 b ∙ (map3 b ∙ b2);
          writes = other4 b apart ∙ (acc3 b ∙ (other2 b apart ∙ acc));
          still_mapped = λ c old. map4 c ∙ (map3 c ∙ (map2 c ∙ kept c old));
          copy = done_bytes.0;
          others = done_bytes.1;
        },
      )
    where
      far_apart : (b : ℕ) → b ≢ a → b % 4096 ≡ 0 → (a + 4096 ≤ b) ⊎ (b + 4096 ≤ a)
      far_apart b ne al = elim (Bool-cases (ltb a b)) [
        | inl lt ↦ inl (ground arith)
        | inr ge ↦ inr (ground arith)
      ]
