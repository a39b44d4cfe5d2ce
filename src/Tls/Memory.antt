-- ===== src/Tls/Memory.antt =====
-- What Challenge4/tls.c uses of the machine: `mmap` and `mprotect` of one page, and `memcpy` from
-- and to pages, with what the system promises of calls that succeed.
use operating_system_challen.Base.{
  ℕ, ◌+◌, ◌-◌, ◌%◌, ◌≤◌, ◌<◌, ◌≡◌, ◌≢◌, ◌⊎◌, Bool, true, false, Option, some, List, ◌&&◌, leb, ltb,
  if◌then◌else◌, length, get_or, tabulate,
}

-- PROT_NONE, PROT_READ, and PROT_WRITE with or without PROT_READ: on x86 a page that can be
-- written can be read.
pub data Access : Type 0 where
  closed : Access
  readable : Access
  writable : Access

-- `load` and `store` are the two sides of a `memcpy` that meet the pages; `none` is a signal.
pub record Memory (M : Type 0) : Type 0 where
  -- `mmap(0, 4096, prot, MAP_ANON | MAP_PRIVATE, 0, 0)`
  pub mmap : Access → M → ℕ × M
  -- `mprotect(addr, 4096, prot)`
  pub mprotect : ℕ → Access → M → M
  pub load : (addr n : ℕ) → M → Option (List ℕ)
  pub store : (addr : ℕ) → List ℕ → M → Option M

-- What stands behind the calls: which addresses begin a page that is mapped, how a page can be
-- used, and the bytes.
pub record MemoryView (M : Type 0) : Type 0 where
  pub is_mapped : M → ℕ → Bool
  pub access : M → ℕ → Access
  pub byte : M → ℕ → ℕ

pub record IsMemory {M : Type 0} (h : Memory M) (v : MemoryView M) : Type 0 where
  -- A new page is apart from those that are there, and blank.
  pub mmap_ok :
      (p : Access) (m m' : M) (a : ℕ)
      → h.mmap p m ≡ (a, m')
      → (a % 4096 ≡ 0)
        × (v.is_mapped m a ≡ false)
        × (v.is_mapped m' a ≡ true)
        × (v.access m' a ≡ p)
        × ((r : ℕ) → r < 4096 → v.byte m' (a + r) ≡ 0)
        × ((b : ℕ) → v.is_mapped m b ≡ true → v.is_mapped m' b ≡ true)
        × ((k : ℕ) → (k < a) ⊎ (a + 4096 ≤ k) → v.byte m' k ≡ v.byte m k)
  pub mprotect_ok :
      (a : ℕ) (p : Access) (m : M)
      → v.is_mapped m a ≡ true
      → (v.access (h.mprotect a p m) a ≡ p)
        × ((b : ℕ) → b ≢ a → v.access (h.mprotect a p m) b ≡ v.access m b)
        × ((b : ℕ) → v.is_mapped (h.mprotect a p m) b ≡ v.is_mapped m b)
        × ((k : ℕ) → v.byte (h.mprotect a p m) k ≡ v.byte m k)
  pub load_ok :
      (a r n : ℕ) (m : M)
      → v.is_mapped m a ≡ true
      → v.access m a ≢ closed
      → r + n ≤ 4096
      → h.load (a + r) n m ≡ some (tabulate (v.byte m) (a + r) n)
  pub store_ok :
      (a r : ℕ) (bytes : List ℕ) (m : M)
      → v.is_mapped m a ≡ true
      → v.access m a ≡ writable
      → r + length bytes ≤ 4096
      → (m' : M) × (h.store (a + r) bytes m ≡ some m')
        × ((b : ℕ) → v.access m' b ≡ v.access m b)
        × ((b : ℕ) → v.is_mapped m' b ≡ v.is_mapped m b)
        × ((k : ℕ)
            → v.byte m' k ≡ (
                if leb (a + r) k && ltb k (a + r + length bytes)
                then get_or bytes (k - (a + r)) 0
                else v.byte m k))
