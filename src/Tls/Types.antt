-- ===== src/Tls/Types.antt =====
-- Challenge4/tls.c: its constants, structs and global variables.
use operating_system_challen.Base.{ℕ, ◌-◌, ◌^◌, Bool, Option, none, List}

abbrev pub max_threads : ℕ
max_threads = 128

-- `getpagesize()`, which the code also writes as 4096.
abbrev pub page_size : ℕ
page_size = 4096

pub record Page : Type 0 where
  pub addr : ℕ
  pub ref_count : ℕ

-- `struct thread_local_storage` without its mutex. A pointer to a `struct page` is its index in
-- the heap of pages.
pub record Storage : Type 0 where
  pub tid : ℕ
  pub size : ℕ
  pub page_num : ℕ
  pub pages : List ℕ

-- `struct tid_tls_pair`
pub record Pair : Type 0 where
  pub tid : ℕ
  pub tls : Option Storage

abbrev pub empty_tls : Pair
empty_tls = record { tid = 2 ^ 64 - 1; tls = none }

-- `ttpArray`, `maxIndex`, the static variable of `findIndex`, each `struct page` that was
-- allocated, and the memory of the process.
pub record TlsState (M : Type 0) : Type 0 where
  pub first_call : Bool
  pub table : List Pair
  pub max_index : ℕ
  pub heap : List Page
  pub memory : M
