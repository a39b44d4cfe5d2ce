-- ===== src/Disk/Blocks.antt =====
-- Challenge5/disk.c: the disks that a client of the device sees.
use operating_system_challen.Base.{
  tabulate, tabulate-eq, ◌*◌, ◌≤◌, ◌≡◌, ap, Bool, true, Option, none, some, arith, leb, le→leb,
  if◌then◌else◌, inl, inr, Bool-cases, Option-cases,
}
use operating_system_challen.Device.{FileName, View, SameDisks}
use operating_system_challen.Disk.Posix.{Host, HostView, SameFiles}
use operating_system_challen.Disk.{DiskState}

module _ {H : Type 0} (h : Host H) (v : HostView H) where
  unfoldable pub is_disk : DiskState H → FileName → Bool
  is_disk s n = leb (8192 * 4096) (v.size s.host n)

  unfoldable pub current : DiskState H → Option FileName
  unfolding is_disk
  current s = elim (if s.active then v.file s.host s.handle else none) [
    | none ↦ none
    | some n ↦ if is_disk s n then some n else none
  ]

  -- A disk is seen through the bytes of its file.
  abbrev pub disk_view : View (DiskState H)
  disk_view = record {
    current = current;
    is_disk = is_disk;
    block = λ s n i. tabulate (v.byte s.host n) (i * 4096) 4096;
  }

  pub current-some :
      (s : DiskState H) (n : FileName)
      → current s ≡ some n
      → (s.active ≡ true) × (v.file s.host s.handle ≡ some n) × (8192 * 4096 ≤ v.size s.host n)
  unfolding current
  current-some s n e = elim (Bool-cases s.active) [
    | inl a ↦ elim (Option-cases (v.file s.host s.handle)) [
      | inl f ↦ absurd (ground arith)
      | inr (m, f) ↦ (a, ground arith, ground arith)
    ]
    | inr a ↦ absurd (ground arith)
  ]

  pub some-current :
      (s : DiskState H) (n : FileName)
      → s.active ≡ true
      → v.file s.host s.handle ≡ some n
      → 8192 * 4096 ≤ v.size s.host n
      → current s ≡ some n
  unfolding current
  some-current s n a f z = rw (a, f, current) (ground arith)

  pub is_disk-le :
      (s : DiskState H) (n : FileName) → is_disk s n ≡ true → 8192 * 4096 ≤ v.size s.host n
  unfolding is_disk
  is_disk-le s n e = ground arith

  pub is_disk-of_le :
      (n : FileName) (s : DiskState H) → 8192 * 4096 ≤ v.size s.host n → is_disk s n ≡ true
  unfolding is_disk
  is_disk-of_le n s full = le→leb _ _ full

  pub SameFiles-disks : (s t : DiskState H) → SameFiles v s.host t.host → SameDisks disk_view s t
  unfolding is_disk
  SameFiles-disks s t same = record {
    same_size = λ m. ap (leb (8192 * 4096)) (same.same_size m);
    same_block = λ m i. tabulate-eq _ _ (i * 4096) 4096 (λ k lo hi. same.same_byte m k);
  }
