-- ===== src/Fs/Mount/Failure.antt =====
-- Challenge5/fs.c: `mount_fs` while a disk of Challenge5/disk.c is open.
use operating_system_challen.Base.{
  ℕ, ◌≡◌, refl, sym, ap, ◌∙◌, ◌*◌, true, false, none, arith, inl, inr, Option-cases, replicate,
  done, get_elem?-replicate, pos,
}
use operating_system_challen.Device.{Block, FileName}
use operating_system_challen.Disk.{DiskState, open_disk, block_read, disk_device}
use operating_system_challen.Disk.Posix.{Host}
use operating_system_challen.Fs.Types.{FileSystem, max_files}
use operating_system_challen.Fs.Tables.{find_directory, is_named}
use operating_system_challen.Fs.Tables.Laws.{find_directory-old_some}
use operating_system_challen.Fs.Files.{fs_open}
use operating_system_challen.Fs.Mount.{no_inode, no_entry, clear_tables, mount_fs}
use operating_system_challen.Fs.Mount.RoundTrip.{mount_fs-inv}

find_directory-cleared :
    (name : FileName) → find_directory false name (replicate max_files no_entry) ≡ none
find_directory-cleared name =
    elim (Option-cases (find_directory false name (replicate max_files no_entry))) [
      | inl nothing ↦ nothing
      | inr (k, found) ↦
          let (e, at, named, _) =
            find_directory-old_some name (replicate max_files no_entry) k found in
          let same : e ≡ no_entry = get_elem?-replicate max_files k no_entry at in
          absurd (ground (arith, named, ap is_named same))
    ]

module _ {H : Type 0} (h : Host H) where
  block_read-active :
      (k : ℕ) (buf buf' : Block) (s s' : DiskState H)
      → block_read h (pos k) buf s ≡ (true, buf', s')
      → s'.active ≡ true
  unfolding block_read
  block_read-active k buf buf' s s' e =
      elim (Option-cases (h.read s.handle (h.lseek s.handle (k * 4096) s.host).1).0) [
        | inl nothing ↦ absurd (ground (arith, nothing))
        | inr (bytes, got) ↦
            let open_before : s.active ≡ true = ground (arith, got) in
            let stays : s.active ≡ s'.active = ground (arith, got) in sym stays ∙ open_before
      ]

  open_disk-refused :
      (name : FileName) (s : DiskState H) → s.active ≡ true → open_disk h name s ≡ (false, s)
  unfolding open_disk
  open_disk-refused name s active = ground (arith, active)

  mount_fs-refused :
      (buf : Block) (name : FileName) (s : FileSystem (DiskState H))
      → s.world.active ≡ true
      → mount_fs (disk_device h) buf name s ≡ (false, clear_tables s)
  unfolding mount_fs clear_tables
  mount_fs-refused buf name s active = rw (open_disk-refused name s.world active, mount_fs) refl

  fs_open-cleared :
      (name : FileName) (s : FileSystem (DiskState H))
      → fs_open name (clear_tables s) ≡ done (none, clear_tables s)
  unfolding fs_open clear_tables
  fs_open-cleared name s = ground (arith, find_directory-cleared name)

  -- On a disk of disk.c, a `mount_fs` right behind one that succeeded returns -1, whatever disk it
  -- names. It leaves the file system mounted, with its descriptors and its disk, but clears every
  -- inode, and `fs_open` of every name then returns -1.
  pub mount_fs-mount_fs :
      (buf buf' : Block) (name name' : FileName) (s s1 : FileSystem (DiskState H))
      → mount_fs (disk_device h) buf name s ≡ (true, s1)
      → (s2 : FileSystem (DiskState H)) × (mount_fs (disk_device h) buf' name' s1 ≡ (false, s2))
        × (s2.ready ≡ true)
        × (s2.fds ≡ s1.fds)
        × (s2.world ≡ s1.world)
        × (s2.inodes ≡ replicate max_files no_inode)
        × ((wanted : FileName) → fs_open wanted s2 ≡ done (none, s2))
  unfolding clear_tables
  mount_fs-mount_fs buf buf' name name' s s1 e =
      let (w, b, opened, got, new) = mount_fs-inv (disk_device h) buf name s e in
      let active = block_read-active 0 buf b w s1.world got in
      (
        clear_tables s1,
        mount_fs-refused buf' name' s1 active,
        ap (λ (t : FileSystem (DiskState H)). t.ready) new,
        refl,
        refl,
        refl,
        λ wanted. fs_open-cleared wanted s1,
      )
