-- ===== src/Fs/Files/Inversion.antt =====
-- Challenge5/fs.c: what a call of `fs_open` or `fs_close` that returns has found and changed.
use operating_system_challen.Base.{
  ℕ, ◌≡◌, refl, true, false, none, some, arith, inl, inr, Option-cases, get_elem?, set, done, ℤ,
  pos, negsuc,
}
use operating_system_challen.Device.{FileName}
use operating_system_challen.Fs.Types.{DirEntry, FileDescriptor, FileSystem}
use operating_system_challen.Fs.Tables.{find_directory, find_fd}
use operating_system_challen.Fs.Mount.{no_fd}
use operating_system_challen.Fs.Files.{fs_open, fs_close, fd_index}

-- A descriptor that is opened on an inode.
abbrev pub opened_fd : ℕ → FileDescriptor
opened_fd inode = record { is_used = true; inode_num = inode; offset = 0 }

module _ {W : Type 0} where
  pub fs_open-none :
      (name : FileName) (s : FileSystem W) {s' : FileSystem W}
      → fs_open name s ≡ done (none, s')
      → s' ≡ s
  unfolding fs_open
  fs_open-none name s e = ground arith

  pub fs_open-some :
      (name : FileName) (s : FileSystem W) {fd : ℕ} {s' : FileSystem W}
      → fs_open name s ≡ done (some fd, s')
      → (dir : ℕ) × (entry : DirEntry) × (find_directory false name s.directory ≡ some dir)
        × (get_elem? s.directory dir ≡ some entry)
        × (find_fd s.fds ≡ some fd)
        × (s.ready ≡ true)
        × (s' ≡ record s { fds = set s.fds fd (opened_fd entry.inode_num) })
  unfolding fs_open
  fs_open-some name s {fd} e = elim (Option-cases (find_directory false name s.directory)) [
    | inl n ↦ absurd (ground arith)
    | inr (dir, found) ↦ elim (Option-cases (get_elem? s.directory dir)) [
      | inl n ↦ absurd (ground arith)
      | inr (entry, at) ↦ (dir, entry, found, at, ground arith, ground arith, ground arith)
    ]
  ]

  pub fs_close-none :
      (fildes : ℤ) (s : FileSystem W) {s' : FileSystem W}
      → fs_close fildes s ≡ done (none, s')
      → s' ≡ s
  unfolding fs_close
  fs_close-none fildes s e = ground arith

  pub fs_close-some :
      (fildes : ℤ) (s : FileSystem W) {r : ℕ} {s' : FileSystem W}
      → fs_close fildes s ≡ done (some r, s')
      → (f : FileDescriptor) × (fildes ≡ pos (fd_index fildes))
        × (get_elem? s.fds (fd_index fildes) ≡ some f)
        × (f.is_used ≡ true)
        × (r ≡ 0)
        × (s' ≡ record s { fds = set s.fds (fd_index fildes) no_fd })
  unfolding fs_close
  fs_close-some (negsuc k) s e = absurd (ground arith)
  fs_close-some (pos k) s e = elim (Option-cases (get_elem? s.fds k)) [
    | inl n ↦ absurd (ground arith)
    | inr (f, at) ↦ (f, refl, at, ground arith, ground arith, ground arith)
  ]
