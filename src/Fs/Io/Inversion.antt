-- ===== src/Fs/Io/Inversion.antt =====
-- Challenge5/fs.c: what a call of `fs_lseek` or `fs_truncate` that returns has found and changed.
use operating_system_challen.Base.{
  ℕ, ◌-◌, ◌%◌, ◌^◌, ◌≤◌, ◌≡◌, refl, true, none, some, arith, inl, inr, Option-cases, get_elem?, set,
  done, ℤ, pos, negsuc,
}
use operating_system_challen.Fs.Types.{Inode, FileDescriptor, FileSystem, u16}
use operating_system_challen.Fs.Files.{fd_at, fd_index}
use operating_system_challen.Fs.Io.{fs_lseek, fs_truncate, seek_in, truncate_in}

-- The size that `fs_truncate` stores: the low 16 bits of a negative length too.
unfoldable pub new_size : ℤ → ℕ
new_size (pos n) = u16 n
new_size (negsuc k) = 2 ^ 16 - 1 - k % 2 ^ 16

module _ {W : Type 0} where
  -- A descriptor in use, and its inode.
  pub record IsOpen (s : FileSystem W) (fildes : ℤ) (f : FileDescriptor) (n : Inode) : Type 0 where
    pub in_array : fildes ≡ pos (fd_index fildes)
    pub fd : get_elem? s.fds (fd_index fildes) ≡ some f
    pub used : f.is_used ≡ true
    pub inode : get_elem? s.inodes f.inode_num ≡ some n

  seek_in-some :
      (fildes offset : ℤ) (n : Inode) (s : FileSystem W) (f : FileDescriptor) {r : ℕ}
      {s' : FileSystem W}
      → fd_at fildes s ≡ some f
      → seek_in fildes offset n s ≡ done (some r, s')
      → (k : ℕ) × (offset ≡ pos k)
        × (k ≤ n.file_size)
        × (s' ≡ record s { fds = set s.fds (fd_index fildes) (record f { offset = k }) })
  unfolding seek_in
  seek_in-some fildes (negsuc k) n s f at e = absurd (ground arith)
  seek_in-some fildes (pos k) n s f at e = (k, refl, ground arith, ground arith)

  seek_in-none :
      (fildes offset : ℤ) (n : Inode) (s : FileSystem W) {s' : FileSystem W}
      → seek_in fildes offset n s ≡ done (none, s')
      → s' ≡ s
  unfolding seek_in
  seek_in-none fildes (negsuc k) n s e = ground arith
  seek_in-none fildes (pos k) n s e = ground arith

  pub fs_lseek-none :
      (fildes offset : ℤ) (s : FileSystem W) {s' : FileSystem W}
      → fs_lseek fildes offset s ≡ done (none, s')
      → s' ≡ s
  unfolding fs_lseek
  fs_lseek-none (negsuc j) offset s e = ground arith
  fs_lseek-none (pos j) offset s e = elim (Option-cases (get_elem? s.fds j)) [
    | inl n ↦ ground arith
    | inr (f, at) ↦ elim (Option-cases (get_elem? s.inodes f.inode_num)) [
      | inl n ↦ ground arith
      | inr (n, at') ↦ ground (arith, seek_in-none (pos j) offset n s {s' = s})
    ]
  ]

  pub fs_lseek-some :
      (fildes offset : ℤ) (s : FileSystem W) {r : ℕ} {s' : FileSystem W}
      → fs_lseek fildes offset s ≡ done (some r, s')
      → (f : FileDescriptor) × (n : Inode) × IsOpen s fildes f n
        × (s.ready ≡ true)
        × (k : ℕ) × (offset ≡ pos k)
        × (k ≤ n.file_size)
        × (s' ≡ record s { fds = set s.fds (fd_index fildes) (record f { offset = k }) })
  unfolding fs_lseek
  fs_lseek-some (negsuc j) offset s e = absurd (ground arith)
  fs_lseek-some (pos j) offset s {r} {s'} e = elim (Option-cases (get_elem? s.fds j)) [
    | inl n ↦ absurd (ground arith)
    | inr (f, at) ↦ elim (Option-cases (get_elem? s.inodes f.inode_num)) [
      | inl n ↦ absurd (ground arith)
      | inr (n, at') ↦
          let (k, o, le, new) =
            seek_in-some (pos j) offset n s f {r = r} {s' = s'} at (ground arith) in
          (
            f,
            n,
            record { in_array = refl; fd = at; used = ground arith; inode = at' },
            ground arith,
            k,
            o,
            le,
            new,
          )
    ]
  ]

  truncate_in-some :
      (i : ℕ) (size : ℤ) (n : Inode) (s : FileSystem W) {r : ℕ} {s' : FileSystem W}
      → get_elem? s.inodes i ≡ some n
      → truncate_in i size n s ≡ done (some r, s')
      → s' ≡ record s { inodes = set s.inodes i (record n { file_size = new_size size }) }
  unfolding truncate_in new_size
  truncate_in-some i (negsuc k) n s at e = ground arith
  truncate_in-some i (pos k) n s at e = ground arith

  truncate_in-none :
      (i : ℕ) (size : ℤ) (n : Inode) (s : FileSystem W) {s' : FileSystem W}
      → truncate_in i size n s ≡ done (none, s')
      → s' ≡ s
  unfolding truncate_in
  truncate_in-none i (negsuc k) n s e = ground arith
  truncate_in-none i (pos k) n s e = ground arith

  pub fs_truncate-some :
      (fildes size : ℤ) (s : FileSystem W) {r : ℕ} {s' : FileSystem W}
      → fs_truncate fildes size s ≡ done (some r, s')
      → (f : FileDescriptor) × (n : Inode) × IsOpen s fildes f n
        × (s' ≡ record s {
          inodes = set s.inodes f.inode_num (record n { file_size = new_size size });
        })
  unfolding fs_truncate
  fs_truncate-some (negsuc j) size s e = absurd (ground arith)
  fs_truncate-some (pos j) size s {r} {s'} e = elim (Option-cases (get_elem? s.fds j)) [
    | inl n ↦ absurd (ground arith)
    | inr (f, at) ↦ elim (Option-cases (get_elem? s.inodes f.inode_num)) [
      | inl n ↦ absurd (ground arith)
      | inr (n, at') ↦ (
        f,
        n,
        record { in_array = refl; fd = at; used = ground arith; inode = at' },
        truncate_in-some f.inode_num size n s {r = r} {s' = s'} at' (ground arith),
      )
    ]
  ]

  pub fs_truncate-none :
      (fildes size : ℤ) (s : FileSystem W) {s' : FileSystem W}
      → fs_truncate fildes size s ≡ done (none, s')
      → s' ≡ s
  unfolding fs_truncate
  fs_truncate-none (negsuc j) size s e = ground arith
  fs_truncate-none (pos j) size s e = elim (Option-cases (get_elem? s.fds j)) [
    | inl n ↦ ground arith
    | inr (f, at) ↦ elim (Option-cases (get_elem? s.inodes f.inode_num)) [
      | inl n ↦ ground arith
      | inr (n, at') ↦ ground (arith, truncate_in-none f.inode_num size n s {s' = s})
    ]
  ]
