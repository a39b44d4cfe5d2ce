-- ===== src/Fs/Invariant.antt =====
-- Challenge5/fs.c: how the inodes, the directory and the descriptors hang together.
pub mod Updates
pub mod Calls
pub mod Files
pub mod History
use operating_system_challen.Base.{
  ℕ, ◌<◌, ◌≡◌, Bool, true, false, Option, none, some, List, get_elem?, length,
}
use operating_system_challen.Fs.Types.{
  Inode, DirEntry, FileDescriptor, FileSystem, max_files, max_fds,
}
use operating_system_challen.Fs.Tables.{c_str, is_named}
use operating_system_challen.Fs.Shape.{IsShaped}

-- Inode `i` exists and is in use.
unfoldable pub inode_used : List Inode → ℕ → Bool
inode_used inodes i = elim (get_elem? inodes i) [ none ↦ false | some n ↦ n.is_used ]

-- Each file has one name and one inode in use, and so has each open descriptor.
pub record IsConsistent (inodes : List Inode) (directory : List DirEntry)
    (fds : List FileDescriptor) : Type 0 where
  pub entry_inode :
      (j : ℕ) (e : DirEntry)
      → get_elem? directory j ≡ some e
      → is_named e ≡ true
      → inode_used inodes e.inode_num ≡ true
  pub one_entry :
      (j k : ℕ) (e f : DirEntry)
      → get_elem? directory j ≡ some e
      → get_elem? directory k ≡ some f
      → is_named e ≡ true
      → is_named f ≡ true
      → e.inode_num ≡ f.inode_num
      → j ≡ k
  pub one_name :
      (j k : ℕ) (e f : DirEntry)
      → get_elem? directory j ≡ some e
      → get_elem? directory k ≡ some f
      → is_named e ≡ true
      → is_named f ≡ true
      → c_str e.name ≡ c_str f.name
      → j ≡ k
  pub fd_inode :
      (j : ℕ) (f : FileDescriptor)
      → get_elem? fds j ≡ some f
      → f.is_used ≡ true
      → inode_used inodes f.inode_num ≡ true

pub record Inv {W : Type 0} (s : FileSystem W) : Type 0 where
  pub shape : IsShaped s
  pub consistent : IsConsistent s.inodes s.directory s.fds
