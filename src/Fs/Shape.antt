-- ===== src/Fs/Shape.antt =====
-- Challenge5/fs.c: the sizes of the global arrays, and the ranges of what they hold.
use operating_system_challen.Base.{◌≡◌, length, All}
use operating_system_challen.Fs.Types.{FileSystem, max_files, max_fds}
use operating_system_challen.Fs.Bitmap.Laws.{IsBitmap}
use operating_system_challen.Fs.Layout.RoundTrip.{IsInode, IsDirEntry, IsSuperBlock}

pub record IsShaped {W : Type 0} (s : FileSystem W) : Type 0 where
  pub inode_count : length s.inodes ≡ max_files
  pub inodes_ok : All IsInode s.inodes
  pub entry_count : length s.directory ≡ max_files
  pub entries_ok : All IsDirEntry s.directory
  pub fd_count : length s.fds ≡ max_fds
  pub bitmap_ok : IsBitmap s.bitmap
  pub sb_ok : IsSuperBlock s.sb
