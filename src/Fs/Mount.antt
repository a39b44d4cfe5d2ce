-- ===== src/Fs/Mount.antt =====
-- Challenge5/fs.c: `make_fs`, `mount_fs` and `umount_fs`. Each returns `true` for 0 and `false`
-- for -1, with the new state. `malloc_buf` is what the buffer that `malloc` returns holds.
pub mod RoundTrip
pub mod Fresh
pub mod Failure
use operating_system_challen.Base.{
  ℕ, ◌+◌, Bool, true, false, List, [], ◌++◌, if◌then◌else◌, replicate, drop, Outcome, done, fault,
  ◌>>=◌, ℤ, pos,
}
use operating_system_challen.Device.{Block, FileName, Device}
use operating_system_challen.Fs.Types.{
  SuperBlock, Inode, DirEntry, FileDescriptor, FileSystem, u16, max_files, max_fds,
}
use operating_system_challen.Fs.Bitmap.{write_used_blocks_bit}
use operating_system_challen.Fs.Layout.{
  encode_u32, encode_sb, encode_inode, encode_dir_entry, encode_table, decode_u32, decode_sb,
  decode_inode, decode_dir_entry, decode_table, sizeof_sb, sizeof_bitmap, sizeof_inodes, overlay,
}

-- The elements of the arrays after `memset(…, 0, …)`.
abbrev pub no_inode : Inode
no_inode = record { is_used = false; single_indirect_block = 0; file_size = 0 }

abbrev pub no_entry : DirEntry
no_entry = record { is_used = false; inode_num = 0; name = replicate 16 0 }

abbrev pub no_fd : FileDescriptor
no_fd = record { is_used = false; inode_num = 0; offset = 0 }

module _ {W : Type 0} where
  -- The three `memset` calls that each of the functions makes.
  unfoldable pub clear_tables : FileSystem W → FileSystem W
  clear_tables s = record s {
    inodes = replicate max_files no_inode;
    directory = replicate max_files no_entry;
    bitmap = replicate 256 0;
  }

  -- The four `memcpy` calls: the bytes of the global arrays.
  unfoldable pub metadata : FileSystem W → List ℕ
  metadata s =
      encode_sb s.sb
      ++ (encode_table encode_u32 s.bitmap
          ++ (encode_table encode_inode s.inodes ++ encode_table encode_dir_entry s.directory))

  -- The four `memcpy` calls the other way.
  unfoldable pub load_metadata : Block → FileSystem W → FileSystem W
  load_metadata b s = record s {
    sb = decode_sb b;
    bitmap = decode_table 4 decode_u32 256 (drop sizeof_sb b);
    inodes = decode_table 6 decode_inode max_files (drop (sizeof_sb + sizeof_bitmap) b);
    directory =
        decode_table 20 decode_dir_entry max_files
          (drop (sizeof_sb + sizeof_bitmap + sizeof_inodes) b);
  }

module _ {W : Type 0} (d : Device W) where
  -- `make_disk`, `open_disk`, `block_write` and `close_disk` in turn.
  unfoldable pub create_disk : FileName → Block → W → Bool × W
  create_disk name buf w =
      let (made, w1) = d.make_disk name w in
      let (opened, w2) = d.open_disk name w1 in
      let (written, w3) = d.block_write (pos 0) buf w2 in
      let (closed, w4) = d.close_disk w3 in
      if made
      then (if opened
          then (if written then (if closed then (true, w4) else (false, w4)) else (false, w3))
          else (false, w2))
      else (false, w1)

  unfoldable pub make_fs : Block → FileName → FileSystem W → Outcome (Bool × FileSystem W)
  unfolding create_disk clear_tables
  make_fs malloc_buf name s =
      let sb : SuperBlock = record {
        used_block_bitmap_offset = u16 sizeof_sb;
        inode_metadata_offset = u16 (sizeof_sb + sizeof_bitmap);
        directory_offset = u16 (sizeof_sb + sizeof_bitmap + sizeof_inodes);
      } in
      let cleared = clear_tables s in
      write_used_blocks_bit (pos 0) true cleared.bitmap >>= λ bitmap.
      let s' = record cleared { sb = sb; bitmap = bitmap } in
      let (ok, w) = create_disk name (overlay (metadata s') malloc_buf) s.world in
      done (ok, record s' { world = w })

  unfoldable pub mount_fs : Block → FileName → FileSystem W → Bool × FileSystem W
  unfolding clear_tables load_metadata
  mount_fs malloc_buf name s =
      let cleared = clear_tables s in
      let (opened, w1) = d.open_disk name s.world in
      let (got, buf, w2) = d.block_read (pos 0) malloc_buf w1 in
      if opened
      then (if got
          then (true, record (load_metadata buf cleared) { ready = true; world = w2 })
          else (false, record cleared { world = w2 }))
      else (false, record cleared { world = w1 })

  unfoldable pub umount_fs : Block → FileSystem W → Bool × FileSystem W
  unfolding clear_tables metadata overlay
  umount_fs malloc_buf s =
      let (written, w1) = d.block_write (pos 0) (overlay (metadata s) malloc_buf) s.world in
      let (closed, w2) = d.close_disk w1 in
      if s.ready
      then (if written
          then (if closed
              then (
                true,
                record (clear_tables s) {
                  fds = replicate max_fds no_fd;
                  ready = false;
                  world = w2;
                },
              )
              else (false, record s { world = w2 }))
          else (false, record s { world = w1 }))
      else (false, s)
