-- ===== src/Fs/Mount/RoundTrip.antt =====
-- Challenge5/fs.c: what `mount_fs` reads back of what `umount_fs` wrote.
use mathlib.Core.List.{append_assoc}
use operating_system_challen.Base.{
  ◌≡◌, ap, ◌∙◌, true, some, [], arith, length, length-append, length-drop, drop, pos,
}
use operating_system_challen.Device.{Block, FileName, Device, View, IsDevice, write_pos, read_pos}
use operating_system_challen.Fs.Types.{FileSystem}
use operating_system_challen.Fs.Shape.{IsShaped}
use operating_system_challen.Fs.Layout.{overlay}
use operating_system_challen.Fs.Layout.RoundTrip.{
  stored, decode_sb-stored, decode_bitmap-stored, decode_inodes-stored, decode_directory-stored,
  length-metadata_bytes,
}
use operating_system_challen.Fs.Mount.{clear_tables, metadata, load_metadata, mount_fs, umount_fs}

-- The four arrays of `t` are those of `s`.
pub record SameMetadata {W : Type 0} (s t : FileSystem W) : Type 0 where
  pub same_sb : t.sb ≡ s.sb
  pub same_bitmap : t.bitmap ≡ s.bitmap
  pub same_inodes : t.inodes ≡ s.inodes
  pub same_directory : t.directory ≡ s.directory

module _ {W : Type 0} where
  metadata-stored :
      (s : FileSystem W) (buf : Block)
      → overlay (metadata s) buf
        ≡ stored s.sb s.bitmap s.inodes s.directory (drop (length (metadata s)) buf)
  unfolding overlay metadata
  metadata-stored s buf = simp append_assoc

  length-metadata : (s : FileSystem W) → IsShaped s → length (metadata s) ≡ 2694
  unfolding metadata
  length-metadata s v =
      length-metadata_bytes s.sb s.bitmap s.inodes s.directory [] v.bitmap_ok.words
        v.bitmap_ok.small v.inode_count v.inodes_ok v.entry_count v.entries_ok

  pub length-overlay :
      (s : FileSystem W) (buf : Block)
      → IsShaped s
      → length buf ≡ 4096
      → length (overlay (metadata s) buf) ≡ 4096
  unfolding overlay
  length-overlay s buf v h = omega (
    arith,
    length-append {0} (metadata s) (drop (length (metadata s)) buf),
    length-drop {0} (length (metadata s)) buf,
    length-metadata s v,
  )

  -- Loading the bytes of the arrays gives the arrays.
  pub load_metadata-overlay :
      (s t : FileSystem W) (buf : Block)
      → IsShaped s
      → SameMetadata s (load_metadata (overlay (metadata s) buf) t)
  unfolding load_metadata
  load_metadata-overlay s t buf v =
      let rest = drop (length (metadata s)) buf in
      rw (metadata-stored s buf) (record {
        same_sb = decode_sb-stored s.sb s.bitmap s.inodes s.directory rest v.sb_ok;
        same_bitmap =
            decode_bitmap-stored s.sb s.bitmap s.inodes s.directory rest v.bitmap_ok.words
              v.bitmap_ok.small;
        same_inodes =
            decode_inodes-stored s.sb s.bitmap s.inodes s.directory rest v.bitmap_ok.words
              v.bitmap_ok.small v.inode_count v.inodes_ok;
        same_directory =
            decode_directory-stored s.sb s.bitmap s.inodes s.directory rest v.bitmap_ok.words
              v.bitmap_ok.small v.inode_count v.inodes_ok v.entry_count v.entries_ok;
      })

module _ {W : Type 0} (d : Device W) where
  umount_fs-inv :
      (buf : Block) (s : FileSystem W) {s' : FileSystem W}
      → umount_fs d buf s ≡ (true, s')
      → (w : W) × (d.block_write (pos 0) (overlay (metadata s) buf) s.world ≡ (true, w))
        × (d.close_disk w ≡ (true, s'.world))
  unfolding umount_fs
  umount_fs-inv buf s e =
      ((d.block_write (pos 0) (overlay (metadata s) buf) s.world).1, ground arith, ground arith)

  pub mount_fs-inv :
      (buf : Block) (name : FileName) (s : FileSystem W) {s' : FileSystem W}
      → mount_fs d buf name s ≡ (true, s')
      → (w : W) × (b : Block) × (d.open_disk name s.world ≡ (true, w))
        × (d.block_read (pos 0) buf w ≡ (true, b, s'.world))
        × (s' ≡ record (load_metadata b (clear_tables s)) { ready = true; world = s'.world })
  unfolding mount_fs
  mount_fs-inv buf name s e = (
    (d.open_disk name s.world).1,
    (d.block_read (pos 0) buf (d.open_disk name s.world).1).1,
    ground arith,
    ground arith,
    ground arith,
  )

-- Unmounting a mounted file system whose arrays have the sizes and ranges of the code and mounting
-- its disk again, where both calls succeed, gives back the superblock, the bitmap, the inodes and
-- the directory, byte for byte through block 0.
pub umount_fs-mount_fs :
    {W : Type 0} (d : Device W) (v : View W) (laws : IsDevice d v) (name : FileName)
    (buf buf' : Block) (s s1 s2 : FileSystem W)
    → IsShaped s
    → length buf ≡ 4096
    → length buf' ≡ 4096
    → v.current s.world ≡ some name
    → umount_fs d buf s ≡ (true, s1)
    → mount_fs d buf' name s1 ≡ (true, s2)
    → SameMetadata s s2 × (s2.ready ≡ true) × (v.current s2.world ≡ some name)
umount_fs-mount_fs d v laws name buf buf' s s1 s2 shape size size' cur um mo =
    let (w1, wrote, closed) = umount_fs-inv d buf s um in
    let (w2, b, opened, got, eq) = mount_fs-inv d buf' name s1 mo in
    let written =
      write_pos d v laws name 0 (overlay (metadata s) buf) s.world w1 cur
        (length-overlay s buf shape size) wrote in
    let shut = laws.close_ok w1 s1.world closed in
    let disk : v.is_disk s1.world name ≡ true =
      shut.1.same_size name ∙ laws.current_is_disk name w1 written.1 in
    let mounted = laws.open_ok name s1.world w2 disk opened in
    let read = read_pos d v laws name 0 buf' b w2 s2.world mounted.0 size' got in
    let loaded : b ≡ overlay (metadata s) buf =
      read.2 ∙ (mounted.1.same_block name 0 ∙ (shut.1.same_block name 0 ∙ written.2)) in
    let same = load_metadata-overlay s (clear_tables s1) buf shape in
    (
      rw (eq, loaded)
          (record {
            same_sb = same.same_sb;
            same_bitmap = same.same_bitmap;
            same_inodes = same.same_inodes;
            same_directory = same.same_directory;
          }),
      ap (λ (u : FileSystem _). u.ready) eq,
      read.1,
    )
