-- ===== src/Fs/Mount/Fresh.antt =====
-- Challenge5/fs.c: a disk that `make_fs` made and `mount_fs` mounted is an empty file system.
use operating_system_challen.Base.{
  ℕ, ◌+◌, ◌/◌, ◌%◌, ◌^◌, ◌<◌, ◌≡◌, ap, ◌∙◌, true, false, some, List, arith, ◌==◌, inl, inr,
  Outcome-cases, length, length-replicate, replicate, get_elem?, get_or-replicate,
  get_elem?-replicate, All-replicate, done, pos,
}
use operating_system_challen.Base.Bits.{bit, bit-zero}
use operating_system_challen.Device.{Block, FileName, Device, View, IsDevice, write_pos, read_pos}
use operating_system_challen.Fs.Types.{
  DirEntry, FileDescriptor, FileSystem, max_files, max_fds, u16,
}
use operating_system_challen.Fs.Bitmap.{write_used_blocks_bit}
use operating_system_challen.Fs.Bitmap.Laws.{
  IsBitmap, used, used-write_used_blocks_bit, IsBitmap-write_used_blocks_bit,
}
use operating_system_challen.Fs.Layout.{overlay, sizeof_sb, sizeof_bitmap, sizeof_inodes}
use operating_system_challen.Fs.Layout.RoundTrip.{IsInode, IsDirEntry}
use operating_system_challen.Fs.Shape.{IsShaped}
use operating_system_challen.Fs.Tables.{is_named}
use operating_system_challen.Fs.Mount.{
  no_inode, no_entry, no_fd, metadata, load_metadata, clear_tables, create_disk, make_fs, mount_fs,
}
use operating_system_challen.Fs.Mount.RoundTrip.{
  mount_fs-inv, load_metadata-overlay, length-overlay,
}
use operating_system_challen.Fs.Invariant.{Inv, IsConsistent}

used-blank : (n q : ℕ) → used (replicate n 0) q ≡ false
unfolding used
used-blank n q = ground (
  arith,
  get_or-replicate {0} {A = ℕ} n 0 (q / 32),
  bit-zero (q % 32),
  ap (bit (q % 32)) (get_or-replicate {0} {A = ℕ} n 0 (q / 32)),
)

blank-IsBitmap : IsBitmap (replicate 256 0)
blank-IsBitmap = record {
  words = length-replicate {0} {A = ℕ} 256 0;
  small = All-replicate {0, 0} {A = ℕ} (λ w. w < 2 ^ 32) 256 0 (omega arith);
}

create_disk-inv :
    {W : Type 0} (d : Device W) (name : FileName) (buf : Block) (w w' : W)
    → create_disk d name buf w ≡ (true, w')
    → (w1 : W) × (w2 : W) × (w3 : W) × (d.make_disk name w ≡ (true, w1))
      × (d.open_disk name w1 ≡ (true, w2))
      × (d.block_write (pos 0) buf w2 ≡ (true, w3))
      × (d.close_disk w3 ≡ (true, w'))
unfolding create_disk
create_disk-inv d name buf w w' e =
    let w1 = (d.make_disk name w).1 in
    let w2 = (d.open_disk name w1).1 in
    let w3 = (d.block_write (pos 0) buf w2).1 in
    (w1, w2, w3, ground arith, ground arith, ground arith, ground arith)

-- The state whose bytes `make_fs` writes.
made_state : {W : Type 0} → List ℕ → FileSystem W → FileSystem W
unfolding clear_tables
made_state bitmap s = record (clear_tables s) {
  sb = record {
    used_block_bitmap_offset = u16 sizeof_sb;
    inode_metadata_offset = u16 (sizeof_sb + sizeof_bitmap);
    directory_offset = u16 (sizeof_sb + sizeof_bitmap + sizeof_inodes);
  };
  bitmap = bitmap;
}

make_fs-inv :
    {W : Type 0} (d : Device W) (buf : Block) (name : FileName) (s s' : FileSystem W)
    → make_fs d buf name s ≡ done (true, s')
    → (bitmap : List ℕ) × (write_used_blocks_bit (pos 0) true (replicate 256 0) ≡ done bitmap)
      × (create_disk d name (overlay (metadata (made_state bitmap s)) buf) s.world
          ≡ (true, s'.world))
      × (s' ≡ record (made_state bitmap s) { world = s'.world })
unfolding make_fs made_state
make_fs-inv d buf name s s' e =
    elim (Outcome-cases (write_used_blocks_bit (pos 0) true (replicate 256 0))) [
      | inl f ↦ absurd (ground arith)
      | inr (bitmap, took) ↦ (bitmap, took, ground arith, ground arith)
    ]

made_state-IsShaped :
    {W : Type 0} (bitmap : List ℕ) (s : FileSystem W)
    → write_used_blocks_bit (pos 0) true (replicate 256 0) ≡ done bitmap
    → s.fds ≡ replicate max_fds no_fd
    → IsShaped (made_state bitmap s)
unfolding made_state
made_state-IsShaped bitmap s took fds = record {
  inode_count = length-replicate {0} max_files no_inode;
  inodes_ok =
      All-replicate IsInode max_files no_inode
        (record { block_u16 = omega arith; size_u16 = omega arith });
  entry_count = length-replicate {0} max_files no_entry;
  entries_ok =
      All-replicate IsDirEntry max_files no_entry
        (record { inode_u16 = omega arith; name_size = length-replicate {0} {A = ℕ} 16 0 });
  fd_count = ap length fds ∙ length-replicate {0} max_fds no_fd;
  bitmap_ok = IsBitmap-write_used_blocks_bit (pos 0) true (replicate 256 0) blank-IsBitmap took;
  sb_ok = record {
    bitmap_u16 = omega arith;
    inodes_u16 = omega arith;
    directory_u16 = omega arith;
  };
}

-- Tables with no file and no open descriptor.
pub blank-IsConsistent :
    IsConsistent
      (replicate max_files no_inode)
      (replicate max_files no_entry)
      (replicate max_fds no_fd)
blank-IsConsistent = record {
  entry_inode = λ j e at named. absurd (unnamed j e at named);
  one_entry = λ j k e f at _ named _ _. absurd (unnamed j e at named);
  one_name = λ j k e f at _ named _ _. absurd (unnamed j e at named);
  fd_inode = λ j f at u.
      let same : f ≡ no_fd = get_elem?-replicate max_fds j no_fd at in
      absurd (ground (arith, ap (λ (t : FileDescriptor). t.is_used) same));
}
  where
    unnamed :
        (j : ℕ) (e : DirEntry)
        → get_elem? (replicate max_files no_entry) j ≡ some e
        → is_named e ≡ true
        → ⊥
    unnamed j e at named =
        let same : e ≡ no_entry = get_elem?-replicate max_files j no_entry at in
        ground (arith, ap is_named same)

-- A disk that `make_fs` made and `mount_fs` mounted, where both calls succeed and no descriptor is
-- open before, is a file system with no file, with every inode free and with block 0 alone in
-- use; its tables are well formed.
pub make_fs-mount_fs :
    {W : Type 0} (d : Device W) (v : View W) (laws : IsDevice d v) (name : FileName)
    (buf buf' : Block) (s s1 s2 : FileSystem W)
    → length buf ≡ 4096
    → length buf' ≡ 4096
    → s.fds ≡ replicate max_fds no_fd
    → make_fs d buf name s ≡ done (true, s1)
    → mount_fs d buf' name s1 ≡ (true, s2)
    → Inv s2
      × (s2.ready ≡ true)
      × (v.current s2.world ≡ some name)
      × (s2.inodes ≡ replicate max_files no_inode)
      × (s2.directory ≡ replicate max_files no_entry)
      × ((q : ℕ) → used s2.bitmap q ≡ (q == 0))
unfolding made_state load_metadata clear_tables
make_fs-mount_fs d v laws name buf buf' s s1 s2 size size' fds mk mo =
    let (bitmap, took, created, made) = make_fs-inv d buf name s s1 mk in
    let t = made_state bitmap s in
    let shape = made_state-IsShaped bitmap s took fds in
    let (w1, w2, w3, m, o, w, c) =
      create_disk-inv d name (overlay (metadata t) buf) s.world s1.world created in
    let fresh = laws.make_ok name s.world w1 m in
    let opened = laws.open_ok name w1 w2 fresh.0 o in
    let written =
      write_pos d v laws name 0 (overlay (metadata t) buf) w2 w3 opened.0
        (length-overlay t buf shape size) w in
    let shut = laws.close_ok w3 s1.world c in
    let disk : v.is_disk s1.world name ≡ true =
      shut.1.same_size name ∙ laws.current_is_disk name w3 written.1 in
    let (w4, b, opened', got, eq) = mount_fs-inv d buf' name s1 mo in
    let mounted = laws.open_ok name s1.world w4 disk opened' in
    let read = read_pos d v laws name 0 buf' b w4 s2.world mounted.0 size' got in
    let loaded : b ≡ overlay (metadata t) buf =
      read.2 ∙ (mounted.1.same_block name 0 ∙ (shut.1.same_block name 0 ∙ written.2)) in
    let same = load_metadata-overlay t (clear_tables s1) buf shape in
    let inodes2 : s2.inodes ≡ replicate max_files no_inode =
      ap (λ (x : FileSystem _). x.inodes) eq
      ∙ (ap (λ (x : Block). (load_metadata x (clear_tables s1)).inodes) loaded
          ∙ same.same_inodes) in
    let directory2 : s2.directory ≡ replicate max_files no_entry =
      ap (λ (x : FileSystem _). x.directory) eq
      ∙ (ap (λ (x : Block). (load_metadata x (clear_tables s1)).directory) loaded
          ∙ same.same_directory) in
    let bitmap2 : s2.bitmap ≡ bitmap =
      ap (λ (x : FileSystem _). x.bitmap) eq
      ∙ (ap (λ (x : Block). (load_metadata x (clear_tables s1)).bitmap) loaded
          ∙ same.same_bitmap) in
    let sb2 : s2.sb ≡ t.sb =
      ap (λ (x : FileSystem _). x.sb) eq
      ∙ (ap (λ (x : Block). (load_metadata x (clear_tables s1)).sb) loaded ∙ same.same_sb) in
    let fds2 : s2.fds ≡ replicate max_fds no_fd =
      ap (λ (x : FileSystem _). x.fds) eq ∙ (ap (λ (x : FileSystem _). x.fds) made ∙ fds) in
    (
      record {
        shape = record {
          inode_count = rw inodes2 shape.inode_count;
          inodes_ok = rw inodes2 shape.inodes_ok;
          entry_count = rw directory2 shape.entry_count;
          entries_ok = rw directory2 shape.entries_ok;
          fd_count = rw fds2 (length-replicate {0} max_fds no_fd);
          bitmap_ok = rw bitmap2 shape.bitmap_ok;
          sb_ok = rw sb2 shape.sb_ok;
        };
        consistent = rw (inodes2, directory2, fds2) blank-IsConsistent;
      },
      ap (λ (x : FileSystem _). x.ready) eq,
      read.1,
      inodes2,
      directory2,
      λ q. rw bitmap2 (zero_only bitmap took q),
    )
  where
    zero_only :
        (bitmap : List ℕ)
        → write_used_blocks_bit (pos 0) true (replicate 256 0) ≡ done bitmap
        → (q : ℕ) → used bitmap q ≡ (q == 0)
    zero_only bitmap took q =
        ground (arith, used-write_used_blocks_bit 0 true (replicate 256 0) q took, used-blank 256 q)
