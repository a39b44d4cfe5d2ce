-- ===== src/Tests/States.antt =====
-- A disk on the host with one file, and file systems on it.
use operating_system_challen.Base.{
  ℕ, ◌*◌, ◌≡◌, true, some, none, none, List, [], ◌∷◌, ◌==◌, if◌then◌else◌, replicate, Option, List,
  Outcome, arith, All-replicate, refl, ◌<◌, ◌^◌, done, fault,
}
use operating_system_challen.Device.{Block, FileName, Device, View, IsDevice}
use operating_system_challen.Disk.{DiskState, block_write, disk_device}
use operating_system_challen.Disk.Blocks.{current, disk_view}
use operating_system_challen.Disk.Laws.{disk_device-IsDevice}
use operating_system_challen.Fs.Types.{
  SuperBlock, Inode, DirEntry, FileDescriptor, FileSystem, max_files, max_fds,
}
use operating_system_challen.Fs.Layout.RoundTrip.{IsInode, IsDirEntry}
use operating_system_challen.Fs.Tables.Laws.{IsCString}
use operating_system_challen.Fs.Files.{fs_create}
use operating_system_challen.Fs.Bitmap.{write_used_blocks_bit, find_used_blocks_bit}
use operating_system_challen.Fs.Tables.{find_inode, find_directory}
use operating_system_challen.Fs.Shape.{IsShaped}
use operating_system_challen.Fs.Invariant.{Inv}
use operating_system_challen.Fs.Invariant.Files.{fs_create-Inv}
use operating_system_challen.Fs.Mount.Fresh.{blank-IsConsistent}
use operating_system_challen.Fs.Mount.{no_inode, no_entry, no_fd}
use operating_system_challen.Tests.Host.{OneFile, one_file, one_file_view, one_file-IsHost}

abbrev pub disk : Device (DiskState OneFile)
disk = disk_device one_file

abbrev pub view : View (DiskState OneFile)
view = disk_view one_file one_file_view

pub laws : IsDevice disk view
laws = disk_device-IsDevice one_file one_file_view one_file-IsHost

abbrev pub State : Type 0
State = FileSystem (DiskState OneFile)

abbrev pub disk_name : FileName
disk_name = 100 ∷ []

-- An open disk. Block 1 lists block 2, and every other byte is 0.
abbrev open_world : DiskState OneFile
open_world = record {
  active = true;
  handle = 3;
  host = record {
    file = some disk_name;
    position = 0;
    size = 8192 * 4096;
    byte = λ k. if k == 4096 then 2 else 0;
  };
}

abbrev pub empty_block : Block
empty_block = replicate 4096 0

abbrev super_block : SuperBlock
super_block = record {
  used_block_bitmap_offset = 6;
  inode_metadata_offset = 1030;
  directory_offset = 1414;
}

-- A mounted file system with no file.
abbrev pub blank : State
blank = record {
  inodes = replicate max_files no_inode;
  directory = replicate max_files no_entry;
  fds = replicate max_fds no_fd;
  bitmap = 1 ∷ replicate 255 0;
  ready = true;
  sb = super_block;
  world = open_world;
}

abbrev pub file_name : FileName
file_name = 97 ∷ 98 ∷ []

abbrev file_entry : DirEntry
file_entry = record { is_used = true; inode_num = 0; name = 97 ∷ 98 ∷ replicate 14 0 }

abbrev pub file_inode : Inode
file_inode = record { is_used = true; single_indirect_block = 1; file_size = 10 }

abbrev pub file_fd : FileDescriptor
file_fd = record { is_used = true; inode_num = 0; offset = 4 }

-- A file of 10 bytes, with its block numbers in block 1 and its bytes in block 2, and the
-- descriptor 0 at offset 4 of it.
abbrev pub one_open : State
one_open = record blank {
  inodes = file_inode ∷ replicate 63 no_inode;
  directory = file_entry ∷ replicate 63 no_entry;
  fds = file_fd ∷ replicate 31 no_fd;
  bitmap = 7 ∷ replicate 255 0;
}

-- The state that a call leaves, given the state before it.
abbrev pub after : {A : Type 0} → State → Outcome (A × State) → State
after s fault = s
after s (done (r, s')) = s'

abbrev pub after_read : State → Outcome (Option ℕ × List ℕ × State) → State
after_read s fault = s
after_read s (done (r, out, s')) = s'

blank-IsShaped : IsShaped blank
blank-IsShaped = record {
  inode_count = refl;
  inodes_ok =
      All-replicate IsInode max_files no_inode
        (record { block_u16 = omega arith; size_u16 = omega arith });
  entry_count = refl;
  entries_ok =
      All-replicate IsDirEntry max_files no_entry
        (record { inode_u16 = omega arith; name_size = refl });
  fd_count = refl;
  bitmap_ok = record {
    words = refl;
    small = (omega arith, All-replicate {0, 0} {A = ℕ} (λ w. w < 2 ^ 32) 255 0 (omega arith));
  };
  sb_ok = record {
    bitmap_u16 = omega arith;
    inodes_u16 = omega arith;
    directory_u16 = omega arith;
  };
}

pub blank-Inv : Inv blank
blank-Inv = record { shape = blank-IsShaped; consistent = blank-IsConsistent }

abbrev pub behind : List ℕ
behind = replicate 3584 0

pub file_name-IsCString : IsCString file_name
file_name-IsCString = (ground arith, (ground arith, tt))

-- `blank` with a file that has no byte.
abbrev pub created : State
created = after blank (fs_create disk behind file_name blank)

pub creates : fs_create disk behind file_name blank ≡ done (some 0, created)
unfolding fs_create write_used_blocks_bit find_used_blocks_bit find_inode find_directory block_write
creates = refl

-- What a call returns, without the state.
abbrev pub result : Outcome (Option ℕ × State) → Option (Option ℕ)
result fault = none
result (done (r, s)) = some r

pub returned :
    (s : State) (o : Outcome (Option ℕ × State)) (r : Option ℕ)
    → result o ≡ some r
    → o ≡ done (r, after s o)
returned s (done (x, t)) r e = ground arith
returned s fault r e = absurd (ground arith)

pub created-Inv : Inv created
created-Inv =
    fs_create-Inv disk behind file_name blank created (some 0) blank-Inv file_name-IsCString creates

pub created_on_disk : view.current created.world ≡ some disk_name
unfolding current fs_create write_used_blocks_bit find_used_blocks_bit find_inode find_directory
    block_write
created_on_disk = refl
