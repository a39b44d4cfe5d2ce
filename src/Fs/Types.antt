-- ===== src/Fs/Types.antt =====
-- Challenge5/fs.c: its constants, structs and global variables.
use operating_system_challen.Base.{ℕ, ◌%◌, ◌^◌, Bool, List}

abbrev pub max_files : ℕ
max_files = 64

-- The length of `fds`.
abbrev pub max_fds : ℕ
max_fds = 32

-- BLOCK_SIZE and DISK_BLOCKS of disk.h.
abbrev pub block_size : ℕ
block_size = 4096

abbrev pub disk_blocks : ℕ
disk_blocks = 8192

-- A value stored in a `uint16_t`.
abbrev pub u16 : ℕ → ℕ
u16 n = n % 2 ^ 16

pub record SuperBlock : Type 0 where
  pub used_block_bitmap_offset : ℕ
  pub inode_metadata_offset : ℕ
  pub directory_offset : ℕ

pub record Inode : Type 0 where
  pub is_used : Bool
  pub single_indirect_block : ℕ
  pub file_size : ℕ

-- `name` holds 16 bytes: the 15 of the array, and the byte of padding behind it that
-- `strcpy` writes and `strcmp` reads when a name has 15 characters.
pub record DirEntry : Type 0 where
  pub is_used : Bool
  pub inode_num : ℕ
  pub name : List ℕ

pub record FileDescriptor : Type 0 where
  pub is_used : Bool
  pub inode_num : ℕ
  pub offset : ℕ

-- The global variables. `world` is what lies behind the block device.
pub record FileSystem (W : Type 0) : Type 0 where
  pub inodes : List Inode
  pub directory : List DirEntry
  pub fds : List FileDescriptor
  pub bitmap : List ℕ
  pub ready : Bool
  pub sb : SuperBlock
  pub world : W
