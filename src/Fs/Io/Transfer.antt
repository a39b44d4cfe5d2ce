-- ===== src/Fs/Io/Transfer.antt =====
-- Challenge5/fs.c: the blocks that `fs_write` and `fs_read` both read.
use operating_system_challen.Base.{ℕ, ◌≡◌, true, some, get_elem?, ℤ, pos, int32}
use operating_system_challen.Device.{Block, Device}
use operating_system_challen.Fs.Types.{Inode, FileDescriptor, FileSystem}
use operating_system_challen.Fs.Io.{block_numbers, block_index}
use operating_system_challen.Fs.Io.Inversion.{IsOpen}

module _ {W : Type 0} (d : Device W) where
  -- The block behind a descriptor's offset: number `b`, read as `block` into `block_buf`.
  pub record Fetched (array_buf block_buf : Block) (fildes : ℤ) (s : FileSystem W)
      (f : FileDescriptor) (n : Inode) (b : ℕ) (array block : Block) (w1 w2 : W) : Type 0 where
    pub opened : IsOpen s fildes f n
    pub ready : s.ready ≡ true
    pub got_array : d.block_read (pos n.single_indirect_block) array_buf s.world ≡ (true, array, w1)
    pub number : get_elem? (block_numbers array) (block_index f.offset) ≡ some b
    pub got_block : d.block_read (int32 b) block_buf w1 ≡ (true, block, w2)
