-- ===== src/Fs/Io/Writing.antt =====
-- Challenge5/fs.c: what `fs_write` does, for each result.
use operating_system_challen.Fs.Io.Transfer.{Fetched}
use operating_system_challen.Base.{
  ℕ, ◌+◌, ◌≤◌, ◌≡◌, refl, ◌∙◌, true, none, some, List, arith, inl, inr, Option-cases, get_elem?,
  set, done, ℤ, pos, negsuc, length, int32,
}
use operating_system_challen.Device.{Block, Device}
use operating_system_challen.Fs.Types.{Inode, FileDescriptor, FileSystem, u16, block_size}
use operating_system_challen.Fs.Files.{fd_at, fd_index}
use operating_system_challen.Fs.Io.{
  fs_write, resize, advance, write_at, block_numbers, block_index, rem_offset, write_block,
}

module _ {W : Type 0} (d : Device W) where
  resize-advance :
      (fildes : ℤ) (i k size : ℕ) (s : FileSystem W) (f : FileDescriptor) (n : Inode)
      → fd_at fildes s ≡ some f
      → get_elem? s.inodes i ≡ some n
      → resize i size (advance fildes k s) ≡ record s {
        fds = set s.fds (fd_index fildes) (record f { offset = f.offset + k });
        inodes = set s.inodes i (record n { file_size = size });
      }
  unfolding resize advance
  resize-advance fildes i k size s f n at at' = ground arith

  pub record Wrote (fildes : ℤ) (bytes : List ℕ) (array_buf block_buf : Block) (s s' : FileSystem W)
      : Type 0 where
    pub f : FileDescriptor
    pub n : Inode
    pub b : ℕ
    pub array : Block
    pub block : Block
    pub w1 : W
    pub w2 : W
    pub w3 : W
    pub fetched : Fetched d array_buf block_buf fildes s f n b array block w1 w2
    pub fits : rem_offset f.offset + length bytes ≤ block_size
    pub put : d.block_write (int32 b) (write_at (rem_offset f.offset) bytes block) w2 ≡ (true, w3)
    pub new : s' ≡ record s {
      world = w3;
      fds = set s.fds (fd_index fildes) (record f { offset = f.offset + length bytes });
      inodes = set s.inodes f.inode_num (record n { file_size = u16 (n.file_size + length bytes) });
    }

  -- The last part of `fs_write`.
  write_block-some :
      (fildes : ℤ) (i size offset b : ℕ) (bytes : List ℕ) (block_buf : Block) (s : FileSystem W)
      {r : ℕ} {s' : FileSystem W}
      → write_block d fildes i size offset b bytes block_buf s ≡ done (some r, s')
      → (block : Block) × (w2 : W) × (w3 : W) × (d.block_read (int32 b) block_buf s.world
          ≡ (true, block, w2))
        × (rem_offset offset + length bytes ≤ block_size)
        × (d.block_write (int32 b) (write_at (rem_offset offset) bytes block) w2 ≡ (true, w3))
        × (r ≡ length bytes)
        × (s'
            ≡ resize i
                (u16 (size + length bytes))
                (advance fildes (length bytes) (record s { world = w3 })))
  unfolding write_block
  write_block-some fildes i size offset b bytes block_buf s e =
      let w2 = (d.block_read (int32 b) block_buf s.world).2 in
      let block = (d.block_read (int32 b) block_buf s.world).1 in
      let w3 = (d.block_write (int32 b) (write_at (rem_offset offset) bytes block) w2).1 in
      (block, w2, w3, ground arith, ground arith, ground arith, ground arith, ground arith)

  pub fs_write-some :
      (array_buf block_buf : Block) (fildes : ℤ) (bytes : List ℕ) (s : FileSystem W) {r : ℕ}
      {s' : FileSystem W}
      → fs_write d array_buf block_buf fildes bytes s ≡ done (some r, s')
      → Wrote fildes bytes array_buf block_buf s s' × (r ≡ length bytes)
  unfolding fs_write
  fs_write-some array_buf block_buf (negsuc j) bytes s e = absurd (ground arith)
  fs_write-some array_buf block_buf (pos j) bytes s {r} {s'} e =
      elim (Option-cases (get_elem? s.fds j)) [
        | inl n ↦ absurd (ground arith)
        | inr (f, at) ↦ elim (Option-cases (get_elem? s.inodes f.inode_num)) [
          | inl n ↦ absurd (ground arith)
          | inr (n, at') ↦
              let array = (d.block_read (pos n.single_indirect_block) array_buf s.world).1 in
              let w1 = (d.block_read (pos n.single_indirect_block) array_buf s.world).2 in
              elim (Option-cases (get_elem? (block_numbers array) (block_index f.offset))) [
                | inl none_there ↦ absurd (ground arith)
                | inr (b, number) ↦
                    let (block, w2, w3, got, fits, put, count, eq) =
                      write_block-some (pos j) f.inode_num n.file_size f.offset b bytes block_buf
                        (record s { world = w1 }) {r = r} {s' = s'} (ground arith) in
                    (
                      record {
                        f = f;
                        n = n;
                        b = b;
                        array = array;
                        block = block;
                        w1 = w1;
                        w2 = w2;
                        w3 = w3;
                        fetched = record {
                          opened = record {
                            in_array = refl;
                            fd = at;
                            used = ground arith;
                            inode = at';
                          };
                          ready = ground arith;
                          got_array = ground arith;
                          number = number;
                          got_block = got;
                        };
                        fits = fits;
                        put = put;
                        new =
                            eq
                            ∙ resize-advance (pos j) f.inode_num (length bytes)
                                (u16 (n.file_size + length bytes)) (record s { world = w3 }) f n at
                                at';
                      },
                      count,
                    )
              ]
        ]
      ]

  pub fs_write-none :
      (array_buf block_buf : Block) (fildes : ℤ) (bytes : List ℕ) (s : FileSystem W)
      {s' : FileSystem W}
      → fs_write d array_buf block_buf fildes bytes s ≡ done (none, s')
      → s' ≡ record s { world = s'.world }
  unfolding fs_write
  fs_write-none array_buf block_buf (negsuc j) bytes s e = ground arith
  fs_write-none array_buf block_buf (pos j) bytes s {s'} e =
      elim (Option-cases (get_elem? s.fds j)) [
        | inl n ↦ ground arith
        | inr (f, at) ↦ elim (Option-cases (get_elem? s.inodes f.inode_num)) [
          | inl n ↦ ground arith
          | inr (n, at') ↦
              let array = (d.block_read (pos n.single_indirect_block) array_buf s.world).1 in
              elim (Option-cases (get_elem? (block_numbers array) (block_index f.offset))) [
                | inl none_there ↦ ground arith
                | inr (b, number) ↦ ground arith
              ]
        ]
      ]
