-- ===== src/Fs/Io/Reading.antt =====
-- Challenge5/fs.c: what `fs_read` does, for each result.
use operating_system_challen.Fs.Io.Transfer.{Fetched}
use operating_system_challen.Base.{
  ℕ, ◌+◌, ◌≤◌, ◌<◌, ◌≡◌, zero, suc, refl, ◌∙◌, ◌≢◌, ◌⊎◌, leb, true, none, some, List, [], arith,
  inl, inr, Bool-cases, Option-cases, get_elem?, set, done, ℤ, pos, negsuc, take, drop, int32,
}
use operating_system_challen.Device.{Block, Device}
use operating_system_challen.Fs.Types.{Inode, FileDescriptor, FileSystem, block_size}
use operating_system_challen.Fs.Files.{fd_at, fd_index}
use operating_system_challen.Fs.Io.{
  fs_read, advance, block_numbers, block_index, rem_offset, read_block,
}
use operating_system_challen.Fs.Io.Inversion.{IsOpen}

module _ {W : Type 0} (d : Device W) where
  -- `fs_read` copied bytes: the block of the offset was read behind the array of the inode.
  pub record DidRead (fildes : ℤ) (nbyte : ℕ) (out : List ℕ) (array_buf block_buf : Block)
      (s s' : FileSystem W) : Type 0 where
    pub f : FileDescriptor
    pub n : Inode
    pub b : ℕ
    pub array : Block
    pub block : Block
    pub w1 : W
    pub w2 : W
    pub fetched : Fetched d array_buf block_buf fildes s f n b array block w1 w2
    pub inside : f.offset < n.file_size
    pub fits : rem_offset f.offset + nbyte ≤ block_size
    pub copied : out ≡ take nbyte (drop (rem_offset f.offset) block)
    pub new : s' ≡ record s {
      world = w2;
      fds = set s.fds (fd_index fildes) (record f { offset = f.offset + nbyte });
    }

  -- `fs_read` returned 0: the offset is at the end of the file, or in a part with no block.
  pub record ReadNothing (fildes : ℤ) (out : List ℕ) (array_buf : Block) (s s' : FileSystem W)
      : Type 0 where
    pub f : FileDescriptor
    pub n : Inode
    pub opened : IsOpen s fildes f n
    pub empty : out ≡ []
    pub only : s' ≡ record s { world = s'.world }
    pub why :
        (n.file_size ≤ f.offset)
        ⊎ ((array : Block) × (w1 : W) × (d.block_read
                (pos n.single_indirect_block)
                array_buf
                s.world
              ≡ (true, array, w1))
            × (get_elem? (block_numbers array) (block_index f.offset) ≡ some 0))

  advance-fd :
      (fildes : ℤ) (k : ℕ) (s : FileSystem W) (f : FileDescriptor)
      → fd_at fildes s ≡ some f
      → advance fildes k s
        ≡ record s { fds = set s.fds (fd_index fildes) (record f { offset = f.offset + k }) }
  unfolding advance
  advance-fd fildes k s f at = ground arith

  read_block-some :
      (fildes : ℤ) (offset b nbyte : ℕ) (block_buf : Block) (s : FileSystem W) {r : ℕ}
      {out : List ℕ} {s' : FileSystem W}
      → b ≢ 0
      → read_block d fildes offset b nbyte block_buf s ≡ done (some r, out, s')
      → (block : Block) × (w2 : W) × (d.block_read (int32 b) block_buf s.world ≡ (true, block, w2))
        × (rem_offset offset + nbyte ≤ block_size)
        × (r ≡ nbyte)
        × (out ≡ take nbyte (drop (rem_offset offset) block))
        × (s' ≡ advance fildes nbyte (record s { world = w2 }))
  unfolding read_block
  read_block-some fildes offset b nbyte block_buf s ne e = (
    (d.block_read (int32 b) block_buf s.world).1,
    (d.block_read (int32 b) block_buf s.world).2,
    ground arith,
    ground arith,
    ground arith,
    ground arith,
    ground arith,
  )

  read_block-zero :
      (fildes : ℤ) (offset nbyte : ℕ) (block_buf : Block) (s : FileSystem W)
      → read_block d fildes offset 0 nbyte block_buf s ≡ done (some 0, [], s)
  unfolding read_block
  read_block-zero fildes offset nbyte block_buf s = refl

  pub fs_read-some :
      (array_buf block_buf : Block) (fildes : ℤ) (nbyte : ℕ) (s : FileSystem W) {r : ℕ}
      {out : List ℕ} {s' : FileSystem W}
      → fs_read d array_buf block_buf fildes nbyte s ≡ done (some r, out, s')
      → (ReadNothing fildes out array_buf s s' × (r ≡ 0))
        ⊎ (DidRead fildes nbyte out array_buf block_buf s s' × (r ≡ nbyte))
  unfolding fs_read
  fs_read-some array_buf block_buf (negsuc j) nbyte s e = absurd (ground arith)
  fs_read-some array_buf block_buf (pos j) nbyte s {r} {out} {s'} e =
      elim (Option-cases (get_elem? s.fds j)) [
        | inl n ↦ absurd (ground arith)
        | inr (f, at) ↦ elim (Option-cases (get_elem? s.inodes f.inode_num)) [
          | inl n ↦ absurd (ground arith)
          | inr (n, at') ↦
              let array = (d.block_read (pos n.single_indirect_block) array_buf s.world).1 in
              let w1 = (d.block_read (pos n.single_indirect_block) array_buf s.world).2 in
              let opened : IsOpen s (pos j) f n = record {
                in_array = refl;
                fd = at;
                used = ground arith;
                inode = at';
              } in
              elim (Bool-cases (leb n.file_size f.offset)) [
                | inl end ↦ inl (
                  record {
                    f = f;
                    n = n;
                    opened = opened;
                    empty = ground arith;
                    only = ground arith;
                    why = inl (ground arith);
                  },
                  ground arith,
                )
                | inr more ↦
                    elim (Option-cases (get_elem? (block_numbers array) (block_index f.offset))) [
                      | inl none_there ↦ absurd (ground arith)
                      | inr (zero, number) ↦ inl (
                        record {
                          f = f;
                          n = n;
                          opened = opened;
                          empty = ground (
                            arith,
                            read_block-zero (pos j) f.offset nbyte block_buf
                                (record s { world = w1 }),
                          );
                          only = ground (
                            arith,
                            read_block-zero (pos j) f.offset nbyte block_buf
                                (record s { world = w1 }),
                          );
                          why = inr (array, w1, ground arith, number);
                        },
                        ground (
                          arith,
                          read_block-zero (pos j) f.offset nbyte block_buf
                              (record s { world = w1 }),
                        ),
                      )
                      | inr (suc b, number) ↦
                          let (block, w2, got, fits, count, copied, eq) =
                            read_block-some (pos j) f.offset (suc b) nbyte block_buf
                              (record s { world = w1 }) {r = r} {out = out} {s' = s'} (ground arith)
                              (ground arith) in
                          inr (
                            record {
                              f = f;
                              n = n;
                              b = suc b;
                              array = array;
                              block = block;
                              w1 = w1;
                              w2 = w2;
                              fetched = record {
                                opened = opened;
                                ready = ground arith;
                                got_array = ground arith;
                                number = number;
                                got_block = got;
                              };
                              inside = ground arith;
                              fits = fits;
                              copied = copied;
                              new = eq ∙ advance-fd (pos j) nbyte (record s { world = w2 }) f at;
                            },
                            count,
                          )
                    ]
              ]
        ]
      ]

  pub fs_read-none :
      (array_buf block_buf : Block) (fildes : ℤ) (nbyte : ℕ) (s : FileSystem W) {out : List ℕ}
      {s' : FileSystem W}
      → fs_read d array_buf block_buf fildes nbyte s ≡ done (none, out, s')
      → s' ≡ record s { world = s'.world }
  unfolding fs_read
  fs_read-none array_buf block_buf (negsuc j) nbyte s e = ground arith
  fs_read-none array_buf block_buf (pos j) nbyte s {s'} e =
      elim (Option-cases (get_elem? s.fds j)) [
        | inl n ↦ ground arith
        | inr (f, at) ↦ elim (Option-cases (get_elem? s.inodes f.inode_num)) [
          | inl n ↦ ground arith
          | inr (n, at') ↦
              let array = (d.block_read (pos n.single_indirect_block) array_buf s.world).1 in
              elim (Option-cases (get_elem? (block_numbers array) (block_index f.offset))) [
                | inl none_there ↦ ground arith
                | inr (b, number) ↦ ground arith
              ]
        ]
      ]
