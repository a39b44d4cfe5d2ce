-- ===== src/Fs/Files.antt =====
-- Challenge5/fs.c: `fs_create`, `fs_open`, `fs_close` and `fs_delete`. The option is the `int`
-- that a call returns, with `none` for -1; a fault is an access or a shift out of range.
pub mod Inversion
pub mod Create
pub mod Delete
use operating_system_challen.Base.{
  ℕ, ◌==◌, Bool, true, false, not, ◌&&◌, ◌||◌, Option, none, some, List, [], ◌∷◌, ◌++◌, ltb,
  if◌then◌else◌, replicate, length, set, get_elem?, Outcome, done, fault, ◌>>=◌, ℤ, pos, negsuc,
  int32, int_of,
}
use operating_system_challen.Device.{Block, FileName, Device}
use operating_system_challen.Fs.Types.{FileDescriptor, FileSystem, u16, block_size}
use operating_system_challen.Fs.Bitmap.{find_used_blocks_bit, write_used_blocks_bit}
use operating_system_challen.Fs.Tables.{find_inode, find_fd, find_directory}
use operating_system_challen.Fs.Layout.{decode_u32, decode_table, encode_u16, overlay}
use operating_system_challen.Fs.Mount.{no_inode, no_fd}

-- What a call returns, and the state that it leaves.
abbrev pub Call : Type 0 → Type 0
Call W = Outcome (Option ℕ × FileSystem W)

-- `fds[fildes]`, a fault where the array has no such element.
abbrev pub fd_at : {W : Type 0} → ℤ → FileSystem W → Option FileDescriptor
fd_at (pos f) s = get_elem? s.fds f
fd_at (negsuc n) s = none

-- The index that a `fildes` inside the array stands for.
abbrev pub fd_index : ℤ → ℕ
fd_index (pos f) = f
fd_index (negsuc n) = 0

-- The block that `fs_create` writes: `inodeBlocksArray`, of 256 numbers of 16 bits, the first of
-- which is `block`, and the `behind` bytes of the stack that lie behind it.
unfoldable pub block_list : ℕ → List ℕ → Block
unfolding encode_u16
block_list block behind = encode_u16 (u16 block) ++ (replicate 510 0 ++ behind)

module _ {W : Type 0} where
  -- `fs_create` once an inode, an entry and two blocks are found.
  unfoldable pub new_file : (inode entry loc : ℕ) → FileName → FileSystem W → FileSystem W
  unfolding overlay
  new_file inode entry loc name s = record s {
    inodes =
        set s.inodes inode
          (record { is_used = true; single_indirect_block = u16 loc; file_size = 0 });
    directory = elim (get_elem? s.directory entry) [
      | none ↦ s.directory
      | some e ↦
          set s.directory entry (record {
            is_used = true;
            inode_num = u16 inode;
            name = overlay (name ++ 0 ∷ []) e.name;
          })
    ];
  }

  unfoldable pub fs_open : FileName → FileSystem W → Call W
  fs_open name s =
      if not s.ready then done (none, s) else elim (find_directory false name s.directory) [
        | none ↦ done (none, s)
        | some dir ↦ elim (find_fd s.fds) [
          | none ↦ done (none, s)
          | some fd ↦ elim (get_elem? s.directory dir) [
            | none ↦ fault
            | some e ↦ done (
              some fd,
              record s {
                fds = set s.fds fd (record { is_used = true; inode_num = e.inode_num; offset = 0 });
              },
            )
          ]
        ]
      ]

  unfoldable pub fs_close : ℤ → FileSystem W → Call W
  fs_close fildes s = elim (fd_at fildes s) [
    | none ↦ fault
    | some f ↦
        if not f.is_used
        then done (none, s)
        else done (some 0, record s { fds = set s.fds (fd_index fildes) no_fd })
  ]

-- `fds[i].inodeNum == inodeIndex && fds[i].isUsed` for some `i`.
unfoldable pub is_open : ℕ → List FileDescriptor → Bool
is_open inode [] = false
is_open inode (f ∷ fs) = (f.inode_num == inode && f.is_used) || is_open inode fs

module _ {W : Type 0} (d : Device W) where
  unfoldable pub fs_create : List ℕ → FileName → FileSystem W → Call W
  unfolding new_file block_list
  fs_create behind name s =
      let inode = find_inode s.inodes in
      let entry = find_directory true name s.directory in
      let loc = find_used_blocks_bit s.bitmap in
      write_used_blocks_bit (int_of loc) true s.bitmap >>= λ bitmap1.
      let block = find_used_blocks_bit bitmap1 in
      write_used_blocks_bit (int_of block) true bitmap1 >>= λ bitmap2.
      let s' = record s { bitmap = bitmap2 } in
      if not s.ready
      then done (none, s')
      else if ltb 15 (length name)
      then done (none, s')
      else elim inode [
        | none ↦ done (none, s')
        | some i ↦ elim entry [
          | none ↦ done (none, s')
          | some e ↦ elim block [
            | none ↦ done (none, s')
            | some b ↦ elim loc [
              -- Not reached: the first write of the bitmap is a fault at -1.
              | none ↦ fault
              | some l ↦
                  let (written, w) = d.block_write (pos l) (block_list b behind) s.world in
                  let s'' = record (new_file i e l name s') { world = w } in
                  if written then done (some 0, s'') else done (none, s'')
            ]
          ]
        ]
      ]

  -- The loop of `fs_delete` over the block numbers of the file, up to the first 0.
  unfoldable pub free_blocks : List ℕ → FileSystem W → Outcome (Bool × FileSystem W)
  free_blocks [] s = done (true, s)
  free_blocks (b ∷ bs) s = elim (b == 0) [
    | true ↦ done (true, s)
    | false ↦
        let (written, w) = d.block_write (int32 b) (replicate block_size 0) s.world in
        elim written [
          | false ↦ done (false, record s { world = w })
          | true ↦ write_used_blocks_bit (int32 b) false s.bitmap >>= λ bitmap.
              free_blocks bs (record s { world = w; bitmap = bitmap })
        ]
  ]

  -- The last part of `fs_delete`: the block of block numbers, the inode and the entry.
  unfoldable pub free_file : (inode entry : ℕ) → FileSystem W → Call W
  unfolding overlay
  free_file inode entry s = elim (get_elem? s.inodes inode) [
    | none ↦ fault
    | some n ↦
        let loc = pos n.single_indirect_block in
        let (written, w) = d.block_write loc (replicate block_size 0) s.world in
        if not written
        then done (none, record s { world = w })
        else (write_used_blocks_bit loc false s.bitmap >>= λ bitmap. done (
          some 0,
          record s {
            world = w;
            bitmap = bitmap;
            inodes = set s.inodes inode no_inode;
            directory = elim (get_elem? s.directory entry) [
              | none ↦ s.directory
              | some e ↦ set s.directory entry (record {
                is_used = false;
                inode_num = 0;
                name = overlay (replicate 15 0) e.name;
              })
            ];
          },
        ))
  ]

  -- `stack` is what `inodeBlocksArray` and the memory behind it hold before the read: the array
  -- has 1024 bytes, and `block_read` writes BLOCK_SIZE bytes at it.
  unfoldable pub fs_delete : Block → FileName → FileSystem W → Call W
  unfolding free_blocks free_file is_open
  fs_delete stack name s =
      if not s.ready then done (none, s) else elim (find_directory false name s.directory) [
        | none ↦ done (none, s)
        | some dir ↦ elim (get_elem? s.directory dir) [
          | none ↦ fault
          | some e ↦
              if is_open e.inode_num s.fds
              then done (none, s)
              else elim (get_elem? s.inodes e.inode_num) [
                | none ↦ fault
                | some n ↦
                    let (got, buf, w) = d.block_read (pos n.single_indirect_block) stack s.world in
                    let s' = record s { world = w } in
                    if not got
                    then done (none, s')
                    else (free_blocks (decode_table 4 decode_u32 256 buf) s' >>= λ (freed, s'').
                        if not freed then done (none, s'') else free_file e.inode_num dir s'')
              ]
        ]
      ]
