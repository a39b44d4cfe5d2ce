-- ===== src/Fs/Io.antt =====
-- Challenge5/fs.c: `fs_read`, `fs_write`, `fs_get_filesize`, `fs_listfiles`, `fs_lseek` and
-- `fs_truncate`. `array_buf` and `block_buf` are what the two buffers from `malloc` hold.
pub mod Inversion
pub mod Transfer
pub mod Writing
pub mod Reading
pub mod RoundTrip
pub mod Sizes
use operating_system_challen.Base.{
  ℕ, ◌+◌, ◌-◌, ◌*◌, ◌/◌, ◌%◌, ◌^◌, ◌==◌, not, Option, none, some, List, [], ◌∷◌, ◌++◌, ltb, leb,
  if◌then◌else◌, length, take, drop, set, get_elem?, Outcome, done, fault, ℤ, pos, negsuc, int32,
}
use operating_system_challen.Device.{Block, Device}
use operating_system_challen.Fs.Types.{DirEntry, FileSystem, Inode, u16, block_size}
use operating_system_challen.Fs.Tables.{is_named}
use operating_system_challen.Fs.Layout.{decode_u32, decode_table}
use operating_system_challen.Fs.Files.{Call, fd_at, fd_index}

-- `blockIndex` and `remOffset` of an offset.
abbrev pub block_index : ℕ → ℕ
block_index offset = offset / block_size

abbrev pub rem_offset : ℕ → ℕ
rem_offset offset = offset - block_index offset * block_size

-- `inodeBlocksArray` of a block that was read: 256 numbers of 32 bits.
abbrev pub block_numbers : Block → List ℕ
block_numbers buf = decode_table 4 decode_u32 256 buf

-- `memcpy(block + rem, bytes, nbyte)`
unfoldable pub write_at : ℕ → List ℕ → Block → Block
write_at rem bytes block = take rem block ++ (bytes ++ drop (rem + length bytes) block)

-- `fds[fildes].offset += n`
unfoldable pub advance : {W : Type 0} → ℤ → ℕ → FileSystem W → FileSystem W
advance fildes n s = elim (fd_at fildes s) [
  | none ↦ s
  | some f ↦ record s { fds = set s.fds (fd_index fildes) (record f { offset = f.offset + n }) }
]

-- `inodes[i].fileSize = size`
unfoldable pub resize : {W : Type 0} → ℕ → ℕ → FileSystem W → FileSystem W
resize i size s = elim (get_elem? s.inodes i) [
  | none ↦ s
  | some n ↦ record s { inodes = set s.inodes i (record n { file_size = size }) }
]

-- The cells of the array that `fs_listfiles` fills: an index stands for the pointer to the name of
-- that entry, and `none` for NULL. `allocated` is the number of cells that it asks `malloc` for.
pub record Listing : Type 0 where
  pub allocated : ℕ
  pub cells : List (Option ℕ)

unfoldable pub count_files : List DirEntry → ℕ
count_files [] = 0
count_files (e ∷ es) = let rest = count_files es in if is_named e then rest + 1 else rest

unfoldable pub list_cells : List DirEntry → ℕ → List (Option ℕ)
list_cells [] i = none ∷ []
list_cells (e ∷ es) i =
    let rest = list_cells es (i + 1) in if is_named e then some i ∷ rest else rest

module _ {W : Type 0} where
  unfoldable pub fs_get_filesize : ℤ → FileSystem W → Call W
  fs_get_filesize fildes s = elim (fd_at fildes s) [
    | none ↦ fault
    | some f ↦ if not f.is_used then done (none, s) else elim (get_elem? s.inodes f.inode_num) [
      | none ↦ fault
      | some n ↦ done (some n.file_size, s)
    ]
  ]

  unfoldable pub fs_listfiles : FileSystem W → Option Listing
  unfolding count_files list_cells
  fs_listfiles s =
      if not s.ready
      then none
      else some (record { allocated = count_files s.directory; cells = list_cells s.directory 0 })

  -- The end of `fs_lseek`, and of `fs_truncate`, for a descriptor in use with its inode.
  unfoldable pub seek_in : ℤ → ℤ → Inode → FileSystem W → Call W
  seek_in fildes (negsuc k) n s = done (none, s)
  seek_in fildes (pos offset) n s =
      if ltb n.file_size offset then done (none, s) else elim (fd_at fildes s) [
        | none ↦ fault
        | some f ↦
            done (
              some 0,
              record s { fds = set s.fds (fd_index fildes) (record f { offset = offset }) },
            )
      ]

  unfoldable pub truncate_in : ℕ → ℤ → Inode → FileSystem W → Call W
  unfolding resize
  truncate_in i (negsuc k) n s = done (some 0, resize i (2 ^ 16 - 1 - k % 2 ^ 16) s)
  truncate_in i (pos size) n s =
      if ltb n.file_size size then done (none, s) else done (some 0, resize i (u16 size) s)

  unfoldable pub fs_lseek : ℤ → ℤ → FileSystem W → Call W
  unfolding seek_in
  fs_lseek fildes offset s = if not s.ready then done (none, s) else elim (fd_at fildes s) [
    | none ↦ fault
    | some f ↦ if not f.is_used then done (none, s) else elim (get_elem? s.inodes f.inode_num) [
      | none ↦ fault
      | some n ↦ seek_in fildes offset n s
    ]
  ]

  unfoldable pub fs_truncate : ℤ → ℤ → FileSystem W → Call W
  unfolding truncate_in
  fs_truncate fildes size s = if not s.ready then done (none, s) else elim (fd_at fildes s) [
    | none ↦ fault
    | some f ↦ if not f.is_used then done (none, s) else elim (get_elem? s.inodes f.inode_num) [
      | none ↦ fault
      | some n ↦ truncate_in f.inode_num size n s
    ]
  ]

-- What `fs_read` returns, the bytes that it copies to `buf`, and the state that it leaves.
abbrev pub ReadCall : Type 0 → Type 0
ReadCall W = Outcome (Option ℕ × List ℕ × FileSystem W)

module _ {W : Type 0} (d : Device W) where
  -- `fs_read` once the block number of the offset is known.
  unfoldable pub read_block : ℤ → (offset b nbyte : ℕ) → Block → FileSystem W → ReadCall W
  unfolding advance
  read_block fildes offset b nbyte block_buf s =
      let (got, block, w) = d.block_read (int32 b) block_buf s.world in
      let s' = record s { world = w } in
      let rem = rem_offset offset in
      if b == 0
      then done (some 0, [], s)
      else if not got
      then done (none, [], s')
      else if ltb block_size (rem + nbyte)
      then fault
      else done (some nbyte, take nbyte (drop rem block), advance fildes nbyte s')

  unfoldable pub fs_read : (array_buf block_buf : Block) → ℤ → ℕ → FileSystem W → ReadCall W
  unfolding read_block
  fs_read array_buf block_buf fildes nbyte s =
      if not s.ready then done (none, [], s) else elim (fd_at fildes s) [
        | none ↦ fault
        | some f ↦
            if not f.is_used then done (none, [], s) else elim (get_elem? s.inodes f.inode_num) [
              | none ↦ fault
              | some n ↦
                  let (got, array, w) =
                    d.block_read (pos n.single_indirect_block) array_buf s.world in
                  let s' = record s { world = w } in
                  if leb n.file_size f.offset
                  then done (some 0, [], s)
                  else if not got
                  then done (none, [], s')
                  else elim (get_elem? (block_numbers array) (block_index f.offset)) [
                    | none ↦ fault
                    | some b ↦ read_block fildes f.offset b nbyte block_buf s'
                  ]
            ]
      ]

  -- `fs_write` once the block number of the offset is known.
  unfoldable pub write_block :
      ℤ → (inode size offset b : ℕ) → List ℕ → Block → FileSystem W → Call W
  unfolding advance resize write_at
  write_block fildes inode size offset b bytes block_buf s =
      let (got, block, w1) = d.block_read (int32 b) block_buf s.world in
      let rem = rem_offset offset in
      let (written, w2) = d.block_write (int32 b) (write_at rem bytes block) w1 in
      if not got
      then done (none, record s { world = w1 })
      else if ltb block_size (rem + length bytes)
      then fault
      else if not written
      then done (none, record s { world = w2 })
      else done (
        some (length bytes),
        resize inode (u16 (size + length bytes))
            (advance fildes (length bytes) (record s { world = w2 })),
      )

  -- `bytes` are the `nbyte` bytes at `buf`.
  unfoldable pub fs_write : (array_buf block_buf : Block) → ℤ → List ℕ → FileSystem W → Call W
  unfolding write_block
  fs_write array_buf block_buf fildes bytes s =
      if not s.ready then done (none, s) else elim (fd_at fildes s) [
        | none ↦ fault
        | some f ↦ if not f.is_used then done (none, s) else elim (get_elem? s.inodes f.inode_num) [
          | none ↦ fault
          | some n ↦
              let (got, array, w) = d.block_read (pos n.single_indirect_block) array_buf s.world in
              let s' = record s { world = w } in
              if not got
              then done (none, s')
              else elim (get_elem? (block_numbers array) (block_index f.offset)) [
                | none ↦ fault
                | some b ↦ write_block fildes f.inode_num n.file_size f.offset b bytes block_buf s'
              ]
        ]
      ]
