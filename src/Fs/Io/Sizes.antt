-- ===== src/Fs/Io/Sizes.antt =====
-- Challenge5/fs.c: `fs_lseek`, `fs_truncate` and `fs_get_filesize` on a descriptor in use, and the
-- array of `fs_listfiles`.
use operating_system_challen.Base.{
  get_elem?-set_self, get_elem?-set_ne, get_elem?-lt, sym, ℕ, zero, suc, ◌+◌, ◌-◌, ◌%◌, ◌^◌, ◌≤◌,
  ◌<◌, ◌≡◌, refl, ap, ◌≢◌, true, some, List, [], ◌∷◌, arith, ltb, inl, inr, Bool-cases,
  Option-cases, length, set, get_elem?, get_elem?-some, All-get, done, fault, ℤ, pos, negsuc, drop,
}
use operating_system_challen.Device.{Block, Device}
use operating_system_challen.Fs.Types.{
  DirEntry, FileDescriptor, FileSystem, Inode, max_fds, block_size,
}
use operating_system_challen.Fs.Layout.{decode_table, decode_u32}
use operating_system_challen.Fs.Layout.RoundTrip.{IsInode}
use operating_system_challen.Fs.Files.{fd_at, fd_index}
use operating_system_challen.Fs.Io.{
  Listing, count_files, list_cells, fs_listfiles, fs_lseek, fs_truncate, fs_get_filesize, fs_read,
  read_block, block_numbers, block_index, rem_offset,
}
use operating_system_challen.Fs.Io.Inversion.{IsOpen, new_size}
use operating_system_challen.Fs.Invariant.{Inv, inode_used}

module _ {W : Type 0} (s : FileSystem W) (fildes : ℤ) (f : FileDescriptor) (n : Inode)
    (o : IsOpen s fildes f n) where
  fd_at-open : fd_at fildes s ≡ some f
  fd_at-open = rw o.in_array o.fd

  pub fs_get_filesize-open : fs_get_filesize fildes s ≡ done (some n.file_size, s)
  unfolding fs_get_filesize
  fs_get_filesize-open = ground (arith, fd_at-open, o.used, o.inode)

  -- At the end of the file there is nothing to read.
  fs_read-end :
      (d : Device W) (array_buf block_buf : Block) (nbyte : ℕ)
      → s.ready ≡ true
      → n.file_size ≤ f.offset
      → fs_read d array_buf block_buf fildes nbyte s ≡ done (some 0, [], s)
  unfolding fs_read
  fs_read-end d array_buf block_buf nbyte ready le =
      ground (arith, fd_at-open, o.used, o.inode, ready)

  seek_to :
      (k : ℕ)
      → s.ready ≡ true
      → k ≤ n.file_size
      → fs_lseek fildes (pos k) s
        ≡ done (some 0, record s { fds = set s.fds (fd_index fildes) (record f { offset = k }) })
  unfolding fs_lseek
  seek_to k ready le = ground (arith, fd_at-open, o.used, o.inode, ready)

  -- `fs_truncate`, with the low 16 bits that it stores.
  cut_to :
      (size : ℤ) (m : ℕ)
      → s.ready ≡ true
      → m ≡ new_size size
      → ((k : ℕ) → size ≡ pos k → k ≤ n.file_size)
      → fs_truncate fildes size s
        ≡ done (some 0, record s { inodes = set s.inodes f.inode_num (record n { file_size = m }) })
  unfolding fs_truncate new_size
  cut_to (pos k) m ready low below =
      let le = below k refl in ground (arith, fd_at-open, o.used, o.inode, ready, low, le)
  cut_to (negsuc k) m ready low below = ground (arith, fd_at-open, o.used, o.inode, ready, low)

module _ {W : Type 0} (s : FileSystem W) (fildes : ℤ) (f : FileDescriptor) (n : Inode)
    (o : IsOpen s fildes f n) (ready : s.ready ≡ true) where
  sought-IsOpen :
      (k : ℕ)
      → IsOpen
          (record s { fds = set s.fds (fd_index fildes) (record f { offset = k }) })
          fildes
          (record f { offset = k })
          n
  sought-IsOpen k = record {
    in_array = o.in_array;
    fd =
        get_elem?-set_self s.fds (fd_index fildes) (record f { offset = k })
          (get_elem?-lt s.fds (fd_index fildes) f o.fd);
    used = o.used;
    inode = o.inode;
  }

  cut-IsOpen :
      (m : ℕ)
      → IsOpen
          (record s { inodes = set s.inodes f.inode_num (record n { file_size = m }) })
          fildes
          f
          (record n { file_size = m })
  cut-IsOpen m = record {
    in_array = o.in_array;
    fd = o.fd;
    used = o.used;
    inode =
        get_elem?-set_self s.inodes f.inode_num (record n { file_size = m })
          (get_elem?-lt s.inodes f.inode_num n o.inode);
  }

  -- On a mounted file system and a descriptor in use, `fs_lseek` to the size of the file returns
  -- 0. Then `fs_read` of any number of bytes returns 0, copies nothing and changes nothing, and
  -- `fs_get_filesize` still returns the size.
  pub fs_lseek-fs_read :
      (d : Device W) (array_buf block_buf : Block) (nbyte : ℕ)
      → (s1 : FileSystem W) × (fs_lseek fildes (pos n.file_size) s ≡ done (some 0, s1))
        × (fs_read d array_buf block_buf fildes nbyte s1 ≡ done (some 0, [], s1))
        × (fs_get_filesize fildes s1 ≡ done (some n.file_size, s1))
  fs_lseek-fs_read d array_buf block_buf nbyte =
      let end : FileDescriptor = record f { offset = n.file_size } in
      let s1 = record s { fds = set s.fds (fd_index fildes) end } in
      let o1 = sought-IsOpen n.file_size in
      (
        s1,
        seek_to s fildes f n o n.file_size ready (omega arith),
        fs_read-end s1 fildes end n o1 d array_buf block_buf nbyte ready (omega arith),
        fs_get_filesize-open s1 fildes end n o1,
      )

  -- On a mounted file system and a descriptor in use, of a file whose size is below 2^16:
  -- `fs_truncate` to a length up to the size returns 0, and then `fs_get_filesize` returns that
  -- length, and `fs_read` gives no byte if the offset is not below it. But every negative length
  -- is accepted too, and then `fs_get_filesize` returns the 16-bit number that is the length
  -- modulo 2^16. No other inode changes.
  pub fs_truncate-fs_get_filesize :
      n.file_size < 2 ^ 16
      → ((k : ℕ)
          → k ≤ n.file_size
          → (s1 : FileSystem W) × (fs_truncate fildes (pos k) s ≡ done (some 0, s1))
            × (fs_get_filesize fildes s1 ≡ done (some k, s1))
            × ((i : ℕ) → i ≢ f.inode_num → get_elem? s1.inodes i ≡ get_elem? s.inodes i)
            × ((d : Device W) (array_buf block_buf : Block) (nbyte : ℕ)
                → k ≤ f.offset
                → fs_read d array_buf block_buf fildes nbyte s1 ≡ done (some 0, [], s1)))
        × ((k : ℕ)
            → (s1 : FileSystem W) × (m : ℕ) × (fs_truncate fildes (negsuc k) s ≡ done (some 0, s1))
              × (fs_get_filesize fildes s1 ≡ done (some m, s1))
              × (m < 2 ^ 16)
              × ((m + k + 1) % 2 ^ 16 ≡ 0)
              × ((i : ℕ) → i ≢ f.inode_num → get_elem? s1.inodes i ≡ get_elem? s.inodes i))
  unfolding new_size
  fs_truncate-fs_get_filesize small = (
    λ k le.
        let s1 = cut k in
        let low : k ≡ new_size (pos k) = omega arith in
        (
          s1,
          cut_to s fildes f n o (pos k) k ready low (λ j e. ground (arith, e, le)),
          fs_get_filesize-open s1 fildes f (record n { file_size = k }) (cut-IsOpen k),
          λ i ne.
              get_elem?-set_ne s.inodes f.inode_num i (record n { file_size = k })
                (λ e. ne (sym e)),
          λ d array_buf block_buf nbyte end.
              fs_read-end s1 fildes f (record n { file_size = k }) (cut-IsOpen k) d array_buf
                block_buf nbyte ready end,
        ),
    λ k.
        let m = 2 ^ 16 - 1 - k % 2 ^ 16 in
        (
          cut m,
          m,
          cut_to s fildes f n o (negsuc k) m ready refl (λ j e. absurd (ground (arith, e))),
          fs_get_filesize-open (cut m) fildes f (record n { file_size = m }) (cut-IsOpen m),
          omega arith,
          omega arith,
          λ i ne.
              get_elem?-set_ne s.inodes f.inode_num i (record n { file_size = m })
                (λ e. ne (sym e)),
        ),
  )
    where
      cut : ℕ → FileSystem W
      cut m = record s { inodes = set s.inodes f.inode_num (record n { file_size = m }) }

length-list_cells : (es : List DirEntry) (i : ℕ) → length (list_cells es i) ≡ count_files es + 1
unfolding list_cells count_files
length-list_cells [] i = refl
length-list_cells (e ∷ es) i = ground (arith, length-list_cells es (i + 1))

-- `fs_listfiles` writes one cell more than it has allocated.
pub fs_listfiles-overflow :
    {W : Type 0} (s : FileSystem W) (l : Listing)
    → fs_listfiles s ≡ some l
    → length l.cells ≡ l.allocated + 1
unfolding fs_listfiles
fs_listfiles-overflow s l e = ground (arith, length-list_cells s.directory 0)

length-decode_table : (size n : ℕ) (bs : List ℕ) → length (decode_table size decode_u32 n bs) ≡ n
unfolding decode_table
length-decode_table size zero bs = refl
length-decode_table size (suc n) bs = ap suc (length-decode_table size n (drop size bs))

read_block-fault :
    {W : Type 0} (d : Device W) (fildes : ℤ) (offset b nbyte : ℕ) (block_buf : Block)
    (s : FileSystem W)
    → rem_offset offset + nbyte ≤ block_size
    → read_block d fildes offset b nbyte block_buf s ≢ fault
unfolding read_block
read_block-fault d fildes offset b nbyte block_buf s fits e = ground arith

-- In a consistent file system `fs_read` returns, on every descriptor of the array, if the bytes
-- asked for do not cross the end of the block of the offset.
pub fs_read-returns :
    {W : Type 0} (d : Device W) (array_buf block_buf : Block) (j nbyte : ℕ) (s : FileSystem W)
    → Inv s
    → j < max_fds
    → ((f : FileDescriptor) → get_elem? s.fds j ≡ some f → rem_offset f.offset + nbyte ≤ block_size)
    → fs_read d array_buf block_buf (pos j) nbyte s ≢ fault
unfolding fs_read inode_used
fs_read-returns d array_buf block_buf j nbyte s v lt fits e =
    let (f, at) = get_elem?-some s.fds j (omega (arith, v.shape.fd_count)) in
    elim (Bool-cases f.is_used) [
      | inr unused ↦ ground arith
      | inl used ↦ elim (Option-cases (get_elem? s.inodes f.inode_num)) [
        | inl n ↦ ground (arith, v.consistent.fd_inode j f at used)
        | inr (n, at_n) ↦
            let array = (d.block_read (pos n.single_indirect_block) array_buf s.world).1 in
            let w1 = (d.block_read (pos n.single_indirect_block) array_buf s.world).2 in
            let n_ok = All-get IsInode s.inodes f.inode_num n v.shape.inodes_ok at_n in
            elim (Option-cases (get_elem? (block_numbers array) (block_index f.offset))) [
              | inl missing ↦ elim (Bool-cases (ltb f.offset (2 ^ 16))) [
                | inl low ↦
                    let (b, there) =
                      get_elem?-some (block_numbers array) (block_index f.offset)
                        (ground (arith, length-decode_table 4 256 array)) in
                    cc (missing, there)
                | inr high ↦ ground (arith, n_ok.size_u16)
              ]
              | inr (b, number) ↦ ground (
                arith,
                read_block-fault d (pos j) f.offset b nbyte block_buf (record s { world = w1 })
                    (fits f at),
              )
            ]
      ]
    ]
