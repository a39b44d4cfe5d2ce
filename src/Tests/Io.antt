-- ===== src/Tests/Io.antt =====
-- Reading and writing of the open file.
use operating_system_challen.Base.{
  get_elem?, ◌<◌, ◌%◌, ◌^◌, tabulate, ℕ, ◌≡◌, refl, some, none, List, [], ◌∷◌, arith, done, pos,
  negsuc, true, set, ◌≢◌, ◌+◌, ◌≤◌, length,
}
use operating_system_challen.Fs.Types.{block_size}
use operating_system_challen.Device.{Block, Device}
use operating_system_challen.Tests.Host.{OneFile}
use operating_system_challen.Disk.{DiskState, block_read, block_write}
use operating_system_challen.Disk.Blocks.{current}
use operating_system_challen.Fs.Layout.{decode_table, decode_u32}
use operating_system_challen.Fs.Io.{
  Listing, fs_read, fs_write, fs_lseek, fs_truncate, fs_get_filesize, fs_listfiles, rem_offset,
  write_at,
}
use operating_system_challen.Fs.Io.RoundTrip.{BlockAt, fs_write-fs_read, fs_write-block}
use operating_system_challen.Fs.Io.Inversion.{IsOpen}
use operating_system_challen.Fs.Io.Sizes.{
  fs_lseek-fs_read, fs_truncate-fs_get_filesize, fs_listfiles-overflow,
}
use operating_system_challen.Tests.States.{
  State, disk, view, laws, disk_name, one_open, file_fd, file_inode, empty_block, after, after_read,
}

fd-IsOpen : IsOpen one_open (pos 0) file_fd file_inode
fd-IsOpen = record { in_array = refl; fd = refl; used = refl; inode = refl }

block_two :
    BlockAt disk view laws disk_name empty_block empty_block refl refl one_open.world file_inode 4 2
unfolding decode_table decode_u32 tabulate
block_two = refl

abbrev bytes_new : List ℕ
bytes_new = 7 ∷ 8 ∷ 9 ∷ []

abbrev written : State
written = after one_open (fs_write disk empty_block empty_block (pos 0) bytes_new one_open)

writes : fs_write disk empty_block empty_block (pos 0) bytes_new one_open ≡ done (some 3, written)
unfolding fs_write block_read block_write decode_table decode_u32 tabulate
writes = refl

abbrev back : State
back = after written (fs_lseek (pos 0) (pos 4) written)

seeks : fs_lseek (pos 0) (pos 4) written ≡ done (some 0, back)
unfolding fs_write fs_lseek block_read block_write decode_table decode_u32 tabulate
seeks = refl

abbrev read_state : State
read_state = after_read back (fs_read disk empty_block empty_block (pos 0) 3 back)

reads : fs_read disk empty_block empty_block (pos 0) 3 back ≡ done (some 3, bytes_new, read_state)
unfolding fs_write fs_lseek fs_read block_read block_write decode_table decode_u32 tabulate
reads = refl

fs_write-fs_read_example : (length bytes_new ≡ 3) × (bytes_new ≡ 7 ∷ 8 ∷ 9 ∷ [])
unfolding current
fs_write-fs_read_example =
    fs_write-fs_read disk view laws disk_name empty_block empty_block refl refl (pos 0) bytes_new
      one_open written back read_state 3 0 3 bytes_new file_fd file_inode 2 fd-IsOpen refl block_two
      (ground arith) (ground arith) (omega arith) (omega arith) (omega arith) writes seeks reads

fs_write-block_example :
    (3 ≡ length bytes_new)
    × (view.current written.world ≡ some disk_name)
    × (view.block written.world disk_name 2
        ≡ write_at (rem_offset 4) bytes_new (view.block one_open.world disk_name 2))
    × ((k : ℕ)
        → k ≢ 2
        → view.block written.world disk_name k ≡ view.block one_open.world disk_name k)
    × (rem_offset 4 + 3 ≤ block_size)
    × (written.fds ≡ set one_open.fds 0 (record file_fd { offset = 7 }))
    × (written.inodes ≡ set one_open.inodes 0 (record file_inode { file_size = 13 }))
    × (written.directory ≡ one_open.directory)
    × (written.bitmap ≡ one_open.bitmap)
    × (written.ready ≡ true)
unfolding current
fs_write-block_example =
    fs_write-block disk view laws disk_name empty_block empty_block refl refl (pos 0) bytes_new
      one_open written 3 file_fd file_inode 2 fd-IsOpen refl block_two writes

abbrev read_first : State
read_first = after_read one_open (fs_read disk empty_block empty_block (pos 0) 3 one_open)

fs_lseek-fs_read_example :
    (s1 : State) × (fs_lseek (pos 0) (pos 10) one_open ≡ done (some 0, s1))
    × (fs_read disk empty_block empty_block (pos 0) 5 s1 ≡ done (some 0, [], s1))
    × (fs_get_filesize (pos 0) s1 ≡ done (some 10, s1))
fs_lseek-fs_read_example =
    fs_lseek-fs_read one_open (pos 0) file_fd file_inode fd-IsOpen refl disk empty_block empty_block
      5

fs_truncate-fs_get_filesize_example :
    ((k : ℕ)
      → k ≤ 10
      → (s1 : State) × (fs_truncate (pos 0) (pos k) one_open ≡ done (some 0, s1))
        × (fs_get_filesize (pos 0) s1 ≡ done (some k, s1))
        × ((i : ℕ) → i ≢ 0 → get_elem? s1.inodes i ≡ get_elem? one_open.inodes i)
        × ((d : Device (DiskState OneFile)) (array_buf block_buf : Block) (nbyte : ℕ)
            → k ≤ 4
            → fs_read d array_buf block_buf (pos 0) nbyte s1 ≡ done (some 0, [], s1)))
    × ((k : ℕ)
        → (s1 : State) × (m : ℕ) × (fs_truncate (pos 0) (negsuc k) one_open ≡ done (some 0, s1))
          × (fs_get_filesize (pos 0) s1 ≡ done (some m, s1))
          × (m < 2 ^ 16)
          × ((m + k + 1) % 2 ^ 16 ≡ 0)
          × ((i : ℕ) → i ≢ 0 → get_elem? s1.inodes i ≡ get_elem? one_open.inodes i))
fs_truncate-fs_get_filesize_example =
    fs_truncate-fs_get_filesize one_open (pos 0) file_fd file_inode fd-IsOpen refl (omega arith)

abbrev listing : Listing
listing = record { allocated = 1; cells = some 0 ∷ none ∷ [] }

lists : fs_listfiles one_open ≡ some listing
unfolding fs_listfiles
lists = refl

fs_listfiles-overflow_example : length listing.cells ≡ 2
fs_listfiles-overflow_example = fs_listfiles-overflow one_open listing lists
