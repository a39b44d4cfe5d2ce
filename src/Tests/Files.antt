-- ===== src/Tests/Files.antt =====
-- A file that is created and deleted.
use mathlib.Core.Path.{subst}
use operating_system_challen.Base.{
  [], tabulate, ℕ, ◌≡◌, refl, some, none, arith, done, fault, set, get_elem?, replicate, ◌<◌,
  if◌then◌else◌, ◌==◌, ◌||◌, true, false, ◌-◌, ◌^◌,
}
use operating_system_challen.Device.{Block}
use operating_system_challen.Disk.{block_read, block_write}
use operating_system_challen.Fs.Types.{DirEntry, Inode, disk_blocks}
use operating_system_challen.Fs.Mount.{no_inode}
use operating_system_challen.Fs.Layout.{decode_table, decode_u32}
use operating_system_challen.Fs.Bitmap.{find_used_blocks_bit, write_used_blocks_bit}
use operating_system_challen.Fs.Bitmap.Laws.{used, FirstFree, find_used_blocks_bit-FirstFree}
use operating_system_challen.Fs.Tables.{find_inode, find_fd, find_directory}
use operating_system_challen.Fs.Files.{fs_create, fs_open, fs_delete}
use operating_system_challen.Fs.Files.Create.{fs_create-blocks, fs_create-fault}
use operating_system_challen.Fs.Files.Delete.{freed}
use operating_system_challen.Fs.Io.{block_numbers}
use operating_system_challen.Fs.Invariant.Files.{fresh_inode}
use operating_system_challen.Fs.Names.{
  fs_create-fs_open, fs_create-empty_name, fs_delete-fs_open, fs_delete-blocks,
}
use operating_system_challen.Fs.Files.Inversion.{opened_fd}
use operating_system_challen.Tests.States.{
  State, blank, blank-Inv, disk, view, laws, disk_name, empty_block, file_name, created, creates,
  created_on_disk, created-Inv, file_name-IsCString, behind, after, result, returned,
}

fs_create-fs_open_example :
    (i : ℕ) × (loc : ℕ) × (find_inode blank.inodes ≡ some i)
    × (used blank.bitmap loc ≡ false)
    × (get_elem? created.inodes i ≡ some (fresh_inode loc))
    × (fs_open file_name created
        ≡ done (some 0, record created { fds = set created.fds 0 (opened_fd i) }))
unfolding find_fd
fs_create-fs_open_example =
    fs_create-fs_open disk behind file_name blank created 0 0 blank-Inv file_name-IsCString
      (ground arith) creates refl

abbrev nameless : State
nameless = after blank (fs_create disk behind [] blank)

creates_nameless : fs_create disk behind [] blank ≡ done (some 0, nameless)
unfolding fs_create write_used_blocks_bit find_used_blocks_bit find_inode find_directory block_write
creates_nameless = refl

fs_create-empty_name_example :
    (i : ℕ) × (loc : ℕ) × (find_inode blank.inodes ≡ some i)
    × (used blank.bitmap loc ≡ false)
    × (get_elem? nameless.inodes i ≡ some (fresh_inode loc))
    × ((t : State) → fs_open [] t ≡ done (none, t))
    × ((t : State) (stack : Block) → fs_delete disk stack [] t ≡ done (none, t))
fs_create-empty_name_example = fs_create-empty_name disk behind blank nameless 0 creates_nameless

fs_create-blocks_example :
    (loc : ℕ) × (block : ℕ) × (loc < block)
    × (block < disk_blocks)
    × (used blank.bitmap loc ≡ false)
    × (used blank.bitmap block ≡ false)
    × ((q : ℕ) → used created.bitmap q ≡ (loc == q || (block == q || used blank.bitmap q)))
fs_create-blocks_example = fs_create-blocks disk behind file_name blank created (some 0) creates

abbrev deleted : State
deleted = after created (fs_delete disk empty_block file_name created)

result-deleted : result (fs_delete disk empty_block file_name created) ≡ some (some 0)
unfolding fs_delete fs_create write_used_blocks_bit find_used_blocks_bit find_inode find_directory
    block_write block_read decode_table decode_u32 tabulate
result-deleted = refl

deletes : fs_delete disk empty_block file_name created ≡ done (some 0, deleted)
deletes = returned created (fs_delete disk empty_block file_name created) (some 0) result-deleted

fs_delete-fs_open_example : fs_open file_name deleted ≡ done (none, deleted)
fs_delete-fs_open_example =
    fs_delete-fs_open disk empty_block file_name created deleted 0 created-Inv deletes

fs_delete-blocks_example :
    (dir : ℕ) × (entry : DirEntry) × (n : Inode) × (find_directory false file_name created.directory
      ≡ some dir)
    × (get_elem? created.directory dir ≡ some entry)
    × (get_elem? created.inodes entry.inode_num ≡ some n)
    × (deleted.inodes ≡ set created.inodes entry.inode_num no_inode)
    × ((q : ℕ)
        → used deleted.bitmap q ≡ (
            if n.single_indirect_block == q
              || freed q
                  (block_numbers (view.block created.world disk_name n.single_indirect_block))
            then false
            else used created.bitmap q))
fs_delete-blocks_example =
    fs_delete-blocks disk empty_block file_name created deleted 0 view laws disk_name
      created_on_disk refl deletes

-- Every block of the disk is used.
abbrev full : State
full = record blank { bitmap = replicate 256 (2 ^ 32 - 1) }

no_free_block : find_used_blocks_bit full.bitmap ≡ none
unfolding find_used_blocks_bit
no_free_block = refl

all_used : (j : ℕ) → j < disk_blocks → used full.bitmap j ≡ true
all_used j h =
    let r : FirstFree full.bitmap 0 disk_blocks none =
      subst (FirstFree full.bitmap 0 disk_blocks) no_free_block
        (find_used_blocks_bit-FirstFree full.bitmap) in
    r j (omega arith) h

fs_create-fault_example : fs_create disk behind file_name full ≡ fault
fs_create-fault_example =
    fs_create-fault disk behind file_name full
      (λ i j hi hj free _. absurd (ground (arith, all_used i hi)))
