-- ===== src/Tests/Mount.antt =====
-- Disks that are mounted, and calls on them.
use operating_system_challen.Base.{
  tabulate, ℕ, ◌≡◌, refl, ap, sym, ◌∙◌, ◌≢◌, ◌+◌, ◌≤◌, get_elem?, some_injective, some, none, List,
  [], ◌∷◌, arith, Bool, Outcome, done, fault, pos, true, false, ◌==◌, replicate,
}
use operating_system_challen.Device.{IsDevice, FileName}
use operating_system_challen.Disk.{
  write_zeros, make_disk, open_disk, close_disk, block_read, block_write, disk_device,
}
use operating_system_challen.Disk.Blocks.{disk_view}
use operating_system_challen.Disk.Laws.{disk_device-IsDevice}
use operating_system_challen.Fs.Types.{FileDescriptor, max_files, block_size}
use operating_system_challen.Fs.Bitmap.{write_used_blocks_bit, find_used_blocks_bit}
use operating_system_challen.Fs.Bitmap.Laws.{used}
use operating_system_challen.Fs.Layout.{decode_table, decode_u32}
use operating_system_challen.Fs.Tables.{find_inode, find_fd, find_directory}
use operating_system_challen.Fs.Mount.{no_inode, no_entry, make_fs, mount_fs, umount_fs}
use operating_system_challen.Fs.Mount.RoundTrip.{SameMetadata, umount_fs-mount_fs}
use operating_system_challen.Fs.Mount.Fresh.{make_fs-mount_fs}
use operating_system_challen.Fs.Mount.Failure.{mount_fs-mount_fs}
use operating_system_challen.Fs.Files.{fs_create, fs_open, fs_close, fs_delete}
use operating_system_challen.Fs.Io.{rem_offset, fs_read, fs_write, fs_lseek, fs_truncate}
use operating_system_challen.Fs.Io.Sizes.{fs_read-returns}
use operating_system_challen.Fs.Invariant.{Inv}
use operating_system_challen.Fs.Invariant.History.{
  Request, create, opens, closes, delete, writes, seeks, reads, truncates, serve_all, serve_all-Inv,
}
use operating_system_challen.Tests.Host.{one_file, one_file_view, one_file-IsHost}
use operating_system_challen.Tests.States.{
  State, blank, blank-Inv, disk, view, laws, disk_name, empty_block, file_name, file_name-IsCString,
  created, created-Inv, created_on_disk, behind,
}

disk_device-IsDevice_example : IsDevice (disk_device one_file) (disk_view one_file one_file_view)
disk_device-IsDevice_example = disk_device-IsDevice one_file one_file_view one_file-IsHost

with_state : {A : Type 0} (p : Bool × A) {b : Bool} → p.0 ≡ b → p ≡ (b, p.1)
with_state p e = ap (λ b. (b, p.1)) e

abbrev unmounted : State
unmounted = (umount_fs disk empty_block created).1

unmounts : umount_fs disk empty_block created ≡ (true, unmounted)
unfolding umount_fs write_used_blocks_bit find_used_blocks_bit find_inode find_directory block_write
    close_disk fs_create
unmounts = with_state (umount_fs disk empty_block created) refl

abbrev remounted : State
remounted = (mount_fs disk empty_block disk_name unmounted).1

mounts : mount_fs disk empty_block disk_name unmounted ≡ (true, remounted)
unfolding umount_fs mount_fs write_used_blocks_bit find_used_blocks_bit find_inode find_directory
    block_write block_read open_disk close_disk fs_create
mounts = with_state (mount_fs disk empty_block disk_name unmounted) refl

umount_fs-mount_fs_example :
    SameMetadata created remounted
    × (remounted.ready ≡ true)
    × (view.current remounted.world ≡ some disk_name)
umount_fs-mount_fs_example =
    umount_fs-mount_fs disk view laws disk_name empty_block empty_block created unmounted remounted
      created-Inv.shape refl refl created_on_disk unmounts mounts

-- The program as it starts: the disk is closed and nothing is mounted.
abbrev start : State
start = record blank { ready = false; world = record blank.world { active = false } }

abbrev state_made : Outcome (Bool × State) → State
state_made fault = start
state_made (done (b, s)) = s

abbrev succeeded : Outcome (Bool × State) → Bool
succeeded fault = false
succeeded (done (b, s)) = b

with_state_made : (o : Outcome (Bool × State)) → succeeded o ≡ true → o ≡ done (true, state_made o)
with_state_made fault e = absurd (ground arith)
with_state_made (done (b, s)) e = ap (λ x. done (x, s)) e

abbrev made : State
made = state_made (make_fs disk empty_block disk_name start)

makes : make_fs disk empty_block disk_name start ≡ done (true, made)
unfolding make_fs write_used_blocks_bit make_disk write_zeros open_disk block_write close_disk
makes = with_state_made (make_fs disk empty_block disk_name start) refl

abbrev fresh : State
fresh = (mount_fs disk empty_block disk_name made).1

mounts_made : mount_fs disk empty_block disk_name made ≡ (true, fresh)
unfolding mount_fs make_fs write_used_blocks_bit make_disk write_zeros open_disk block_write
    block_read close_disk
mounts_made = with_state (mount_fs disk empty_block disk_name made) refl

make_fs-mount_fs_example :
    Inv fresh
    × (fresh.ready ≡ true)
    × (view.current fresh.world ≡ some disk_name)
    × (fresh.inodes ≡ replicate max_files no_inode)
    × (fresh.directory ≡ replicate max_files no_entry)
    × ((q : ℕ) → used fresh.bitmap q ≡ (q == 0))
make_fs-mount_fs_example =
    make_fs-mount_fs disk view laws disk_name empty_block empty_block start made fresh refl refl
      refl makes mounts_made

mount_fs-mount_fs_example :
    (s2 : State) × (mount_fs disk empty_block file_name remounted ≡ (false, s2))
    × (s2.ready ≡ true)
    × (s2.fds ≡ remounted.fds)
    × (s2.world ≡ remounted.world)
    × (s2.inodes ≡ replicate max_files no_inode)
    × ((wanted : FileName) → fs_open wanted s2 ≡ done (none, s2))
mount_fs-mount_fs_example =
    mount_fs-mount_fs one_file empty_block empty_block disk_name file_name unmounted remounted
      mounts

abbrev requests : List Request
requests =
    create behind file_name
    ∷ opens file_name
    ∷ writes empty_block empty_block (pos 0) (5 ∷ 6 ∷ [])
    ∷ seeks (pos 0) (pos 0)
    ∷ reads empty_block empty_block (pos 0) 2
    ∷ truncates (pos 0) (pos 1)
    ∷ closes (pos 0)
    ∷ delete empty_block file_name
    ∷ []

abbrev left_by : Outcome State → State
left_by fault = blank
left_by (done s) = s

abbrev returns : Outcome State → Bool
returns fault = false
returns (done s) = true

is_left : (o : Outcome State) → returns o ≡ true → o ≡ done (left_by o)
is_left fault e = absurd (ground arith)
is_left (done s) e = refl

abbrev served : State
served = left_by (serve_all disk requests blank)

serves : serve_all disk requests blank ≡ done served
unfolding serve_all fs_create fs_open fs_write fs_lseek fs_read fs_truncate fs_close fs_delete
    write_used_blocks_bit find_used_blocks_bit find_inode find_fd find_directory block_write
    block_read decode_table decode_u32 tabulate
serves = is_left (serve_all disk requests blank) refl

serve_all-Inv_example : Inv served
serve_all-Inv_example =
    serve_all-Inv disk requests blank served blank-Inv
      (file_name-IsCString, (tt, (tt, (tt, (tt, (tt, (tt, (tt, tt)))))))) serves

-- A file of two bytes with a descriptor at its start.
abbrev two_bytes : List Request
two_bytes =
    create behind file_name
    ∷ opens file_name
    ∷ writes empty_block empty_block (pos 0) (5 ∷ 6 ∷ [])
    ∷ seeks (pos 0) (pos 0)
    ∷ []

abbrev at_start : State
at_start = left_by (serve_all disk two_bytes blank)

serves_two_bytes : serve_all disk two_bytes blank ≡ done at_start
unfolding serve_all fs_create fs_open fs_write fs_lseek write_used_blocks_bit find_used_blocks_bit
    find_inode find_fd find_directory block_write block_read decode_table decode_u32 tabulate
serves_two_bytes = is_left (serve_all disk two_bytes blank) refl

at_start-Inv : Inv at_start
at_start-Inv =
    serve_all-Inv disk two_bytes blank at_start blank-Inv
      (file_name-IsCString, (tt, (tt, (tt, tt)))) serves_two_bytes

abbrev start_fd : FileDescriptor
start_fd = record { is_used = true; inode_num = 0; offset = 0 }

start_fd-at : get_elem? at_start.fds 0 ≡ some start_fd
unfolding serve_all fs_create fs_open fs_write fs_lseek write_used_blocks_bit find_used_blocks_bit
    find_inode find_fd find_directory block_write block_read decode_table decode_u32 tabulate
start_fd-at = refl

fs_read-returns_example : fs_read disk empty_block empty_block (pos 0) 2 at_start ≢ fault
fs_read-returns_example =
    fs_read-returns disk empty_block empty_block 0 2 at_start at_start-Inv (omega arith)
      (λ f at. fits f (some_injective start_fd f (sym start_fd-at ∙ at)))
  where
    fits : (f : FileDescriptor) → start_fd ≡ f → rem_offset f.offset + 2 ≤ block_size
    fits f e = rw (← e) (omega arith)
