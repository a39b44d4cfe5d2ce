-- ===== src/Tests/Tables.antt =====
-- The bitmap and the directory.
use operating_system_challen.Base.{
  some, ℕ, FirstIndex, get_elem?, ◌≡◌, refl, none, List, [], ◌∷◌, arith, done, pos, true, false,
  if◌then◌else◌, ◌==◌, not, replicate, find_index,
}
use operating_system_challen.Fs.Types.{DirEntry, disk_blocks}
use operating_system_challen.Fs.Bitmap.{find_used_blocks_bit, write_used_blocks_bit}
use operating_system_challen.Fs.Bitmap.Laws.{
  used, FirstFree, IsBitmap, find_used_blocks_bit-FirstFree, used-write_used_blocks_bit,
  write_used_blocks_bit-IsBitmap,
}
use operating_system_challen.Fs.Tables.{find_directory, is_named, find_inode, c_str}
use operating_system_challen.Fs.Tables.Laws.{
  has_name, find_directory-new, find_directory-old_some, find_inode-FirstIndex,
}
use operating_system_challen.Tests.States.{file_name, blank, blank-Inv, one_open}

find_used_blocks_bit-FirstFree_example :
    FirstFree blank.bitmap 0 disk_blocks (find_used_blocks_bit blank.bitmap)
find_used_blocks_bit-FirstFree_example = find_used_blocks_bit-FirstFree blank.bitmap

marks : write_used_blocks_bit (pos 2) true blank.bitmap ≡ done (5 ∷ replicate 255 0)
unfolding write_used_blocks_bit
marks = refl

used-write_used_blocks_bit_example :
    used (5 ∷ replicate 255 0) 3 ≡ (if 2 == 3 then true else used blank.bitmap 3)
used-write_used_blocks_bit_example = used-write_used_blocks_bit 2 true blank.bitmap 3 marks

write_used_blocks_bit-IsBitmap_example :
    (bitmap' : List ℕ) × (write_used_blocks_bit (pos 8191) true blank.bitmap ≡ done bitmap')
    × IsBitmap bitmap'
write_used_blocks_bit-IsBitmap_example =
    write_used_blocks_bit-IsBitmap 8191 true blank.bitmap blank-Inv.shape.bitmap_ok (omega arith)

find_directory-new_example : find_directory true (99 ∷ []) one_open.directory ≡ (
    if has_name (99 ∷ []) one_open.directory
    then none
    else find_index (λ e. not (is_named e)) one_open.directory 0)
find_directory-new_example = find_directory-new (99 ∷ []) one_open.directory

entry_found : find_directory false file_name one_open.directory ≡ some 0
unfolding find_directory
entry_found = refl

find_directory-old_some_example :
    (e : DirEntry) × (get_elem? one_open.directory 0 ≡ some e)
    × (is_named e ≡ true)
    × (c_str e.name ≡ file_name)
find_directory-old_some_example = find_directory-old_some file_name one_open.directory 0 entry_found

find_inode-FirstIndex_example :
    FirstIndex (λ n. not n.is_used) one_open.inodes 0 (find_inode one_open.inodes)
find_inode-FirstIndex_example = find_inode-FirstIndex one_open.inodes
