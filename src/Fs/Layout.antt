-- ===== src/Fs/Layout.antt =====
-- Challenge5/fs.c: the bytes of the global arrays in block 0, little endian, with the padding of
-- the structs. The padding is 0: the arrays are static and are cleared by `memset`.
pub mod RoundTrip
use operating_system_challen.Base.{
  ℕ, zero, suc, ◌+◌, ◌*◌, ◌/◌, ◌%◌, Bool, true, false, not, List, [], ◌∷◌, ◌++◌, ◌==◌,
  if◌then◌else◌, length, get_or, take, drop,
}
use operating_system_challen.Fs.Types.{SuperBlock, Inode, DirEntry, max_files}

unfoldable pub encode_bool : Bool → ℕ
encode_bool b = if b then 1 else 0

unfoldable pub encode_u16 : ℕ → List ℕ
encode_u16 x = x % 256 ∷ x / 256 % 256 ∷ []

unfoldable pub encode_u32 : ℕ → List ℕ
encode_u32 x = x % 256 ∷ x / 256 % 256 ∷ x / 65536 % 256 ∷ x / 16777216 % 256 ∷ []

unfoldable pub encode_sb : SuperBlock → List ℕ
unfolding encode_u16
encode_sb s =
    encode_u16 s.used_block_bitmap_offset
    ++ (encode_u16 s.inode_metadata_offset ++ encode_u16 s.directory_offset)

-- 6 bytes: the flag, a byte of padding, and two numbers.
unfoldable pub encode_inode : Inode → List ℕ
unfolding encode_u16 encode_bool
encode_inode n =
    encode_bool n.is_used ∷ 0 ∷ (encode_u16 n.single_indirect_block ++ encode_u16 n.file_size)

-- 20 bytes: the flag, a byte of padding, a number, and the 16 bytes of the name and its padding.
unfoldable pub encode_dir_entry : DirEntry → List ℕ
unfolding encode_u16 encode_bool
encode_dir_entry e = encode_bool e.is_used ∷ 0 ∷ (encode_u16 e.inode_num ++ e.name)

unfoldable pub encode_table {ℓ} : {A : Type ℓ} → (A → List ℕ) → List A → List ℕ
encode_table encode [] = []
encode_table encode (x ∷ xs) = encode x ++ encode_table encode xs

unfoldable decode_u16 : List ℕ → ℕ
decode_u16 bs = get_or bs 0 0 + 256 * get_or bs 1 0

unfoldable pub decode_u32 : List ℕ → ℕ
decode_u32 bs =
    get_or bs 0 0 + 256 * get_or bs 1 0 + 65536 * get_or bs 2 0 + 16777216 * get_or bs 3 0

unfoldable pub decode_bool : ℕ → Bool
decode_bool b = not (b == 0)

unfoldable pub decode_sb : List ℕ → SuperBlock
unfolding decode_u16
decode_sb bs = record {
  used_block_bitmap_offset = decode_u16 bs;
  inode_metadata_offset = decode_u16 (drop 2 bs);
  directory_offset = decode_u16 (drop 4 bs);
}

unfoldable pub decode_inode : List ℕ → Inode
unfolding decode_u16 decode_bool
decode_inode bs = record {
  is_used = decode_bool (get_or bs 0 0);
  single_indirect_block = decode_u16 (drop 2 bs);
  file_size = decode_u16 (drop 4 bs);
}

unfoldable pub decode_dir_entry : List ℕ → DirEntry
unfolding decode_u16 decode_bool
decode_dir_entry bs = record {
  is_used = decode_bool (get_or bs 0 0);
  inode_num = decode_u16 (drop 2 bs);
  name = take 16 (drop 4 bs);
}

-- `n` elements of `size` bytes each.
unfoldable pub decode_table {ℓ} : {A : Type ℓ} → ℕ → (List ℕ → A) → ℕ → List ℕ → List A
decode_table size decode zero bs = []
decode_table size decode (suc n) bs = decode bs ∷ decode_table size decode n (drop size bs)

abbrev pub sizeof_sb : ℕ
sizeof_sb = 6

abbrev pub sizeof_bitmap : ℕ
sizeof_bitmap = 1024

abbrev pub sizeof_inodes : ℕ
sizeof_inodes = 6 * max_files

-- `memcpy(buf, bytes, …)`: the bytes replace the beginning of the buffer.
unfoldable pub overlay : List ℕ → List ℕ → List ℕ
overlay bytes buf = bytes ++ drop (length bytes) buf
