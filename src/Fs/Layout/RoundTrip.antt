-- ===== src/Fs/Layout/RoundTrip.antt =====
-- Challenge5/fs.c: reading back the bytes of the global arrays gives the arrays.
use mathlib.Core.List.{append_assoc}
use operating_system_challen.Base.{
  ℕ, ◌*◌, ◌^◌, ◌<◌, ◌≡◌, refl, sym, ap, ap₂, ◌∙◌, Bool, List, [], ◌∷◌, ◌++◌, arith, length,
  length-append, drop, take-append, drop-append, drop-append_two, drop-append_three, All,
}
use operating_system_challen.Fs.Types.{SuperBlock, Inode, DirEntry, max_files}
use operating_system_challen.Fs.Layout.{
  encode_bool, encode_u32, encode_sb, encode_inode, encode_dir_entry, encode_table, decode_bool,
  decode_u32, decode_sb, decode_inode, decode_dir_entry, decode_table,
}

module _ {ℓ} {A : Type ℓ} (encode : A → List ℕ) (decode : List ℕ → A) (size : ℕ) (P : A → Type 0)
    (sized : (x : A) → P x → length (encode x) ≡ size)
    (inverse : (x : A) (rest : List ℕ) → P x → decode (encode x ++ rest) ≡ x) where
  length-encode_table :
      (xs : List A) → All P xs → length (encode_table encode xs) ≡ size * length xs
  unfolding encode_table
  length-encode_table [] a = omega arith
  length-encode_table (x ∷ xs) a = omega (
    arith,
    length-append {0} (encode x) (encode_table encode xs),
    sized x a.0,
    length-encode_table xs a.1,
  )

  decode_table-encode_table :
      (xs : List A) (rest : List ℕ)
      → All P xs
      → decode_table size decode (length xs) (encode_table encode xs ++ rest) ≡ xs
  unfolding encode_table decode_table
  decode_table-encode_table [] rest a = refl
  decode_table-encode_table (x ∷ xs) rest a =
      rw (append_assoc (encode x) (encode_table encode xs) rest) (
        ap₂ ◌∷◌ (inverse x _ a.0) (
          ap (decode_table size decode (length xs))
            (drop-append (encode x) _ size (sym (sized x a.0)))
          ∙ decode_table-encode_table xs rest a.1))

-- What a struct's fields can hold.
pub record IsInode (n : Inode) : Type 0 where
  pub block_u16 : n.single_indirect_block < 2 ^ 16
  pub size_u16 : n.file_size < 2 ^ 16

pub record IsDirEntry (e : DirEntry) : Type 0 where
  pub inode_u16 : e.inode_num < 2 ^ 16
  pub name_size : length e.name ≡ 16

pub record IsSuperBlock (s : SuperBlock) : Type 0 where
  pub bitmap_u16 : s.used_block_bitmap_offset < 2 ^ 16
  pub inodes_u16 : s.inode_metadata_offset < 2 ^ 16
  pub directory_u16 : s.directory_offset < 2 ^ 16

decode_bool-encode_bool : (b : Bool) → decode_bool (encode_bool b) ≡ b
unfolding decode_bool encode_bool
decode_bool-encode_bool b = ground arith

decode_u32-encode_u32 : (x : ℕ) (rest : List ℕ) → x < 2 ^ 32 → decode_u32 (encode_u32 x ++ rest) ≡ x
unfolding decode_u32 encode_u32
decode_u32-encode_u32 x rest h = omega arith

decode_sb-encode_sb :
    (s : SuperBlock) (rest : List ℕ) → IsSuperBlock s → decode_sb (encode_sb s ++ rest) ≡ s
unfolding decode_sb encode_sb
decode_sb-encode_sb s rest v = ground arith

decode_inode-encode_inode :
    (n : Inode) (rest : List ℕ) → IsInode n → decode_inode (encode_inode n ++ rest) ≡ n
unfolding decode_inode encode_inode
decode_inode-encode_inode n rest v = ground (arith, decode_bool-encode_bool n.is_used)

decode_dir_entry-encode_dir_entry :
    (e : DirEntry) (rest : List ℕ)
    → IsDirEntry e
    → decode_dir_entry (encode_dir_entry e ++ rest) ≡ e
unfolding decode_dir_entry encode_dir_entry
decode_dir_entry-encode_dir_entry e rest v =
    ground (arith, decode_bool-encode_bool e.is_used, take-append e.name rest 16 (sym v.name_size))

-- The four arrays as they lie in block 0, one behind the other.
module _ (sb : SuperBlock) (bitmap : List ℕ) (inodes : List Inode) (directory : List DirEntry)
    (rest : List ℕ) where
  abbrev pub stored : List ℕ
  stored =
      encode_sb sb
      ++ (encode_table encode_u32 bitmap
          ++ (encode_table encode_inode inodes
              ++ (encode_table encode_dir_entry directory ++ rest)))

  pub decode_sb-stored : IsSuperBlock sb → decode_sb stored ≡ sb
  decode_sb-stored v = decode_sb-encode_sb sb _ v

  length-encode_sb : length (encode_sb sb) ≡ 6
  unfolding encode_sb
  length-encode_sb = refl

  module _ (words : length bitmap ≡ 256) (small : All (λ w. w < 2 ^ 32) bitmap) where
    length-bitmap : length (encode_table encode_u32 bitmap) ≡ 1024
    unfolding encode_u32
    length-bitmap = omega (
      arith,
      words,
      length-encode_table encode_u32 decode_u32 4 (λ w. w < 2 ^ 32) (λ w h. refl)
          decode_u32-encode_u32 bitmap small,
    )

    pub decode_bitmap-stored : decode_table 4 decode_u32 256 (drop 6 stored) ≡ bitmap
    unfolding encode_u32
    decode_bitmap-stored =
        rw (drop-append (encode_sb sb) _ 6 (sym length-encode_sb), ← words)
          (decode_table-encode_table encode_u32 decode_u32 4 (λ w. w < 2 ^ 32) (λ w h. refl)
            decode_u32-encode_u32 bitmap _ small)

    module _ (inode_count : length inodes ≡ max_files) (inodes_ok : All IsInode inodes) where
      length-inodes : length (encode_table encode_inode inodes) ≡ 384
      unfolding encode_inode
      length-inodes = omega (
        arith,
        length-encode_table encode_inode decode_inode 6 IsInode (λ n h. refl)
            decode_inode-encode_inode inodes inodes_ok,
      )

      pub decode_inodes-stored : decode_table 6 decode_inode max_files (drop 1030 stored) ≡ inodes
      unfolding encode_inode
      decode_inodes-stored =
          rw
            (
              drop-append_two (encode_sb sb) (encode_table encode_u32 bitmap) _ 1030
                  (omega (arith, length-encode_sb, length-bitmap)),
              ← inode_count,
            )
            (decode_table-encode_table encode_inode decode_inode 6 IsInode (λ n h. refl)
              decode_inode-encode_inode inodes _ inodes_ok)

      pub decode_directory-stored :
          length directory ≡ max_files
          → All IsDirEntry directory
          → decode_table 20 decode_dir_entry max_files (drop 1414 stored) ≡ directory
      unfolding encode_dir_entry
      decode_directory-stored entry_count entries_ok =
          rw
            (
              drop-append_three (encode_sb sb) (encode_table encode_u32 bitmap)
                  (encode_table encode_inode inodes) _ 1414
                  (omega (arith, length-encode_sb, length-bitmap, length-inodes)),
              ← entry_count,
            )
            (decode_table-encode_table encode_dir_entry decode_dir_entry 20 IsDirEntry
              (λ e v. omega (arith, v.name_size)) decode_dir_entry-encode_dir_entry directory _
              entries_ok)

      -- The arrays take 2694 bytes of the 4096 of block 0.
      pub length-metadata_bytes :
          length directory ≡ max_files
          → All IsDirEntry directory
          → length (
              encode_sb sb
              ++ (encode_table encode_u32 bitmap
                  ++ (encode_table encode_inode inodes ++ encode_table encode_dir_entry directory)))
            ≡ 2694
      unfolding encode_dir_entry
      length-metadata_bytes entry_count entries_ok = omega (
        arith,
        length-append {0} (encode_sb sb) (
            encode_table encode_u32 bitmap
            ++ (encode_table encode_inode inodes ++ encode_table encode_dir_entry directory)),
        length-append {0} (encode_table encode_u32 bitmap)
            (encode_table encode_inode inodes ++ encode_table encode_dir_entry directory),
        length-append {0} (encode_table encode_inode inodes)
            (encode_table encode_dir_entry directory),
        length-encode_sb,
        length-bitmap,
        length-inodes,
        length-encode_table encode_dir_entry decode_dir_entry 20 IsDirEntry
            (λ e v. omega (arith, v.name_size)) decode_dir_entry-encode_dir_entry directory
            entries_ok,
      )
