-- ===== src/Fs/Invariant/Files.antt =====
-- Challenge5/fs.c: `fs_create` and `fs_delete` keep the tables consistent.
use mathlib.Core.Path.{subst}
use mathlib.Core.List.{append_assoc}
use operating_system_challen.Base.{
  ℕ, ◌≤◌, ◌≡◌, refl, sym, ap, ◌∙◌, ◌≢◌, true, false, not, Option, none, some, List, [], ◌∷◌, ◌++◌,
  arith, inl, inr, ◌==◌, length, length-append, length-drop, length-set, drop, get_or, set, All-set,
  All-get, get_elem?, get_elem?-lt, replicate, done, pos,
}
use operating_system_challen.Device.{Block, FileName, Device}
use operating_system_challen.Fs.Types.{Inode, DirEntry, FileDescriptor, FileSystem, u16}
use operating_system_challen.Fs.Bitmap.Laws.{IsBitmap, IsBitmap-write_used_blocks_bit}
use operating_system_challen.Fs.Layout.{overlay}
use operating_system_challen.Fs.Layout.RoundTrip.{IsInode, IsDirEntry}
use operating_system_challen.Fs.Tables.{is_named, c_str}
use operating_system_challen.Fs.Tables.Laws.{
  IsCString, c_str-append, find_directory-old_some, find_directory-new_some, find_inode-some,
  has_name-false,
}
use operating_system_challen.Fs.Mount.{no_inode}
use operating_system_challen.Fs.Files.{fs_create, fs_delete, new_file}
use operating_system_challen.Fs.Files.Create.{Allocated, fs_create-Returned}
use operating_system_challen.Fs.Files.Delete.{is_open-false, fs_delete-some, fs_delete-none}
use operating_system_challen.Fs.Invariant.{inode_used, Inv}
use operating_system_challen.Fs.Invariant.Calls.{Inv-disk}
use operating_system_challen.Fs.Invariant.Updates.{new_file-IsConsistent, free_file-IsConsistent}

Allocated-IsBitmap :
    {bitmap bitmap' : List ℕ} {loc block : ℕ}
    → Allocated bitmap bitmap' loc block
    → IsBitmap bitmap
    → IsBitmap bitmap'
Allocated-IsBitmap {bitmap} {bitmap'} {loc} {block} a v =
    IsBitmap-write_used_blocks_bit (pos block) true a.between
      (IsBitmap-write_used_blocks_bit (pos loc) true bitmap v a.took_loc) a.took_block

length-overlay :
    (bytes buf : List ℕ) → length bytes ≤ length buf → length (overlay bytes buf) ≡ length buf
unfolding overlay
length-overlay bytes buf h =
    omega
      (arith, length-append {0} bytes (drop (length bytes) buf), length-drop {0} (length bytes) buf)

-- `strcpy` of a name puts that C string in the field.
pub c_str-overlay :
    (name buf : List ℕ) → IsCString name → c_str (overlay (name ++ 0 ∷ []) buf) ≡ name
unfolding overlay
c_str-overlay name buf h =
    rw (append_assoc name (0 ∷ []) (drop (length (name ++ 0 ∷ [])) buf))
      (c_str-append name (drop (length (name ++ 0 ∷ [])) buf) h)

-- `memset(name, 0, 15)` leaves a field with no name.
is_named-cleared : (buf : List ℕ) → not (get_or (overlay (replicate 15 0) buf) 0 0 == 0) ≡ false
unfolding overlay
is_named-cleared buf = refl

module _ {W : Type 0} (s : FileSystem W) (v : Inv s) where
  Inv-new_file :
      (i d : ℕ) (n : Inode) (e old : DirEntry) (free : Inode)
      → get_elem? s.inodes i ≡ some free
      → free.is_used ≡ false
      → get_elem? s.directory d ≡ some old
      → n.is_used ≡ true
      → IsInode n
      → IsDirEntry e
      → e.inode_num ≡ i
      → ((k : ℕ) (f : DirEntry)
          → get_elem? s.directory k ≡ some f
          → is_named f ≡ true
          → c_str f.name ≢ c_str e.name)
      → Inv (record s { inodes = set s.inodes i n; directory = set s.directory d e })
  unfolding inode_used
  Inv-new_file i d n e old free at unused at_d used n_ok e_ok num fresh = record {
    shape = record {
      inode_count = length-set s.inodes i n ∙ v.shape.inode_count;
      inodes_ok = All-set IsInode s.inodes i n n_ok v.shape.inodes_ok;
      entry_count = length-set s.directory d e ∙ v.shape.entry_count;
      entries_ok = All-set IsDirEntry s.directory d e e_ok v.shape.entries_ok;
      fd_count = v.shape.fd_count;
      bitmap_ok = v.shape.bitmap_ok;
      sb_ok = v.shape.sb_ok;
    };
    consistent =
        new_file-IsConsistent s.inodes s.directory s.fds v.consistent i d n e
          (get_elem?-lt s.inodes i free at) (get_elem?-lt s.directory d old at_d) (ground arith)
          used num fresh;
  }

  Inv-free_file :
      (d : ℕ) (n old_n : Inode) (e e' : DirEntry)
      → get_elem? s.directory d ≡ some e
      → get_elem? s.inodes e.inode_num ≡ some old_n
      → IsInode n
      → IsDirEntry e'
      → is_named e ≡ true
      → is_named e' ≡ false
      → ((j : ℕ) (f : FileDescriptor)
          → get_elem? s.fds j ≡ some f
          → f.is_used ≡ true
          → f.inode_num ≢ e.inode_num)
      → Inv (record s { inodes = set s.inodes e.inode_num n; directory = set s.directory d e' })
  Inv-free_file d n old_n e e' at at_n n_ok e_ok named gone closed = record {
    shape = record {
      inode_count = length-set s.inodes e.inode_num n ∙ v.shape.inode_count;
      inodes_ok = All-set IsInode s.inodes e.inode_num n n_ok v.shape.inodes_ok;
      entry_count = length-set s.directory d e' ∙ v.shape.entry_count;
      entries_ok = All-set IsDirEntry s.directory d e' e_ok v.shape.entries_ok;
      fd_count = v.shape.fd_count;
      bitmap_ok = v.shape.bitmap_ok;
      sb_ok = v.shape.sb_ok;
    };
    consistent =
        free_file-IsConsistent s.inodes s.directory s.fds v.consistent d n e e' at
          (get_elem?-lt s.inodes e.inode_num old_n at_n) (get_elem?-lt s.directory d e at) named
          gone closed;
  }

-- The entry that `fs_create` writes.
abbrev pub named_entry : ℕ → FileName → DirEntry → DirEntry
named_entry i name old = record {
  is_used = true;
  inode_num = u16 i;
  name = overlay (name ++ 0 ∷ []) old.name;
}

abbrev pub fresh_inode : ℕ → Inode
fresh_inode loc = record { is_used = true; single_indirect_block = u16 loc; file_size = 0 }

pub new_file_lem :
    {W : Type 0} (i d loc : ℕ) (name : FileName) (s : FileSystem W) (old : DirEntry)
    → get_elem? s.directory d ≡ some old
    → new_file i d loc name s ≡ record s {
      inodes = set s.inodes i (fresh_inode loc);
      directory = set s.directory d (named_entry i name old);
    }
unfolding new_file
new_file_lem i d loc name s old at = ground arith

module _ {W : Type 0} (d : Device W) where
  pub fs_create-Inv :
      (behind : List ℕ) (name : FileName) (s s' : FileSystem W) (r : Option ℕ)
      → Inv s
      → IsCString name
      → fs_create d behind name s ≡ done (r, s')
      → Inv s'
  fs_create-Inv behind name s s' r v str e =
      let t = fs_create-Returned d behind name s {r = r} {s' = s'} e in
      let bits = Allocated-IsBitmap t.allocated v.shape.bitmap_ok in
      let marked = Inv-disk s v s.world t.bitmap bits in
      elim t.outcome [
        | inl (_, same) ↦ subst Inv (sym same) marked
        | inr c ↦
            let (free, at, unused) = find_inode-some s.inodes c.inode c.free_inode in
            let (fresh, (old, at_d, unnamed)) =
              find_directory-new_some name s.directory c.entry c.free_entry in
            let small = get_elem?-lt s.inodes c.inode free at in
            let old_ok = All-get IsDirEntry s.directory c.entry old v.shape.entries_ok at_d in
            let made =
              Inv-new_file _ marked c.inode c.entry (fresh_inode t.loc)
                (named_entry c.inode name old) old free at unused at_d refl
                (record { block_u16 = omega arith; size_u16 = omega arith })
                (record {
                  inode_u16 = omega arith;
                  name_size =
                      length-overlay (name ++ 0 ∷ []) old.name
                        (omega (arith, length-append {0} name (0 ∷ []), c.fits, old_ok.name_size))
                      ∙ old_ok.name_size;
                })
                (omega (arith, small, v.shape.inode_count))
                (λ k f at_k named same.
                  has_name-false name s.directory k f fresh at_k named
                    (same ∙ c_str-overlay name old.name str)) in
            subst Inv
              (sym (
                c.new
                ∙ ap (λ (x : FileSystem W). record x { world = c.w })
                    (new_file_lem c.inode c.entry t.loc name (record s { bitmap = t.bitmap }) old
                      at_d)))
              (Inv-disk _ made c.w t.bitmap bits)
      ]

  pub fs_delete-Inv :
      (stack : Block) (name : FileName) (s s' : FileSystem W) (r : Option ℕ)
      → Inv s
      → fs_delete d stack name s ≡ done (r, s')
      → Inv s'
  fs_delete-Inv stack name s s' none v e =
      let o = fs_delete-none d stack name s {s' = s'} e in
      subst Inv (sym o.only) (Inv-disk s v s'.world s'.bitmap (o.bitmap_ok v.shape.bitmap_ok))
  fs_delete-Inv stack name s s' (some r) v e =
      let t = fs_delete-some d stack name s {r = r} {s' = s'} e in
      let (entry', at', named, _) = find_directory-old_some name s.directory t.dir t.found in
      let same : t.entry ≡ entry' = ground (arith, t.at_dir) in
      let old_ok = All-get IsDirEntry s.directory t.dir t.entry v.shape.entries_ok t.at_dir in
      let cleared : DirEntry = record {
        is_used = false;
        inode_num = 0;
        name = overlay (replicate 15 0) t.entry.name;
      } in
      let gone =
        Inv-free_file s v t.dir no_inode t.inode t.entry cleared t.at_dir t.at_inode
          (record { block_u16 = omega arith; size_u16 = omega arith })
          (record {
            inode_u16 = omega arith;
            name_size =
                length-overlay (replicate 15 0) t.entry.name (omega (arith, old_ok.name_size))
                ∙ old_ok.name_size;
          })
          (ap is_named same ∙ named) (is_named-cleared t.entry.name)
          (λ j f at u. is_open-false t.entry.inode_num s.fds j f t.closed at u) in
      subst Inv (sym t.new) (Inv-disk _ gone s'.world s'.bitmap (t.bitmap_ok v.shape.bitmap_ok))
