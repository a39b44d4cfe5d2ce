-- ===== src/Fs/Names.antt =====
-- Challenge5/fs.c: files by their names, across `fs_create`, `fs_open` and `fs_delete`.
use operating_system_challen.Base.{
  ℕ, zero, suc, ◌≡◌, refl, sym, ap, ◌∙◌, ◌≢◌, true, false, not, none, some, List, [], ◌∷◌, ◌++◌,
  arith, ◌<◌, ◌==◌, ◌||◌, inl, inr, if◌then◌else◌, Bool-cases, Option-cases, bytes_eq,
  bytes_eq_refl, length, get_or, get_elem?, get_elem?-lt, get_elem?-set, get_elem?-set_self, set,
  replicate, done,
}
use operating_system_challen.Device.{Block, FileName, Device, View, IsDevice, read_pos}
use operating_system_challen.Fs.Types.{Inode, DirEntry, FileSystem}
use operating_system_challen.Fs.Bitmap.Laws.{used}
use operating_system_challen.Fs.Layout.{overlay}
use operating_system_challen.Fs.Tables.{
  find_inode, find_fd, find_directory, is_named, matches, c_str,
}
use operating_system_challen.Fs.Tables.Laws.{
  IsCString, has_name, find_directory-old_some, find_directory-old_none, find_directory-new_some,
  find_inode-some,
}
use operating_system_challen.Fs.Mount.{no_inode}
use operating_system_challen.Fs.Files.{fs_create, fs_open, fs_delete}
use operating_system_challen.Fs.Files.Create.{fs_create-Returned, two_blocks}
use operating_system_challen.Fs.Files.Delete.{freed, fs_delete-some}
use operating_system_challen.Fs.Files.Inversion.{opened_fd}
use operating_system_challen.Fs.Io.{block_numbers}
use operating_system_challen.Fs.Invariant.{Inv}
use operating_system_challen.Fs.Invariant.Files.{
  fs_create-Inv, named_entry, fresh_inode, new_file_lem, c_str-overlay,
}

has_name-true :
    (name : List ℕ) (directory : List DirEntry) (k : ℕ) (e : DirEntry)
    → get_elem? directory k ≡ some e
    → is_named e ≡ true
    → c_str e.name ≡ name
    → has_name name directory ≡ true
unfolding has_name matches
has_name-true name [] k e at named same = cc
has_name-true name (f ∷ fs) zero e at named same =
    let eq : f ≡ e = ground arith in
    ground (
      arith,
      ap is_named eq,
      ap (λ (t : DirEntry). bytes_eq name (c_str t.name)) eq,
      bytes_eq_refl name,
      ap (bytes_eq name) same,
    )
has_name-true name (f ∷ fs) (suc k) e at named same =
    ground (arith, has_name-true name fs k e at named same)

-- A consistent directory finds the one entry that has the name.
find_directory-named :
    {W : Type 0} (s : FileSystem W) (name : List ℕ) (k : ℕ) (e : DirEntry)
    → Inv s
    → get_elem? s.directory k ≡ some e
    → is_named e ≡ true
    → c_str e.name ≡ name
    → find_directory false name s.directory ≡ some k
find_directory-named s name k e v at named same =
    elim (Option-cases (find_directory false name s.directory)) [
      | inl n ↦ absurd (
          ground (
            arith,
            find_directory-old_none name s.directory n,
            has_name-true name s.directory k e at named same,
          ))
      | inr (j, found) ↦
          let (f, at', named', same') = find_directory-old_some name s.directory j found in
          found ∙ ap some (v.consistent.one_name j k f e at' at named' named (same' ∙ sym same))
    ]

-- A name of at least one character is seen in the entry.
is_named-overlay :
    (name buf : List ℕ)
    → IsCString name
    → name ≢ []
    → not (get_or (overlay (name ++ 0 ∷ []) buf) 0 0 == 0) ≡ true
unfolding overlay
is_named-overlay [] buf str ne = absurd (ne refl)
is_named-overlay (c ∷ cs) buf str ne = ground (arith, str.0)

-- `fs_open` of a name that one entry has.
fs_open-found :
    {W : Type 0} (s : FileSystem W) (name : FileName) (dir fd : ℕ) (e : DirEntry)
    → s.ready ≡ true
    → find_directory false name s.directory ≡ some dir
    → get_elem? s.directory dir ≡ some e
    → find_fd s.fds ≡ some fd
    → fs_open name s ≡ done (some fd, record s { fds = set s.fds fd (opened_fd e.inode_num) })
unfolding fs_open
fs_open-found s name dir fd e ready found at free = ground arith

-- The inode and the entry of a file that is created.
record IsFile {W : Type 0} (name : FileName) (s s1 : FileSystem W) (i loc j : ℕ) (old : DirEntry)
    : Type 0 where
  free_inode : find_inode s.inodes ≡ some i
  free_block : used s.bitmap loc ≡ false
  in_table : i < length s.inodes
  inode : get_elem? s1.inodes i ≡ some (fresh_inode loc)
  entry : get_elem? s1.directory j ≡ some (named_entry i name old)
  same_fds : s1.fds ≡ s.fds
  ready : s1.ready ≡ true

fs_create-IsFile :
    {W : Type 0} (d : Device W) (behind : List ℕ) (name : FileName) (s s1 : FileSystem W) (r : ℕ)
    → fs_create d behind name s ≡ done (some r, s1)
    → (i : ℕ) × (loc : ℕ) × (j : ℕ) × (old : DirEntry) × IsFile name s s1 i loc j old
fs_create-IsFile d behind name s s1 r e =
    let t = fs_create-Returned d behind name s {r = some r} {s' = s1} e in
    elim t.outcome [
      | inl (refused, _) ↦ absurd (cc)
      | inr c ↦
          let (_, _, _, free_loc, _) = two_blocks t.allocated in
          let (free, at, _) = find_inode-some s.inodes c.inode c.free_inode in
          let (_, (old, at_d, _)) = find_directory-new_some name s.directory c.entry c.free_entry in
          let small = get_elem?-lt s.inodes c.inode free at in
          let new =
            c.new
            ∙ ap (λ (x : FileSystem _). record x { world = c.w })
                (new_file_lem c.inode c.entry t.loc name (record s { bitmap = t.bitmap }) old
                  at_d) in
          (
            c.inode,
            t.loc,
            c.entry,
            old,
            record {
              free_inode = c.free_inode;
              free_block = free_loc;
              in_table = small;
              inode =
                  ap (λ (x : FileSystem _). get_elem? x.inodes c.inode) new
                  ∙ get_elem?-set_self s.inodes c.inode (fresh_inode t.loc) small;
              entry =
                  ap (λ (x : FileSystem _). get_elem? x.directory c.entry) new
                  ∙ get_elem?-set_self s.directory c.entry (named_entry c.inode name old)
                      (get_elem?-lt s.directory c.entry old at_d);
              same_fds = ap (λ (x : FileSystem _). x.fds) new;
              ready = ap (λ (x : FileSystem _). x.ready) new ∙ c.ready;
            },
          )
    ]

-- A file that `fs_create` creates in a consistent file system, with a name of at least one
-- character, can be opened: if a descriptor is free, `fs_open` returns it, at offset 0 of the inode
-- that was the first free one, which is now in use with size 0 and a block that was free.
pub fs_create-fs_open :
    {W : Type 0} (d : Device W) (behind : List ℕ) (name : FileName) (s s1 : FileSystem W) (r fd : ℕ)
    → Inv s
    → IsCString name
    → name ≢ []
    → fs_create d behind name s ≡ done (some r, s1)
    → find_fd s.fds ≡ some fd
    → (i : ℕ) × (loc : ℕ) × (find_inode s.inodes ≡ some i)
      × (used s.bitmap loc ≡ false)
      × (get_elem? s1.inodes i ≡ some (fresh_inode loc))
      × (fs_open name s1 ≡ done (some fd, record s1 { fds = set s1.fds fd (opened_fd i) }))
fs_create-fs_open d behind name s s1 r fd v str ne e free_fd =
    let v1 = fs_create-Inv d behind name s s1 (some r) v str e in
    let (i, loc, j, old, c) = fs_create-IsFile d behind name s s1 r e in
    let e' = named_entry i name old in
    let found =
      find_directory-named s1 name j e' v1 c.entry (is_named-overlay name old.name str ne)
        (c_str-overlay name old.name str) in
    let number : e'.inode_num ≡ i = omega (arith, c.in_table, v.shape.inode_count) in
    (
      i,
      loc,
      c.free_inode,
      c.free_block,
      c.inode,
      fs_open-found s1 name j fd e' c.ready found c.entry (ap find_fd c.same_fds ∙ free_fd)
          ∙ ap (λ (k : ℕ). done (some fd, record s1 { fds = set s1.fds fd (opened_fd k) })) number,
    )

fs_open-missing :
    {W : Type 0} (s : FileSystem W) (name : FileName)
    → find_directory false name s.directory ≡ none
    → fs_open name s ≡ done (none, s)
unfolding fs_open
fs_open-missing s name n = ground arith

-- An entry that has a name has one of at least one character.
is_named-empty : (bytes : List ℕ) → not (get_or bytes 0 0 == 0) ≡ true → c_str bytes ≢ []
unfolding c_str
is_named-empty [] named same = ground arith
is_named-empty (c ∷ cs) named same = ground arith

find_directory-empty : (directory : List DirEntry) → find_directory false [] directory ≡ none
find_directory-empty directory = elim (Option-cases (find_directory false [] directory)) [
  | inl nothing ↦ nothing
  | inr (k, found) ↦
      let (e, _, named, same) = find_directory-old_some [] directory k found in
      absurd (is_named-empty e.name named same)
]

-- `fs_create` accepts the empty name: where it returns a number, the first free inode is in use, with
-- a block that was free. But in every state `fs_open` and `fs_delete` of that name return -1 and
-- change nothing, so that the file is lost.
pub fs_create-empty_name :
    {W : Type 0} (d : Device W) (behind : List ℕ) (s s1 : FileSystem W) (r : ℕ)
    → fs_create d behind [] s ≡ done (some r, s1)
    → (i : ℕ) × (loc : ℕ) × (find_inode s.inodes ≡ some i)
      × (used s.bitmap loc ≡ false)
      × (get_elem? s1.inodes i ≡ some (fresh_inode loc))
      × ((t : FileSystem W) → fs_open [] t ≡ done (none, t))
      × ((t : FileSystem W) (stack : Block) → fs_delete d stack [] t ≡ done (none, t))
unfolding fs_delete
fs_create-empty_name d behind s s1 r e =
    let (i, loc, _, _, c) = fs_create-IsFile d behind [] s s1 r e in
    (
      i,
      loc,
      c.free_inode,
      c.free_block,
      c.inode,
      λ t. fs_open-missing t [] (find_directory-empty t.directory),
      λ t stack. ground (arith, find_directory-empty t.directory),
    )

-- `memset(name, 0, 15)` leaves no name.
is_named-erased : (buf : List ℕ) → not (get_or (overlay (replicate 15 0) buf) 0 0 == 0) ≡ false
unfolding overlay
is_named-erased buf = refl

module _ {W : Type 0} (d : Device W) (stack : Block) (name : FileName) (s s1 : FileSystem W)
    (r : ℕ) where
  -- A file that `fs_delete` deleted from a consistent file system cannot be opened: `fs_open`
  -- returns -1 and changes nothing.
  pub fs_delete-fs_open :
      Inv s → fs_delete d stack name s ≡ done (some r, s1) → fs_open name s1 ≡ done (none, s1)
  fs_delete-fs_open v e =
      let t = fs_delete-some d stack name s {r = r} {s' = s1} e in
      let (entry, at, named, same_name) = find_directory-old_some name s.directory t.dir t.found in
      let cleared : DirEntry = record {
        is_used = false;
        inode_num = 0;
        name = overlay (replicate 15 0) t.entry.name;
      } in
      let directory1 : s1.directory ≡ set s.directory t.dir cleared =
        ap (λ (x : FileSystem W). x.directory) t.new in
      elim (Option-cases (find_directory false name s1.directory)) [
        | inl n ↦ fs_open-missing s1 name n
        | inr (k, found) ↦
            let (f, at_k, named_k, same_k) = find_directory-old_some name s1.directory k found in
            let here : get_elem? (set s.directory t.dir cleared) k ≡ some f =
              rw (← directory1) at_k in
            let look =
              get_elem?-set s.directory t.dir k cleared
                (get_elem?-lt s.directory t.dir t.entry t.at_dir) in
            elim (Bool-cases (t.dir == k)) [
              | inl same ↦
                  let eq : f ≡ cleared = ground arith in
                  absurd (ground (arith, ap is_named eq, is_named-erased t.entry.name))
              | inr other ↦
                  let old : get_elem? s.directory k ≡ some f = ground arith in
                  let j =
                    v.consistent.one_name t.dir k entry f at old named named_k
                      (same_name ∙ sym same_k) in
                  absurd (ground arith)
            ]
      ]

  -- `fs_delete` that returns a number gives back the blocks of the file, and no other: behind it
  -- the block of block numbers and the blocks that it lists before the first 0 are free, its inode
  -- is cleared, and every other bit is as it was.
  pub fs_delete-blocks :
      (v : View W) (laws : IsDevice d v) (disk : FileName)
      → v.current s.world ≡ some disk
      → length stack ≡ 4096
      → fs_delete d stack name s ≡ done (some r, s1)
      → (dir : ℕ) × (entry : DirEntry) × (n : Inode) × (find_directory false name s.directory
          ≡ some dir)
        × (get_elem? s.directory dir ≡ some entry)
        × (get_elem? s.inodes entry.inode_num ≡ some n)
        × (s1.inodes ≡ set s.inodes entry.inode_num no_inode)
        × ((q : ℕ)
            → used s1.bitmap q ≡ (
                if n.single_indirect_block == q
                  || freed q (block_numbers (v.block s.world disk n.single_indirect_block))
                then false
                else used s.bitmap q))
  fs_delete-blocks v laws disk cur size e =
      let t = fs_delete-some d stack name s {r = r} {s' = s1} e in
      let (_, _, array, _) =
        read_pos d v laws disk t.inode.single_indirect_block stack t.array s.world t.w1 cur size
          t.got in
      (
        t.dir,
        t.entry,
        t.inode,
        t.found,
        t.at_dir,
        t.at_inode,
        ap (λ (x : FileSystem W). x.inodes) t.new,
        λ q. rw (← array) (ground (arith, t.all_freed q)),
      )
