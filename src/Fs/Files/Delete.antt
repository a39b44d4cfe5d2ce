-- ===== src/Fs/Files/Delete.antt =====
-- Challenge5/fs.c: what a call of `fs_delete` that returns has found and changed.
use operating_system_challen.Base.{
  ℕ, zero, suc, ◌≡◌, ap, ◌≢◌, inl, inr, Bool, true, false, ◌||◌, none, some, List, [], ◌∷◌, arith,
  ◌==◌, if◌then◌else◌, Bool-cases, Option-cases, ltb, ◌-◌, ◌^◌, replicate, set, get_elem?, done,
  Outcome-cases, pos, int32,
}
use operating_system_challen.Device.{Block, FileName, Device}
use operating_system_challen.Fs.Types.{Inode, DirEntry, FileDescriptor, FileSystem, block_size}
use operating_system_challen.Fs.Bitmap.{write_used_blocks_bit}
use operating_system_challen.Fs.Bitmap.Laws.{
  IsBitmap, used, used-write_used_blocks_bit, IsBitmap-write_used_blocks_bit,
  write_used_blocks_bit-fault,
}
use operating_system_challen.Fs.Tables.{find_directory}
use operating_system_challen.Fs.Layout.{decode_u32, decode_table, overlay}
use operating_system_challen.Fs.Mount.{no_inode}
use operating_system_challen.Fs.Files.{is_open, free_blocks, free_file, fs_delete}

-- Block `q` stands in the list of block numbers before the first 0.
unfoldable pub freed : ℕ → List ℕ → Bool
freed q [] = false
freed q (b ∷ bs) = if b == 0 then false else b == q || freed q bs

-- No descriptor in use has the inode.
pub is_open-false :
    (inode : ℕ) (fds : List FileDescriptor) (j : ℕ) (f : FileDescriptor)
    → is_open inode fds ≡ false
    → get_elem? fds j ≡ some f
    → f.is_used ≡ true
    → f.inode_num ≢ inode
unfolding is_open
is_open-false inode [] j f h at u same = cc
is_open-false inode (g ∷ fs) zero f h at u same =
    let e : g ≡ f = ground arith in
    ground
      (arith, ap (λ (t : FileDescriptor). t.is_used) e, ap (λ (t : FileDescriptor). t.inode_num) e)
is_open-false inode (g ∷ fs) (suc j) f h at u same =
    is_open-false inode fs j f (ground arith) at u same

used-write_int32 :
    (x : ℕ) (bitmap : List ℕ) {bitmap' : List ℕ} (q : ℕ)
    → write_used_blocks_bit (int32 x) false bitmap ≡ done bitmap'
    → used bitmap' q ≡ (if x == q then false else used bitmap q)
used-write_int32 x bitmap q e = elim (Bool-cases (ltb x (2 ^ 31))) [
  | inl small ↦ used-write_used_blocks_bit x false bitmap q (rw small at e)
  | inr big ↦ absurd (ground (arith, write_used_blocks_bit-fault (2 ^ 32 - x - 1) false bitmap))
]

module _ {W : Type 0} (d : Device W) where
  -- The loop of `fs_delete` changes the bitmap and the disk only.
  pub record Freed (bs : List ℕ) (ok : Bool) (s s' : FileSystem W) : Type 0 where
    pub only : s' ≡ record s { world = s'.world; bitmap = s'.bitmap }
    pub bitmap_ok : IsBitmap s.bitmap → IsBitmap s'.bitmap
    pub all_freed :
        ok ≡ true → (q : ℕ) → used s'.bitmap q ≡ (if freed q bs then false else used s.bitmap q)

  free_blocks-Freed :
      (bs : List ℕ) (ok : Bool) (s s' : FileSystem W)
      → free_blocks d bs s ≡ done (ok, s')
      → Freed bs ok s s'
  unfolding free_blocks freed
  free_blocks-Freed [] ok s s' e =
      let same : s' ≡ s = ground arith in
      record { only = ground arith; bitmap_ok = λ v. rw same v; all_freed = λ _ q. rw same }
  free_blocks-Freed (b ∷ bs) ok s s' e = elim (Bool-cases (b == 0)) [
    | inl end ↦
        let same : s' ≡ s = ground arith in
        record {
          only = ground arith;
          bitmap_ok = λ v. rw same v;
          all_freed = λ _ q. rw (same, end);
        }
    | inr more ↦
        let zeros : Block = replicate block_size 0 in
        let w = (d.block_write (int32 b) zeros s.world).1 in
        elim (Bool-cases (d.block_write (int32 b) zeros s.world).0) [
          | inr bad ↦
              let same : s' ≡ record s { world = w } = ground arith in
              record {
                only = ground arith;
                bitmap_ok = λ v. rw same v;
                all_freed = λ t. absurd (ground arith);
              }
          | inl good ↦ elim (Outcome-cases (write_used_blocks_bit (int32 b) false s.bitmap)) [
            | inl f ↦ absurd (ground arith)
            | inr (bitmap, took) ↦
                let rest =
                  free_blocks-Freed bs ok (record s { world = w; bitmap = bitmap }) s'
                    (ground arith) in
                record {
                  only = ground (arith, rest.only);
                  bitmap_ok = λ v.
                      rest.bitmap_ok
                        (IsBitmap-write_used_blocks_bit (int32 b) false s.bitmap v took);
                  all_freed =
                      λ t q. ground (arith, rest.all_freed t q, used-write_int32 b s.bitmap q took);
                }
          ]
        ]
  ]

  -- The call got to its end.
  pub record Deleted (stack : Block) (name : FileName) (s s' : FileSystem W) : Type 0 where
    pub dir : ℕ
    pub entry : DirEntry
    pub inode : Inode
    pub array : Block
    pub w1 : W
    pub found : find_directory false name s.directory ≡ some dir
    pub at_dir : get_elem? s.directory dir ≡ some entry
    pub closed : is_open entry.inode_num s.fds ≡ false
    pub at_inode : get_elem? s.inodes entry.inode_num ≡ some inode
    pub got : d.block_read (pos inode.single_indirect_block) stack s.world ≡ (true, array, w1)
    pub bitmap_ok : IsBitmap s.bitmap → IsBitmap s'.bitmap
    pub all_freed :
        (q : ℕ)
        → used s'.bitmap q ≡ (
            if inode.single_indirect_block == q
            then false
            else if freed q (decode_table 4 decode_u32 256 array)
            then false
            else used s.bitmap q)
    pub new : s' ≡ record s {
      world = s'.world;
      bitmap = s'.bitmap;
      inodes = set s.inodes entry.inode_num no_inode;
      directory =
          set s.directory dir
            (record { is_used = false; inode_num = 0; name = overlay (replicate 15 0) entry.name });
    }

  -- The tables stay as they are.
  pub record OnlyDisk (s s' : FileSystem W) : Type 0 where
    pub only : s' ≡ record s { world = s'.world; bitmap = s'.bitmap }
    pub bitmap_ok : IsBitmap s.bitmap → IsBitmap s'.bitmap

  free_file-some :
      (i dir : ℕ) (n : Inode) (e : DirEntry) (s : FileSystem W) {r : ℕ} {s' : FileSystem W}
      → get_elem? s.inodes i ≡ some n
      → get_elem? s.directory dir ≡ some e
      → free_file d i dir s ≡ done (some r, s')
      → (bitmap : List ℕ) × (w : W) × (write_used_blocks_bit
            (pos n.single_indirect_block)
            false
            s.bitmap
          ≡ done bitmap)
        × (s' ≡ record s {
          world = w;
          bitmap = bitmap;
          inodes = set s.inodes i no_inode;
          directory =
              set s.directory dir
                (record { is_used = false; inode_num = 0; name = overlay (replicate 15 0) e.name });
        })
  unfolding free_file
  free_file-some i dir n e s {r} {s'} at at' h =
      let loc = pos n.single_indirect_block in
      elim (Outcome-cases (write_used_blocks_bit loc false s.bitmap)) [
        | inl f ↦ absurd (ground arith)
        | inr (bitmap, took) ↦
            (bitmap, (d.block_write loc (replicate block_size 0) s.world).1, took, ground arith)
      ]

  free_file-none :
      (i dir : ℕ) (s : FileSystem W) {s' : FileSystem W}
      → free_file d i dir s ≡ done (none, s')
      → s' ≡ record s { world = s'.world }
  unfolding free_file
  free_file-none i dir s h = elim (Option-cases (get_elem? s.inodes i)) [
    | inl n ↦ absurd (ground arith)
    | inr (n, at) ↦
        elim (Outcome-cases (write_used_blocks_bit (pos n.single_indirect_block) false s.bitmap)) [
          | inl f ↦ ground arith
          | inr (bitmap, took) ↦ ground arith
        ]
  ]

  pub fs_delete-some :
      (stack : Block) (name : FileName) (s : FileSystem W) {r : ℕ} {s' : FileSystem W}
      → fs_delete d stack name s ≡ done (some r, s')
      → Deleted stack name s s'
  unfolding fs_delete
  fs_delete-some stack name s {r} {s'} h =
      elim (Option-cases (find_directory false name s.directory)) [
        | inl n ↦ absurd (ground arith)
        | inr (dir, found) ↦ elim (Option-cases (get_elem? s.directory dir)) [
          | inl n ↦ absurd (ground arith)
          | inr (entry, at_dir) ↦ elim (Option-cases (get_elem? s.inodes entry.inode_num)) [
            | inl n ↦ absurd (ground arith)
            | inr (inode, at_inode) ↦
                let loc = pos inode.single_indirect_block in
                let array = (d.block_read loc stack s.world).1 in
                let w1 = (d.block_read loc stack s.world).2 in
                let numbers = decode_table 4 decode_u32 256 array in
                let s1 : FileSystem W = record s { world = w1 } in
                elim (Outcome-cases (free_blocks d numbers s1)) [
                  | inl f ↦ absurd (ground arith)
                  | inr ((ok, s2), freeing) ↦
                      let free = free_blocks-Freed numbers ok s1 s2 freeing in
                      let ok_true : ok ≡ true = ground arith in
                      let (bitmap, w, took, new) =
                        free_file-some entry.inode_num dir inode entry s2 {r = r} {s' = s'}
                          (rw (ap (λ (t : FileSystem W). t.inodes) free.only) at_inode)
                          (rw (ap (λ (t : FileSystem W). t.directory) free.only) at_dir)
                          (ground arith) in
                      let same_bitmap : s'.bitmap ≡ bitmap =
                        ap (λ (t : FileSystem W). t.bitmap) new in
                      record {
                        dir = dir;
                        entry = entry;
                        inode = inode;
                        array = array;
                        w1 = w1;
                        found = found;
                        at_dir = at_dir;
                        closed = ground arith;
                        at_inode = at_inode;
                        got = ground arith;
                        bitmap_ok = λ v. rw same_bitmap (
                            IsBitmap-write_used_blocks_bit loc false s2.bitmap (free.bitmap_ok v)
                              took);
                        all_freed = λ q. ground (
                          arith,
                          free.all_freed ok_true q,
                          used-write_used_blocks_bit inode.single_indirect_block false s2.bitmap q
                              took,
                          ap (λ (b : List ℕ). used b q) same_bitmap,
                        );
                        new = ground (arith, free.only);
                      }
                ]
          ]
        ]
      ]

  pub fs_delete-none :
      (stack : Block) (name : FileName) (s : FileSystem W) {s' : FileSystem W}
      → fs_delete d stack name s ≡ done (none, s')
      → OnlyDisk s s'
  unfolding fs_delete
  fs_delete-none stack name s {s'} h = elim (Option-cases (find_directory false name s.directory)) [
    | inl n ↦ unchanged (ground arith)
    | inr (dir, found) ↦ elim (Option-cases (get_elem? s.directory dir)) [
      | inl n ↦ unchanged (ground arith)
      | inr (entry, at_dir) ↦ elim (Option-cases (get_elem? s.inodes entry.inode_num)) [
        | inl n ↦ unchanged (ground arith)
        | inr (inode, at_inode) ↦
            let loc = pos inode.single_indirect_block in
            let w1 = (d.block_read loc stack s.world).2 in
            let numbers = decode_table 4 decode_u32 256 (d.block_read loc stack s.world).1 in
            let s1 : FileSystem W = record s { world = w1 } in
            elim (Outcome-cases (free_blocks d numbers s1)) [
              | inl f ↦ unchanged (ground arith)
              | inr ((ok, s2), freeing) ↦
                  let free = free_blocks-Freed numbers ok s1 s2 freeing in
                  elim (Bool-cases s.ready) [
                    | inr unmounted ↦ unchanged (ground arith)
                    | inl ready ↦ elim (Bool-cases (is_open entry.inode_num s.fds)) [
                      | inl busy ↦ unchanged (ground arith)
                      | inr closed ↦ elim (Bool-cases (d.block_read loc stack s.world).0) [
                        | inr bad ↦ unchanged (ground arith)
                        | inl good ↦
                            let same : s' ≡ record s2 { world = s'.world } = elim (Bool-cases ok) [
                              | inr stopped ↦ ground arith
                              | inl all ↦
                                  free_file-none entry.inode_num dir s2 {s' = s'} (ground arith)
                            ] in
                            let bits : s'.bitmap ≡ s2.bitmap =
                              ap (λ (t : FileSystem W). t.bitmap) same in
                            record {
                              only = ground (arith, free.only);
                              bitmap_ok = λ v. rw bits (free.bitmap_ok v);
                            }
                      ]
                    ]
                  ]
            ]
      ]
    ]
  ]
    where
      unchanged : s' ≡ record s { world = s'.world } → OnlyDisk s s'
      unchanged same =
          let bits : s'.bitmap ≡ s.bitmap = ap (λ (t : FileSystem W). t.bitmap) same in
          record { only = ground arith; bitmap_ok = λ v. rw bits v }
