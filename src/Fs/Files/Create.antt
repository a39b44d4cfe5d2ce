-- ===== src/Fs/Files/Create.antt =====
-- Challenge5/fs.c: what a call of `fs_create` that returns has found and changed.
use operating_system_challen.Base.{
  ℕ, ◌≤◌, ◌<◌, ◌≡◌, refl, ◌≢◌, ◌⊎◌, Bool, true, false, Option, none, some, List, arith, ltb, inl,
  inr, ◌==◌, ◌||◌, ap, if◌then◌else◌, Bool-cases, Option-cases, length, done, fault, Outcome-cases,
  pos,
}
use operating_system_challen.Device.{FileName, Device}
use operating_system_challen.Fs.Types.{FileSystem, disk_blocks}
use operating_system_challen.Fs.Bitmap.{find_used_blocks_bit, write_used_blocks_bit}
use operating_system_challen.Fs.Bitmap.Laws.{
  used, FirstFree, find_used_blocks_bit-FirstFree, used-write_used_blocks_bit,
  write_used_blocks_bit-fault,
}
use operating_system_challen.Fs.Tables.{find_inode, find_directory}
use operating_system_challen.Fs.Files.{fs_create, new_file, block_list}

-- The two blocks that `fs_create` marks as used before it checks anything.
pub record Allocated (bitmap bitmap' : List ℕ) (loc block : ℕ) : Type 0 where
  pub between : List ℕ
  pub found_loc : find_used_blocks_bit bitmap ≡ some loc
  pub took_loc : write_used_blocks_bit (pos loc) true bitmap ≡ done between
  pub found_block : find_used_blocks_bit between ≡ some block
  pub took_block : write_used_blocks_bit (pos block) true between ≡ done bitmap'

module _ {W : Type 0} (d : Device W) (behind : List ℕ) (name : FileName) (s : FileSystem W) where
  -- The call got past its checks.
  pub record Created (loc block : ℕ) (bitmap : List ℕ) (r : Option ℕ) (s' : FileSystem W)
      : Type 0 where
    pub inode : ℕ
    pub entry : ℕ
    pub free_inode : find_inode s.inodes ≡ some inode
    pub free_entry : find_directory true name s.directory ≡ some entry
    pub ready : s.ready ≡ true
    pub fits : length name ≤ 15
    pub written : Bool
    pub w : W
    pub put : d.block_write (pos loc) (block_list block behind) s.world ≡ (written, w)
    pub result : r ≡ (if written then some 0 else none)
    pub new :
        s' ≡ record (new_file inode entry loc name (record s { bitmap = bitmap })) { world = w }

  pub record Returned (r : Option ℕ) (s' : FileSystem W) : Type 0 where
    pub loc : ℕ
    pub block : ℕ
    pub bitmap : List ℕ
    pub allocated : Allocated s.bitmap bitmap loc block
    pub outcome : ((r ≡ none) × (s' ≡ record s { bitmap = bitmap })) ⊎ Created loc block bitmap r s'

  pub fs_create-Returned :
      {r : Option ℕ} {s' : FileSystem W} → fs_create d behind name s ≡ done (r, s') → Returned r s'
  unfolding fs_create
  fs_create-Returned {r} {s'} e = elim (Option-cases (find_used_blocks_bit s.bitmap)) [
    | inl full ↦ absurd (ground (arith, write_used_blocks_bit-fault 0 true s.bitmap))
    | inr (loc, found_loc) ↦ elim (Outcome-cases (write_used_blocks_bit (pos loc) true s.bitmap)) [
      | inl f ↦ absurd (ground arith)
      | inr (between, took_loc) ↦ elim (Option-cases (find_used_blocks_bit between)) [
        | inl full ↦ absurd (ground (arith, write_used_blocks_bit-fault 0 true between))
        | inr (block, found_block) ↦
            elim (Outcome-cases (write_used_blocks_bit (pos block) true between)) [
              | inl f ↦ absurd (ground arith)
              | inr (bitmap, took_block) ↦ record {
                loc = loc;
                block = block;
                bitmap = bitmap;
                allocated = record {
                  between = between;
                  found_loc = found_loc;
                  took_loc = took_loc;
                  found_block = found_block;
                  took_block = took_block;
                };
                outcome = elim (Option-cases (find_inode s.inodes)) [
                  | inl n ↦ inl (ground arith, ground arith)
                  | inr (i, free_i) ↦ elim (Option-cases (find_directory true name s.directory)) [
                    | inl n ↦ inl (ground arith, ground arith)
                    | inr (en, free_e) ↦ elim (Bool-cases s.ready) [
                      | inr unmounted ↦ inl (ground arith, ground arith)
                      | inl ready ↦ elim (Bool-cases (ltb 15 (length name))) [
                        | inl long ↦ inl (ground arith, ground arith)
                        | inr short ↦
                            let put = d.block_write (pos loc) (block_list block behind) s.world in
                            inr (record {
                              inode = i;
                              entry = en;
                              free_inode = free_i;
                              free_entry = free_e;
                              ready = ready;
                              fits = ground arith;
                              written = put.0;
                              w = put.1;
                              put = refl;
                              result = ground arith;
                              new = ground arith;
                            })
                      ]
                    ]
                  ]
                ];
              }
            ]
      ]
    ]
  ]

pub two_blocks :
    {bitmap bitmap' : List ℕ} {loc block : ℕ}
    → Allocated bitmap bitmap' loc block
    → (loc < disk_blocks)
      × (block < disk_blocks)
      × (loc < block)
      × (used bitmap loc ≡ false)
      × (used bitmap block ≡ false)
two_blocks {bitmap} {bitmap'} {loc} {block} a =
    let first : FirstFree bitmap 0 disk_blocks (some loc) =
      rw a.found_loc at (find_used_blocks_bit-FirstFree bitmap) in
    let second : FirstFree a.between 0 disk_blocks (some block) =
      rw a.found_block at (find_used_blocks_bit-FirstFree a.between) in
    let marked = used-write_used_blocks_bit loc true bitmap block a.took_loc in
    let free : used bitmap block ≡ false = ground (arith, second.2, marked) in
    let ne : loc ≢ block = λ e. ground (arith, second.2, marked) in
    let not_below : ¬ (block < loc) = λ lt. ground (arith, first.3 block (omega arith) lt) in
    (first.1, second.1, omega arith, first.2, free)

used-Allocated :
    {bitmap bitmap' : List ℕ} {loc block : ℕ} (q : ℕ)
    → Allocated bitmap bitmap' loc block
    → used bitmap' q ≡ (loc == q || (block == q || used bitmap q))
used-Allocated {bitmap} {bitmap'} {loc} {block} q a = ground (
  arith,
  used-write_used_blocks_bit loc true bitmap q a.took_loc,
  used-write_used_blocks_bit block true a.between q a.took_block,
)

bitmap-Created :
    {W : Type 0} (d : Device W) (behind : List ℕ) (name : FileName) (s : FileSystem W)
    {loc block : ℕ} {bitmap : List ℕ} {r : Option ℕ} {s' : FileSystem W}
    → Created d behind name s loc block bitmap r s'
    → s'.bitmap ≡ bitmap
unfolding new_file
bitmap-Created d behind name s c = ap (λ (x : FileSystem _). x.bitmap) c.new

-- Whatever `fs_create` returns, two blocks that were free are marked as used behind it, and no
-- other block changes: a call that is refused leaves them marked.
pub fs_create-blocks :
    {W : Type 0} (d : Device W) (behind : List ℕ) (name : FileName) (s s' : FileSystem W)
    (r : Option ℕ)
    → fs_create d behind name s ≡ done (r, s')
    → (loc : ℕ) × (block : ℕ) × (loc < block)
      × (block < disk_blocks)
      × (used s.bitmap loc ≡ false)
      × (used s.bitmap block ≡ false)
      × ((q : ℕ) → used s'.bitmap q ≡ (loc == q || (block == q || used s.bitmap q)))
fs_create-blocks d behind name s s' r e =
    let t = fs_create-Returned d behind name s {r = r} {s' = s'} e in
    let (_, below, lt, free, free') = two_blocks t.allocated in
    let same : s'.bitmap ≡ t.bitmap = elim t.outcome [
      | inl refused ↦ ap (λ (x : FileSystem _). x.bitmap) refused.1
      | inr c ↦ bitmap-Created d behind name s c
    ] in
    (t.loc, t.block, lt, below, free, free', λ q. rw same (used-Allocated q t.allocated))

-- On a disk with at most one free block `fs_create` leaves the range of a shift: the test of the
-- block number comes after its use.
pub fs_create-fault :
    {W : Type 0} (d : Device W) (behind : List ℕ) (name : FileName) (s : FileSystem W)
    → ((i j : ℕ)
        → i < disk_blocks
        → j < disk_blocks
        → used s.bitmap i ≡ false
        → used s.bitmap j ≡ false
        → i ≡ j)
    → fs_create d behind name s ≡ fault
fs_create-fault d behind name s full = elim (Outcome-cases (fs_create d behind name s)) [
  | inl f ↦ f
  | inr ((r, s'), e) ↦
      let (loc, block, lt, below, free, free', _) = fs_create-blocks d behind name s s' r e in
      absurd (omega (arith, full loc block (omega arith) below free free'))
]
