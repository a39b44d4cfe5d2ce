-- ===== src/Fs/Io/RoundTrip.antt =====
-- Challenge5/fs.c: bytes that `fs_write` writes are the bytes that `fs_read` reads back.
use operating_system_challen.Base.{
  ℕ, ◌+◌, ◌^◌, ◌≤◌, ◌<◌, ◌≡◌, refl, sym, ap, ◌∙◌, ◌≢◌, inl, inr, true, some, List, ◌++◌, arith,
  length, length-append, length-take, length-drop, take, drop, take-append, drop-append, get_elem?,
  get_elem?-lt, get_elem?-set_self, set, done, ℤ, pos,
}
use operating_system_challen.Device.{
  Block, FileName, Device, View, IsDevice, read_pos, read_int32, write_int32,
}
use operating_system_challen.Fs.Types.{Inode, FileDescriptor, FileSystem, u16, block_size}
use operating_system_challen.Fs.Files.{fd_index}
use operating_system_challen.Fs.Io.{
  fs_read, fs_write, fs_lseek, write_at, block_numbers, block_index, rem_offset,
}
use operating_system_challen.Fs.Io.Inversion.{IsOpen, fs_lseek-some}
use operating_system_challen.Fs.Io.Transfer.{Fetched}
use operating_system_challen.Fs.Io.Writing.{fs_write-some}
use operating_system_challen.Fs.Io.Reading.{ReadNothing, fs_read-some}

take-write_at :
    (rem : ℕ) (bytes block : List ℕ)
    → rem ≤ length block
    → take (length bytes) (drop rem (write_at rem bytes block)) ≡ bytes
unfolding write_at
take-write_at rem bytes block h =
    rw
      (drop-append (take rem block) (bytes ++ drop (rem + length bytes) block) rem
        (sym (length-take rem block h)))
      (take-append bytes _ (length bytes) refl)

length-write_at :
    (rem : ℕ) (bytes block : List ℕ)
    → rem + length bytes ≤ length block
    → length (write_at rem bytes block) ≡ length block
unfolding write_at
length-write_at rem bytes block h = omega (
  arith,
  length-append {0} (take rem block) (bytes ++ drop (rem + length bytes) block),
  length-append {0} bytes (drop (rem + length bytes) block),
  length-take {0} rem block (omega arith),
  length-drop {0} (rem + length bytes) block,
)

rem_offset-lt : (offset : ℕ) → rem_offset offset < 4096
rem_offset-lt offset = omega arith

module _ {W : Type 0} where
  IsOpen-unique :
      {s : FileSystem W} {fildes : ℤ} {f f' : FileDescriptor} {n n' : Inode}
      → IsOpen s fildes f n
      → IsOpen s fildes f' n'
      → (f ≡ f') × (n ≡ n')
  IsOpen-unique {s} {f} {f'} o o' =
      let same : f ≡ f' = ground arith in
      (same, ground (arith, ap (λ (t : FileDescriptor). get_elem? s.inodes t.inode_num) same))

  -- Both tables are written at the descriptor and its inode.
  IsOpen-set :
      (s s' : FileSystem W) (fildes : ℤ) (f : FileDescriptor) (n : Inode) (offset size : ℕ)
      → IsOpen s fildes f n
      → s'.fds ≡ set s.fds (fd_index fildes) (record f { offset = offset })
      → s'.inodes ≡ set s.inodes f.inode_num (record n { file_size = size })
      → IsOpen s' fildes (record f { offset = offset }) (record n { file_size = size })
  IsOpen-set s s' fildes f n offset size o fds inodes = record {
    in_array = o.in_array;
    fd = rw fds (get_elem?-set_self s.fds _ _ (get_elem?-lt s.fds _ f o.fd));
    used = o.used;
    inode = rw inodes (get_elem?-set_self s.inodes _ _ (get_elem?-lt s.inodes _ n o.inode));
  }

module _ {W : Type 0} (d : Device W) (v : View W) (laws : IsDevice d v) (name : FileName)
    (array_buf block_buf : Block) (array_size : length array_buf ≡ 4096)
    (block_size_ok : length block_buf ≡ 4096) where
  -- Block `b` of the disk stands at an offset of the file with inode `n`.
  abbrev pub BlockAt : W → Inode → ℕ → ℕ → Type 0
  BlockAt w n offset b =
      get_elem? (block_numbers (v.block w name n.single_indirect_block)) (block_index offset)
      ≡ some b

  -- What the two reads of a transfer have fetched.
  Fetched-block :
      {fildes : ℤ} {s : FileSystem W} {f : FileDescriptor} {n : Inode} {b b' : ℕ}
      {array block : Block} {w1 w2 : W}
      → Fetched d array_buf block_buf fildes s f n b array block w1 w2
      → v.current s.world ≡ some name
      → BlockAt s.world n f.offset b'
      → (b ≡ b')
        × (block ≡ v.block s.world name b)
        × (v.current w2 ≡ some name)
        × ((k : ℕ) → v.block w2 name k ≡ v.block s.world name k)
  Fetched-block {s} {f} {n} {b} {b'} {array} {block} {w1} {w2} t cur at =
      let (_, cur1, arr, same1) =
        read_pos d v laws name n.single_indirect_block array_buf array s.world w1 cur array_size
          t.got_array in
      let (_, cur2, blk, same2) =
        read_int32 d v laws name b block_buf block w1 w2 cur1 block_size_ok t.got_block in
      (
        cc (
          t.number,
          at,
          ap (λ (a : Block). get_elem? (block_numbers a) (block_index f.offset)) arr,
        ),
        blk ∙ same1.same_block name b,
        cur2,
        λ k. same2.same_block name k ∙ same1.same_block name k,
      )

  -- `fs_write` that returns a number has replaced the bytes at the offset in the block of the
  -- offset, and no other block; it moved the offset, and added the number to the size modulo 2^16.
  pub fs_write-block :
      (fildes : ℤ) (bytes : List ℕ) (s s' : FileSystem W) (r : ℕ) (f : FileDescriptor) (n : Inode)
      (b : ℕ)
      → IsOpen s fildes f n
      → v.current s.world ≡ some name
      → BlockAt s.world n f.offset b
      → fs_write d array_buf block_buf fildes bytes s ≡ done (some r, s')
      → (r ≡ length bytes)
        × (v.current s'.world ≡ some name)
        × (v.block s'.world name b ≡ write_at (rem_offset f.offset) bytes (v.block s.world name b))
        × ((k : ℕ) → k ≢ b → v.block s'.world name k ≡ v.block s.world name k)
        × (rem_offset f.offset + length bytes ≤ block_size)
        × (s'.fds ≡ set s.fds (fd_index fildes) (record f { offset = f.offset + length bytes }))
        × (s'.inodes
            ≡ set s.inodes f.inode_num (record n { file_size = u16 (n.file_size + length bytes) }))
        × (s'.directory ≡ s.directory)
        × (s'.bitmap ≡ s.bitmap)
        × (s'.ready ≡ true)
  fs_write-block fildes bytes s s' r f n b open_ok cur at e =
      let (w, count) = fs_write-some d array_buf block_buf fildes bytes s {r = r} {s' = s'} e in
      let (same_f, same_n) = IsOpen-unique w.fetched.opened open_ok in
      let at' : BlockAt s.world w.n w.f.offset b = rw (same_f, same_n) at in
      let (same_b, blk, cur2, kept) = Fetched-block w.fetched cur at' in
      let size : length w.block ≡ 4096 = ap length blk ∙ laws.block_length s.world name w.b in
      let (_, cur3, own, other) =
        write_int32 d v laws name w.b (write_at (rem_offset w.f.offset) bytes w.block) w.w2 w.w3
          cur2
          (length-write_at (rem_offset w.f.offset) bytes w.block (omega (arith, w.fits, size))
            ∙ size)
          w.put in
      let world : s'.world ≡ w.w3 = ap (λ (t : FileSystem W). t.world) w.new in
      (
        count,
        rw world cur3,
        rw (world, ← same_b, ← same_f) (own ∙ ap (write_at (rem_offset w.f.offset) bytes) blk),
        λ k ne. rw world (other k (λ e'. ne (e' ∙ same_b)) ∙ kept k),
        rw (← same_f) w.fits,
        rw (← same_f) (ap (λ (t : FileSystem W). t.fds) w.new),
        rw (← same_f, ← same_n) (ap (λ (t : FileSystem W). t.inodes) w.new),
        ap (λ (t : FileSystem W). t.directory) w.new,
        ap (λ (t : FileSystem W). t.bitmap) w.new,
        ap (λ (t : FileSystem W). t.ready) w.new ∙ w.fetched.ready,
      )

  pub fs_read-block :
      (fildes : ℤ) (nbyte : ℕ) (s s' : FileSystem W) (r : ℕ) (out : List ℕ) (f : FileDescriptor)
      (n : Inode) (b : ℕ)
      → IsOpen s fildes f n
      → v.current s.world ≡ some name
      → BlockAt s.world n f.offset b
      → b ≢ 0
      → f.offset < n.file_size
      → fs_read d array_buf block_buf fildes nbyte s ≡ done (some r, out, s')
      → (r ≡ nbyte)
        × (out ≡ take nbyte (drop (rem_offset f.offset) (v.block s.world name b)))
        × (rem_offset f.offset + nbyte ≤ block_size)
        × ((k : ℕ) → v.block s'.world name k ≡ v.block s.world name k)
  fs_read-block fildes nbyte s s' r out f n b open_ok cur at ne inside e =
      elim (fs_read-some d array_buf block_buf fildes nbyte s {r = r} {out = out} {s' = s'} e) [
        | inl (nothing, zero_count) ↦ absurd (no_reason nothing)
        | inr (t, count) ↦
            let (same_f, same_n) = IsOpen-unique t.fetched.opened open_ok in
            let at' : BlockAt s.world t.n t.f.offset b = rw (same_f, same_n) at in
            let (same_b, blk, cur2, kept) = Fetched-block t.fetched cur at' in
            let world : s'.world ≡ t.w2 = ap (λ (u : FileSystem W). u.world) t.new in
            (
              count,
              rw (← same_b, ← same_f)
                  (t.copied ∙ ap (λ (x : Block). take nbyte (drop (rem_offset t.f.offset) x)) blk),
              rw (← same_f) t.fits,
              λ k. rw world (kept k),
            )
      ]
    where
      no_reason : ReadNothing d fildes out array_buf s s' → ⊥
      no_reason t =
          let (same_f, same_n) = IsOpen-unique t.opened open_ok in
          elim t.why [
            | inl end ↦ omega (
              arith,
              ap (λ (x : FileDescriptor). x.offset) same_f,
              ap (λ (x : Inode). x.file_size) same_n,
            )
            | inr (array, w1, got, number) ↦
                let (_, _, arr, _) =
                  read_pos d v laws name t.n.single_indirect_block array_buf array s.world w1 cur
                    array_size got in
                let at' : BlockAt s.world t.n t.f.offset b = rw (same_f, same_n) at in
                ne (
                  cc (
                    number,
                    at',
                    ap (λ (a : Block). get_elem? (block_numbers a) (block_index t.f.offset)) arr,
                  ))
          ]

  -- Bytes that `fs_write` writes, at least one, are read back: where the write, an `fs_lseek` back to
  -- the offset and an `fs_read` of as many bytes return, the read returns those bytes, if the offset
  -- was not above the size, the block of the offset is neither block 0 nor the block of block
  -- numbers, and the size before plus the number of bytes is below 2^16.
  pub fs_write-fs_read :
      (fildes : ℤ) (bytes : List ℕ) (s s1 s2 s3 : FileSystem W) (r1 r2 r3 : ℕ) (out : List ℕ)
      (f : FileDescriptor) (n : Inode) (b : ℕ)
      → IsOpen s fildes f n
      → v.current s.world ≡ some name
      → BlockAt s.world n f.offset b
      → b ≢ 0
      → b ≢ n.single_indirect_block
      → 0 < length bytes
      → f.offset ≤ n.file_size
      → n.file_size + length bytes < 2 ^ 16
      → fs_write d array_buf block_buf fildes bytes s ≡ done (some r1, s1)
      → fs_lseek fildes (pos f.offset) s1 ≡ done (some r2, s2)
      → fs_read d array_buf block_buf fildes (length bytes) s2 ≡ done (some r3, out, s3)
      → (r3 ≡ length bytes) × (out ≡ bytes)
  fs_write-fs_read fildes bytes s s1 s2 s3 r1 r2 r3 out f n b open_ok cur at nz ns ne le small e1 e2
        e3 =
      let (count1, cur1, own, other, fits, fds1, inodes1, _, _, _) =
        fs_write-block fildes bytes s s1 r1 f n b open_ok cur at e1 in
      let open1 =
        IsOpen-set s s1 fildes f n (f.offset + length bytes) (u16 (n.file_size + length bytes))
          open_ok fds1 inodes1 in
      let (f2, n2, open2, _, k, at_k, _, new) =
        fs_lseek-some fildes (pos f.offset) s1 {r = r2} {s' = s2} e2 in
      let (same_f, same_n) = IsOpen-unique open2 open1 in
      let moved : k ≡ f.offset = ground arith in
      let back : record f2 { offset = k } ≡ record f { offset = f.offset } = ground arith in
      let f3 : FileDescriptor = record f { offset = f.offset } in
      let n3 : Inode = record n { file_size = u16 (n.file_size + length bytes) } in
      let open3 : IsOpen s2 fildes f3 n3 = record {
        in_array = open_ok.in_array;
        fd = rw (ap (λ (t : FileSystem W). t.fds) new) (
            get_elem?-set_self s1.fds (fd_index fildes) _
              (get_elem?-lt s1.fds (fd_index fildes) _ open1.fd)
            ∙ ap some back);
        used = open_ok.used;
        inode = rw (ap (λ (t : FileSystem W). t.inodes) new) open1.inode;
      } in
      let world : s2.world ≡ s1.world = ap (λ (t : FileSystem W). t.world) new in
      let (count3, got, _, _) =
        fs_read-block fildes (length bytes) s2 s3 r3 out f3 n3 b open3 (rw world cur1)
          (rw (world, other n.single_indirect_block (λ e. ns (sym e))) at) nz (omega arith) e3 in
      let size = laws.block_length s.world name b in
      (
        count3,
        got
            ∙ (ap (λ (x : Block). take (length bytes) (drop (rem_offset f.offset) x))
                  (ap (λ (w : W). v.block w name b) world ∙ own)
                ∙ take-write_at (rem_offset f.offset) bytes (v.block s.world name b)
                    (omega (arith, size, rem_offset-lt f.offset))),
      )
