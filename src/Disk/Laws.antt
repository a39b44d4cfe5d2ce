-- ===== src/Disk/Laws.antt =====
-- Challenge5/disk.c implements the device of `Device`, over a host that keeps its promises.
use operating_system_challen.Base.{
  tabulate, tabulate-eq, tabulate-get_or, length-tabulate, ℕ, ◌+◌, ◌-◌, ◌*◌, ◌≤◌, ◌<◌, ◌≡◌, refl,
  sym, ap, ◌∙◌, ◌≢◌, ◌&&◌, true, some, List, arith, leb, ltb, if◌then◌else◌, inl, inr, Option-cases,
  length, get_or, drop-length, ℤ, pos, negsuc,
}
use mathlib.Core.List.{append-nil}
use operating_system_challen.Device.{Block, FileName, SameDisks, IsDevice}
use operating_system_challen.Fs.Layout.{overlay}
use operating_system_challen.Disk.Posix.{Host, HostView, IsHost}
use operating_system_challen.Disk.{DiskState, block_write, block_read, disk_device}
use operating_system_challen.Disk.Blocks.{
  current, disk_view, current-some, some-current, is_disk-of_le, SameFiles-disks,
}
use operating_system_challen.Disk.Creation.{make_disk_ok, open_disk_ok, close_disk_ok}

module _ {H : Type 0} (h : Host H) (v : HostView H) (posix : IsHost h v) where
  -- A completed `block_write`: the block, the state of the host between the calls and behind them.
  write_inv :
      (i : ℤ) (b : Block) (s s' : DiskState H)
      → block_write h i b s ≡ (true, s')
      → (k : ℕ) × (i ≡ pos k)
        × (k < 8192)
        × (g : H) × (h.lseek s.handle (k * 4096) s.host ≡ (true, g))
        × (h.write s.handle b g ≡ (true, s'.host))
        × (s' ≡ record s { host = s'.host })
  unfolding block_write
  write_inv (negsuc k) b s s' e = absurd (ground arith)
  write_inv (pos k) b s s' e = (
    k,
    refl,
    ground arith,
    (h.lseek s.handle (k * 4096) s.host).1,
    ground arith,
    ground arith,
    ground arith,
  )

  read_inv :
      (i : ℤ) (buf buf' : Block) (s s' : DiskState H)
      → block_read h i buf s ≡ (true, buf', s')
      → (k : ℕ) × (i ≡ pos k)
        × (k < 8192)
        × (g : H) × (bytes : List ℕ) × (h.lseek s.handle (k * 4096) s.host ≡ (true, g))
        × (h.read s.handle g ≡ (some bytes, s'.host))
        × (buf' ≡ overlay bytes buf)
        × (s' ≡ record s { host = s'.host })
  unfolding block_read
  read_inv (negsuc k) buf buf' s s' e = absurd (ground arith)
  read_inv (pos k) buf buf' s s' e =
      let g = (h.lseek s.handle (k * 4096) s.host).1 in
      elim (Option-cases (h.read s.handle g).0) [
        | inl f ↦ absurd (ground arith)
        | inr (bytes, got) ↦ (
          k,
          refl,
          ground arith,
          g,
          bytes,
          ground arith,
          ground arith,
          ground arith,
          ground arith,
        )
      ]

  -- The bytes of a block behind a write of block `k`.
  block-write :
      (n : FileName) (f k j : ℕ) (b : Block) (g g' : H)
      → v.file g f ≡ some n
      → v.position g f ≡ k * 4096
      → length b ≡ 4096
      → h.write f b g ≡ (true, g')
      → (j ≡ k → tabulate (v.byte g' n) (j * 4096) 4096 ≡ b)
        × (j ≢ k → tabulate (v.byte g' n) (j * 4096) 4096 ≡ tabulate (v.byte g n) (j * 4096) 4096)
  block-write n f k j b g g' file at size e =
      let w = posix.write_ok f n b g g' file e in
      (
        λ same.
            tabulate-get_or b (v.byte g' n) (j * 4096) 4096 size
              (λ i low. inside i (w.3 (j * 4096 + i)) same low),
        λ other.
            tabulate-eq (v.byte g' n) (v.byte g n) (j * 4096) 4096
              (λ i lo hi. outside i (w.3 i) other lo hi),
      )
    where
      inside :
          (i : ℕ)
          → v.byte g' n (j * 4096 + i) ≡ (
              if leb (v.position g f) (j * 4096 + i)
                && ltb (j * 4096 + i) (v.position g f + length b)
              then get_or b (j * 4096 + i - v.position g f) 0
              else v.byte g n (j * 4096 + i))
          → j ≡ k
          → i < 4096
          → v.byte g' n (j * 4096 + i) ≡ get_or b i 0
      inside i w same low =
          let back : j * 4096 + i - v.position g f ≡ i = omega arith in
          w ∙ ground (arith, ap (λ (t : ℕ). get_or b t 0) back)

      outside :
          (i : ℕ)
          → v.byte g' n i ≡ (
              if leb (v.position g f) i && ltb i (v.position g f + length b)
              then get_or b (i - v.position g f) 0
              else v.byte g n i)
          → j ≢ k
          → j * 4096 ≤ i
          → i < j * 4096 + 4096
          → v.byte g' n i ≡ v.byte g n i
      outside i w other lo hi = w ∙ ground arith

  block_write_ok :
      (n : FileName) (i : ℤ) (b : Block) (s s' : DiskState H)
      → current h v s ≡ some n
      → length b ≡ 4096
      → block_write h i b s ≡ (true, s')
      → (k : ℕ) × (i ≡ pos k)
        × (k < 8192)
        × (current h v s' ≡ some n)
        × (tabulate (v.byte s'.host n) (k * 4096) 4096 ≡ b)
        × ((j : ℕ)
            → j ≢ k
            → tabulate (v.byte s'.host n) (j * 4096) 4096
              ≡ tabulate (v.byte s.host n) (j * 4096) 4096)
  block_write_ok n i b s s' cur size e =
      let (k, at, lt, g, sought, wrote, new) = write_inv i b s s' e in
      let (active, file, full) = current-some h v s n cur in
      let (there, kept, same) = posix.lseek_ok s.handle (k * 4096) s.host g sought in
      let w = posix.write_ok s.handle n b g s'.host (kept ∙ file) wrote in
      let moved =
        λ (j : ℕ). block-write n s.handle k j b g s'.host (kept ∙ file) there size wrote in
      (
        k,
        at,
        lt,
        some-current h v s' n (ap (λ (t : DiskState H). t.active) new ∙ active)
            (ap (v.file s'.host) (ap (λ (t : DiskState H). t.handle) new) ∙ w.0)
            (size_kept k n s'.host g w.2 (same.same_size n) full),
        (moved k).0 refl,
        λ j ne. (moved j).1 ne ∙ tabulate-eq _ _ (j * 4096) 4096 (λ x lo hi. same.same_byte n x),
      )
    where
      size_kept :
          (k : ℕ) (n : FileName) (g' g : H)
          → v.size g' n ≡ (
              if leb (v.position g s.handle + length b) (v.size g n)
              then v.size g n
              else v.position g s.handle + length b)
          → v.size g n ≡ v.size s.host n
          → 8192 * 4096 ≤ v.size s.host n
          → 8192 * 4096 ≤ v.size g' n
      size_kept k n g' g w same full = ground arith

  overlay-full : (bytes buf : List ℕ) → length bytes ≡ length buf → overlay bytes buf ≡ bytes
  unfolding overlay
  overlay-full bytes buf e = rw (e, drop-length buf) (append-nil bytes)

  block_read_ok :
      (n : FileName) (i : ℤ) (buf buf' : Block) (s s' : DiskState H)
      → current h v s ≡ some n
      → length buf ≡ 4096
      → block_read h i buf s ≡ (true, buf', s')
      → (k : ℕ) × (i ≡ pos k)
        × (k < 8192)
        × (current h v s' ≡ some n)
        × (buf' ≡ tabulate (v.byte s.host n) (k * 4096) 4096)
        × SameDisks (disk_view h v) s s'
  block_read_ok n i buf buf' s s' cur size e =
      let (k, at, lt, g, bytes, sought, got, filled, new) = read_inv i buf buf' s s' e in
      let (active, file, full) = current-some h v s n cur in
      let (there, kept, same) = posix.lseek_ok s.handle (k * 4096) s.host g sought in
      let r =
        posix.read_ok s.handle n bytes g s'.host (kept ∙ file) got
          (omega (arith, there, same.same_size n, full, lt)) in
      let all : bytes ≡ tabulate (v.byte s.host n) (k * 4096) 4096 =
        r.1
        ∙ (ap (λ (p : ℕ). tabulate (v.byte g n) p 4096) there
            ∙ tabulate-eq _ _ (k * 4096) 4096 (λ x lo hi. same.same_byte n x)) in
      (
        k,
        at,
        lt,
        some-current h v s' n (ap (λ (t : DiskState H). t.active) new ∙ active)
            (ap (v.file s'.host) (ap (λ (t : DiskState H). t.handle) new) ∙ r.0)
            (omega (arith, r.2.same_size n, same.same_size n, full)),
        filled
            ∙ (overlay-full bytes buf
                  (ap length all ∙ (length-tabulate (v.byte s.host n) (k * 4096) 4096 ∙ sym size))
                ∙ all),
        SameFiles-disks h v s s' (record {
          same_size = λ m. r.2.same_size m ∙ same.same_size m;
          same_byte = λ m x. r.2.same_byte m x ∙ same.same_byte m x;
        }),
      )

  -- disk.c keeps the laws of a device over every host that keeps those of `IsHost`: a block that
  -- is written is read back, no other block changes, a block number out of range is refused, a
  -- new disk is blank, and a disk that is closed and opened again is as it was.
  pub disk_device-IsDevice : IsDevice (disk_device h) (disk_view h v)
  disk_device-IsDevice = record {
    current_is_disk = λ n s cur. is_disk-of_le h v n s (current-some h v s n cur).2;
    block_length = λ s n i. length-tabulate (v.byte s.host n) (i * 4096) 4096;
    make_ok = make_disk_ok h v posix;
    open_ok = open_disk_ok h v posix;
    close_ok = close_disk_ok h v posix;
    write_ok = block_write_ok;
    read_ok = block_read_ok;
  }
