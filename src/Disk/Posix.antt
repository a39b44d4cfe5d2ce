-- ===== src/Disk/Posix.antt =====
-- What Challenge5/disk.c uses of the host: `open`, `close`, `lseek`, `write` and `read` of a file,
-- with what POSIX says of the calls that succeed on a regular file.
use operating_system_challen.Base.{
  tabulate, ℕ, ◌+◌, ◌-◌, ◌≤◌, ◌≡◌, Bool, true, Option, some, List, ◌&&◌, leb, ltb, if◌then◌else◌,
  length, get_or,
}
use operating_system_challen.Device.{FileName}

-- A descriptor is a number. `lseek` is from the start of the file, and `read` is of BLOCK_SIZE
-- bytes at most. `true` and `some` are calls that succeed.
pub record Host (H : Type 0) : Type 0 where
  -- `open(name, O_WRONLY | O_CREAT | O_TRUNC, 0644)`
  pub open_create : FileName → H → Option ℕ × H
  -- `open(name, O_RDWR, 0644)`
  pub open_rdwr : FileName → H → Option ℕ × H
  pub close : ℕ → H → H
  pub lseek : ℕ → ℕ → H → Bool × H
  pub write : ℕ → List ℕ → H → Bool × H
  pub read : ℕ → H → Option (List ℕ) × H

-- What stands behind the calls: the file and position of each open descriptor, and the size and
-- bytes of each file.
pub record HostView (H : Type 0) : Type 0 where
  pub file : H → ℕ → Option FileName
  pub position : H → ℕ → ℕ
  pub size : H → FileName → ℕ
  pub byte : H → FileName → ℕ → ℕ

pub record SameFiles {H : Type 0} (v : HostView H) (g g' : H) : Type 0 where
  pub same_size : (m : FileName) → v.size g' m ≡ v.size g m
  pub same_byte : (m : FileName) (k : ℕ) → v.byte g' m k ≡ v.byte g m k

pub record IsHost {H : Type 0} (h : Host H) (v : HostView H) : Type 0 where
  pub open_create_ok :
      (n : FileName) (f : ℕ) (g g' : H)
      → h.open_create n g ≡ (some f, g')
      → (v.file g' f ≡ some n) × (v.position g' f ≡ 0) × (v.size g' n ≡ 0)
  pub open_rdwr_ok :
      (n : FileName) (f : ℕ) (g g' : H)
      → h.open_rdwr n g ≡ (some f, g')
      → (v.file g' f ≡ some n) × SameFiles v g g'
  pub close_ok : (f : ℕ) (g : H) → SameFiles v g (h.close f g)
  pub lseek_ok :
      (f offset : ℕ) (g g' : H)
      → h.lseek f offset g ≡ (true, g')
      → (v.position g' f ≡ offset) × (v.file g' f ≡ v.file g f) × SameFiles v g g'
  -- A write to a regular file that succeeds writes every byte.
  pub write_ok :
      (f : ℕ) (n : FileName) (bytes : List ℕ) (g g' : H)
      → v.file g f ≡ some n
      → h.write f bytes g ≡ (true, g')
      → (v.file g' f ≡ some n)
        × (v.position g' f ≡ v.position g f + length bytes)
        × (v.size g' n ≡ (
            if leb (v.position g f + length bytes) (v.size g n)
            then v.size g n
            else v.position g f + length bytes))
        × ((k : ℕ)
            → v.byte g' n k ≡ (
                if leb (v.position g f) k && ltb k (v.position g f + length bytes)
                then get_or bytes (k - v.position g f) 0
                else v.byte g n k))
  -- A read of a regular file returns all the bytes that are there.
  pub read_ok :
      (f : ℕ) (n : FileName) (bytes : List ℕ) (g g' : H)
      → v.file g f ≡ some n
      → h.read f g ≡ (some bytes, g')
      → v.position g f + 4096 ≤ v.size g n
      → (v.file g' f ≡ some n)
        × (bytes ≡ tabulate (v.byte g n) (v.position g f) 4096)
        × SameFiles v g g'
