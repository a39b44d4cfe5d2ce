-- ===== src/Device.antt =====
-- The interface of Challenge5/disk.h, as Challenge5/fs.c uses it: `Disk` implements it by the
-- functions of Challenge5/disk.c.
use operating_system_challen.Base.{
  ℕ, ◌<◌, ◌≡◌, ◌≢◌, Bool, true, Option, none, some, List, ℤ, pos, int32, arith, length, replicate,
}

-- The contents of a block, or of a buffer of BLOCK_SIZE bytes.
abbrev pub Block : Type 0
Block = List ℕ

abbrev pub FileName : Type 0
FileName = List ℕ

-- `true` is the return value 0, `false` is -1. `block_read` is given what the buffer holds, and
-- returns what it holds afterwards.
pub record Device (W : Type 0) : Type 0 where
  pub make_disk : FileName → W → Bool × W
  pub open_disk : FileName → W → Bool × W
  pub close_disk : W → Bool × W
  pub block_write : ℤ → Block → W → Bool × W
  pub block_read : ℤ → Block → W → Bool × Block × W

-- What a client sees of the world behind a device: the name of the open disk, which files are
-- disks of full size, and the blocks of each disk.
pub record View (W : Type 0) : Type 0 where
  pub current : W → Option FileName
  pub is_disk : W → FileName → Bool
  pub block : W → FileName → ℕ → Block

-- A call changed no block and no size.
pub record SameDisks {W : Type 0} (v : View W) (w w' : W) : Type 0 where
  pub same_size : (m : FileName) → v.is_disk w' m ≡ v.is_disk w m
  pub same_block : (m : FileName) (i : ℕ) → v.block w' m i ≡ v.block w m i

-- The laws of a device: calls that succeed, seen through a view.
pub record IsDevice {W : Type 0} (d : Device W) (v : View W) : Type 0 where
  pub current_is_disk : (n : FileName) (w : W) → v.current w ≡ some n → v.is_disk w n ≡ true
  pub block_length : (w : W) (n : FileName) (i : ℕ) → length (v.block w n i) ≡ 4096
  pub make_ok :
      (n : FileName) (w w' : W)
      → d.make_disk n w ≡ (true, w')
      → (v.is_disk w' n ≡ true) × ((i : ℕ) → i < 8192 → v.block w' n i ≡ replicate 4096 0)
  pub open_ok :
      (n : FileName) (w w' : W)
      → v.is_disk w n ≡ true
      → d.open_disk n w ≡ (true, w')
      → (v.current w' ≡ some n) × SameDisks v w w'
  pub close_ok : (w w' : W) → d.close_disk w ≡ (true, w') → (v.current w' ≡ none) × SameDisks v w w'
  -- A block number that is accepted is one of the disk.
  pub write_ok :
      (n : FileName) (i : ℤ) (b : Block) (w w' : W)
      → v.current w ≡ some n
      → length b ≡ 4096
      → d.block_write i b w ≡ (true, w')
      → (k : ℕ) × (i ≡ pos k)
        × (k < 8192)
        × (v.current w' ≡ some n)
        × (v.block w' n k ≡ b)
        × ((j : ℕ) → j ≢ k → v.block w' n j ≡ v.block w n j)
  pub read_ok :
      (n : FileName) (i : ℤ) (buf buf' : Block) (w w' : W)
      → v.current w ≡ some n
      → length buf ≡ 4096
      → d.block_read i buf w ≡ (true, buf', w')
      → (k : ℕ) × (i ≡ pos k)
        × (k < 8192)
        × (v.current w' ≡ some n)
        × (buf' ≡ v.block w n k)
        × SameDisks v w w'

pos_injective : (a b : ℕ) → pos a ≡ pos b → a ≡ b
pos_injective a b h = ground arith

int32-pos : (x k : ℕ) → int32 x ≡ pos k → x ≡ k
int32-pos x k h = ground arith

-- The laws at a block number that is known.
module _ {W : Type 0} (d : Device W) (v : View W) (laws : IsDevice d v) where
  pub write_pos :
      (n : FileName) (k : ℕ) (b : Block) (w w' : W)
      → v.current w ≡ some n
      → length b ≡ 4096
      → d.block_write (pos k) b w ≡ (true, w')
      → (k < 8192)
        × (v.current w' ≡ some n)
        × (v.block w' n k ≡ b)
        × ((j : ℕ) → j ≢ k → v.block w' n j ≡ v.block w n j)
  write_pos n k b w w' cur size e =
      let (k', i, lt, cur', own, other) = laws.write_ok n (pos k) b w w' cur size e in
      rw (pos_injective k k' i) (lt, cur', own, other)

  pub read_pos :
      (n : FileName) (k : ℕ) (buf buf' : Block) (w w' : W)
      → v.current w ≡ some n
      → length buf ≡ 4096
      → d.block_read (pos k) buf w ≡ (true, buf', w')
      → (k < 8192) × (v.current w' ≡ some n) × (buf' ≡ v.block w n k) × SameDisks v w w'
  read_pos n k buf buf' w w' cur size e =
      let (k', i, lt, cur', own, same) = laws.read_ok n (pos k) buf buf' w w' cur size e in
      rw (pos_injective k k' i) (lt, cur', own, same)

  -- At a number of 32 bits, as it stands in a block of block numbers.
  pub write_int32 :
      (n : FileName) (x : ℕ) (b : Block) (w w' : W)
      → v.current w ≡ some n
      → length b ≡ 4096
      → d.block_write (int32 x) b w ≡ (true, w')
      → (x < 8192)
        × (v.current w' ≡ some n)
        × (v.block w' n x ≡ b)
        × ((j : ℕ) → j ≢ x → v.block w' n j ≡ v.block w n j)
  write_int32 n x b w w' cur size e =
      let (k, i, lt, cur', own, other) = laws.write_ok n (int32 x) b w w' cur size e in
      rw (int32-pos x k i) (lt, cur', own, other)

  pub read_int32 :
      (n : FileName) (x : ℕ) (buf buf' : Block) (w w' : W)
      → v.current w ≡ some n
      → length buf ≡ 4096
      → d.block_read (int32 x) buf w ≡ (true, buf', w')
      → (x < 8192) × (v.current w' ≡ some n) × (buf' ≡ v.block w n x) × SameDisks v w w'
  read_int32 n x buf buf' w w' cur size e =
      let (k, i, lt, cur', own, same) = laws.read_ok n (int32 x) buf buf' w w' cur size e in
      rw (int32-pos x k i) (lt, cur', own, same)
