-- ===== src/Disk.antt =====
-- Challenge5/disk.c: a disk of DISK_BLOCKS blocks in a file of the host.
pub mod Posix
pub mod Blocks
pub mod Creation
pub mod Laws
use operating_system_challen.Base.{
  ℕ, zero, suc, ◌*◌, Bool, true, false, not, Option, none, some, List, ltb, if◌then◌else◌,
  replicate, ℤ, pos, negsuc,
}
use operating_system_challen.Device.{Block, FileName, Device}
use operating_system_challen.Fs.Layout.{overlay}
use operating_system_challen.Fs.Types.{block_size, disk_blocks}
use Posix.{Host}

-- The static variables of disk.c, and the host.
pub record DiskState (H : Type 0) : Type 0 where
  pub active : Bool
  pub handle : ℕ
  pub host : H

module _ {H : Type 0} (h : Host H) where
  -- The `cnt` writes of `make_disk` that are still to do.
  unfoldable pub write_zeros : (cnt f : ℕ) → H → Bool × H
  write_zeros zero f g = (true, g)
  write_zeros (suc cnt) f g =
      let (written, g') = h.write f (replicate block_size 0) g in
      elim written [ false ↦ (false, g') | true ↦ write_zeros cnt f g' ]

  -- The file stays open when a write fails.
  unfoldable pub make_disk : FileName → DiskState H → Bool × DiskState H
  unfolding write_zeros
  make_disk name s =
      let (opened, g1) = h.open_create name s.host in
      elim opened [
        | none ↦ (false, record s { host = g1 })
        | some f ↦
            let (written, g2) = write_zeros disk_blocks f g1 in
            if not written
            then (false, record s { host = g2 })
            else (true, record s { host = h.close f g2 })
      ]

  unfoldable pub open_disk : FileName → DiskState H → Bool × DiskState H
  open_disk name s =
      let (opened, g) = h.open_rdwr name s.host in
      if s.active then (false, s) else elim opened [
        | none ↦ (false, record s { host = g })
        | some f ↦ (true, record { active = true; handle = f; host = g })
      ]

  unfoldable pub close_disk : DiskState H → Bool × DiskState H
  close_disk s =
      if not s.active
      then (false, s)
      else (true, record { active = false; handle = 0; host = h.close s.handle s.host })

  unfoldable pub block_write : ℤ → Block → DiskState H → Bool × DiskState H
  block_write (negsuc n) buf s = (false, s)
  block_write (pos block) buf s =
      let (sought, g1) = h.lseek s.handle (block * block_size) s.host in
      let (written, g2) = h.write s.handle buf g1 in
      if not s.active
      then (false, s)
      else if not (ltb block disk_blocks)
      then (false, s)
      else if not sought
      then (false, record s { host = g1 })
      else if not written
      then (false, record s { host = g2 })
      else (true, record s { host = g2 })

  unfoldable pub block_read : ℤ → Block → DiskState H → Bool × Block × DiskState H
  unfolding overlay
  block_read (negsuc n) buf s = (false, buf, s)
  block_read (pos block) buf s =
      let (sought, g1) = h.lseek s.handle (block * block_size) s.host in
      let (got, g2) = h.read s.handle g1 in
      if not s.active
      then (false, buf, s)
      else if not (ltb block disk_blocks)
      then (false, buf, s)
      else if not sought
      then (false, buf, record s { host = g1 })
      else elim got [
        | none ↦ (false, buf, record s { host = g2 })
        | some bytes ↦ (true, overlay bytes buf, record s { host = g2 })
      ]

  -- disk.c as the device of fs.c.
  abbrev pub disk_device : Device (DiskState H)
  disk_device = record {
    make_disk = make_disk;
    open_disk = open_disk;
    close_disk = close_disk;
    block_write = block_write;
    block_read = block_read;
  }
