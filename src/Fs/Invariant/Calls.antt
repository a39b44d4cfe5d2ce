-- ===== src/Fs/Invariant/Calls.antt =====
-- Challenge5/fs.c: every call that returns keeps the tables of a mounted file system consistent.
use mathlib.Core.Path.{subst}
use operating_system_challen.Base.{
  ℕ, ◌+◌, ◌^◌, ◌<◌, ◌≡◌, sym, ap, ◌∙◌, true, Option, none, some, List, arith, inl, inr, length,
  length-set, set, All-set, All-get, get_elem?, get_elem?-lt, done, ℤ, pos, negsuc,
}
use operating_system_challen.Device.{Block, FileName, Device}
use operating_system_challen.Fs.Types.{Inode, FileDescriptor, FileSystem, u16}
use operating_system_challen.Fs.Bitmap.Laws.{IsBitmap}
use operating_system_challen.Fs.Layout.RoundTrip.{IsInode}
use operating_system_challen.Fs.Tables.{is_named}
use operating_system_challen.Fs.Tables.Laws.{find_directory-old_some, find_fd-some}
use operating_system_challen.Fs.Mount.{no_fd}
use operating_system_challen.Fs.Files.{fs_open, fs_close, fd_index}
use operating_system_challen.Fs.Files.Inversion.{
  opened_fd, fs_open-none, fs_open-some, fs_close-none, fs_close-some,
}
use operating_system_challen.Fs.Io.{fs_lseek, fs_truncate, fs_read, fs_write}
use operating_system_challen.Fs.Io.Inversion.{
  IsOpen, new_size, fs_lseek-none, fs_lseek-some, fs_truncate-none, fs_truncate-some,
}
use operating_system_challen.Fs.Io.Writing.{fs_write-some, fs_write-none}
use operating_system_challen.Fs.Io.Reading.{fs_read-some, fs_read-none}
use operating_system_challen.Fs.Invariant.{inode_used, Inv}
use operating_system_challen.Fs.Invariant.Updates.{set_fd-IsConsistent, set_inode-IsConsistent}

new_size-lt : (size : ℤ) → new_size size < 2 ^ 16
unfolding new_size
new_size-lt (pos n) = omega arith
new_size-lt (negsuc n) = omega arith

-- The inode of an open descriptor is given another size.
resized-IsInode :
    (n : Inode) (size : ℕ) → IsInode n → size < 2 ^ 16 → IsInode (record n { file_size = size })
resized-IsInode n size v h = record { block_u16 = v.block_u16; size_u16 = h }

module _ {W : Type 0} (s : FileSystem W) (v : Inv s) where
  pub Inv-disk :
      (w : W) (bitmap : List ℕ) → IsBitmap bitmap → Inv (record s { world = w; bitmap = bitmap })
  Inv-disk w bitmap ok = record {
    shape = record {
      inode_count = v.shape.inode_count;
      inodes_ok = v.shape.inodes_ok;
      entry_count = v.shape.entry_count;
      entries_ok = v.shape.entries_ok;
      fd_count = v.shape.fd_count;
      bitmap_ok = ok;
      sb_ok = v.shape.sb_ok;
    };
    consistent = v.consistent;
  }

  Inv-set_fd :
      (i : ℕ) (f : FileDescriptor) {old : FileDescriptor}
      → get_elem? s.fds i ≡ some old
      → (f.is_used ≡ true → inode_used s.inodes f.inode_num ≡ true)
      → Inv (record s { fds = set s.fds i f })
  Inv-set_fd i f {old} at ok = record {
    shape = record {
      inode_count = v.shape.inode_count;
      inodes_ok = v.shape.inodes_ok;
      entry_count = v.shape.entry_count;
      entries_ok = v.shape.entries_ok;
      fd_count = length-set s.fds i f ∙ v.shape.fd_count;
      bitmap_ok = v.shape.bitmap_ok;
      sb_ok = v.shape.sb_ok;
    };
    consistent =
        set_fd-IsConsistent s.inodes s.directory s.fds v.consistent i f
          (get_elem?-lt s.fds i old at) ok;
  }

  Inv-set_inode :
      (i : ℕ) (n : Inode) {old : Inode}
      → get_elem? s.inodes i ≡ some old
      → IsInode n
      → n.is_used ≡ true
      → Inv (record s { inodes = set s.inodes i n })
  Inv-set_inode i n {old} at ok used = record {
    shape = record {
      inode_count = length-set s.inodes i n ∙ v.shape.inode_count;
      inodes_ok = All-set IsInode s.inodes i n ok v.shape.inodes_ok;
      entry_count = v.shape.entry_count;
      entries_ok = v.shape.entries_ok;
      fd_count = v.shape.fd_count;
      bitmap_ok = v.shape.bitmap_ok;
      sb_ok = v.shape.sb_ok;
    };
    consistent =
        set_inode-IsConsistent s.inodes s.directory s.fds v.consistent i n
          (get_elem?-lt s.inodes i old at) used;
  }

  -- An inode behind an open descriptor is in use.
  open_inode_used :
      {fildes : ℤ} {f : FileDescriptor} {n : Inode}
      → IsOpen s fildes f n
      → (inode_used s.inodes f.inode_num ≡ true) × (n.is_used ≡ true)
  unfolding inode_used
  open_inode_used {fildes} {f} {n} o =
      let u = v.consistent.fd_inode (fd_index fildes) f o.fd o.used in
      (u, ground (arith, u, o.inode))

module _ {W : Type 0} where
  pub fs_open-Inv :
      (name : FileName) (s s' : FileSystem W) (r : Option ℕ)
      → Inv s
      → fs_open name s ≡ done (r, s')
      → Inv s'
  fs_open-Inv name s s' none v e = subst Inv (sym (fs_open-none name s e)) v
  fs_open-Inv name s s' (some fd) v e =
      let (dir, entry, found, at, free, _, new) = fs_open-some name s e in
      let (entry', at', named, _) = find_directory-old_some name s.directory dir found in
      let same : entry ≡ entry' = ground arith in
      let (old, at_fd, _) = find_fd-some s.fds fd free in
      subst Inv (sym new) (
        Inv-set_fd s v fd (opened_fd entry.inode_num) at_fd
          (λ _. v.consistent.entry_inode dir entry at (ap is_named same ∙ named)))

  pub fs_close-Inv :
      (fildes : ℤ) (s s' : FileSystem W) (r : Option ℕ)
      → Inv s
      → fs_close fildes s ≡ done (r, s')
      → Inv s'
  fs_close-Inv fildes s s' none v e = subst Inv (sym (fs_close-none fildes s e)) v
  fs_close-Inv fildes s s' (some r) v e =
      let (f, _, at, _, _, new) = fs_close-some fildes s e in
      subst Inv (sym new) (Inv-set_fd s v (fd_index fildes) no_fd at (λ u. cc))

  pub fs_lseek-Inv :
      (fildes offset : ℤ) (s s' : FileSystem W) (r : Option ℕ)
      → Inv s
      → fs_lseek fildes offset s ≡ done (r, s')
      → Inv s'
  fs_lseek-Inv fildes offset s s' none v e = subst Inv (sym (fs_lseek-none fildes offset s e)) v
  fs_lseek-Inv fildes offset s s' (some r) v e =
      let (f, n, o, _, k, _, _, new) = fs_lseek-some fildes offset s e in
      subst Inv (sym new) (
        Inv-set_fd s v (fd_index fildes) (record f { offset = k }) o.fd
          (λ _. (open_inode_used s v o).0))

  pub fs_truncate-Inv :
      (fildes size : ℤ) (s s' : FileSystem W) (r : Option ℕ)
      → Inv s
      → fs_truncate fildes size s ≡ done (r, s')
      → Inv s'
  fs_truncate-Inv fildes size s s' none v e = subst Inv (sym (fs_truncate-none fildes size s e)) v
  fs_truncate-Inv fildes size s s' (some r) v e =
      let (f, n, o, new) = fs_truncate-some fildes size s e in
      subst Inv (sym new) (
        Inv-set_inode s v f.inode_num (record n { file_size = new_size size }) o.inode
          (resized-IsInode n (new_size size)
            (All-get IsInode s.inodes f.inode_num n v.shape.inodes_ok o.inode) (new_size-lt size))
          (open_inode_used s v o).1)

  pub fs_write-Inv :
      (d : Device W) (array_buf block_buf : Block) (fildes : ℤ) (bytes : List ℕ)
      (s s' : FileSystem W) (r : Option ℕ)
      → Inv s
      → fs_write d array_buf block_buf fildes bytes s ≡ done (r, s')
      → Inv s'
  fs_write-Inv d array_buf block_buf fildes bytes s s' none v e =
      subst Inv (sym (fs_write-none d array_buf block_buf fildes bytes s e))
        (Inv-disk s v s'.world s.bitmap v.shape.bitmap_ok)
  fs_write-Inv d array_buf block_buf fildes bytes s s' (some r) v e =
      let (w, _) = fs_write-some d array_buf block_buf fildes bytes s e in
      let o = w.fetched.opened in
      let (used, used') = open_inode_used s v o in
      let moved =
        Inv-set_fd s v (fd_index fildes) (record w.f { offset = w.f.offset + length bytes }) o.fd
          (λ _. used) in
      let size = u16 (w.n.file_size + length bytes) in
      let grown =
        Inv-set_inode _ moved w.f.inode_num (record w.n { file_size = size }) o.inode
          (resized-IsInode w.n size
            (All-get IsInode s.inodes w.f.inode_num w.n v.shape.inodes_ok o.inode) (omega arith))
          used' in
      subst Inv (sym w.new) (Inv-disk _ grown w.w3 s.bitmap v.shape.bitmap_ok)

  pub fs_read-Inv :
      (d : Device W) (array_buf block_buf : Block) (fildes : ℤ) (nbyte : ℕ) (out : List ℕ)
      (s s' : FileSystem W) (r : Option ℕ)
      → Inv s
      → fs_read d array_buf block_buf fildes nbyte s ≡ done (r, out, s')
      → Inv s'
  fs_read-Inv d array_buf block_buf fildes nbyte out s s' none v e =
      subst Inv (sym (fs_read-none d array_buf block_buf fildes nbyte s {out = out} e))
        (Inv-disk s v s'.world s.bitmap v.shape.bitmap_ok)
  fs_read-Inv d array_buf block_buf fildes nbyte out s s' (some r) v e =
      elim (fs_read-some d array_buf block_buf fildes nbyte s {out = out} e) [
        | inl (nothing, _) ↦
            subst Inv (sym nothing.only) (Inv-disk s v s'.world s.bitmap v.shape.bitmap_ok)
        | inr (t, _) ↦
            let o = t.fetched.opened in
            let moved =
              Inv-set_fd s v (fd_index fildes) (record t.f { offset = t.f.offset + nbyte }) o.fd
                (λ _. (open_inode_used s v o).0) in
            subst Inv (sym t.new) (Inv-disk _ moved t.w2 s.bitmap v.shape.bitmap_ok)
      ]
