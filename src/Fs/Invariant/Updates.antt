-- ===== src/Fs/Invariant/Updates.antt =====
-- Challenge5/fs.c: the updates of the tables that the functions make keep the tables consistent.
use operating_system_challen.Base.{
  ℕ, ◌<◌, ◌≡◌, ◌≢◌, ◌⊎◌, ◌∙◌, ap, sym, true, false, some, List, arith, ◌==◌, if◌then◌else◌, inl,
  inr, Bool-cases, get_elem?, set, length, get_elem?-set,
}
use operating_system_challen.Fs.Types.{Inode, DirEntry, FileDescriptor}
use operating_system_challen.Fs.Tables.{c_str, is_named}
use operating_system_challen.Fs.Invariant.{inode_used, IsConsistent}

inode_used-set :
    (inodes : List Inode) (i j : ℕ) (n : Inode)
    → i < length inodes
    → inode_used (set inodes i n) j ≡ (if i == j then n.is_used else inode_used inodes j)
unfolding inode_used
inode_used-set inodes i j n h = ground (arith, get_elem?-set inodes i j n h)

module _ (inodes : List Inode) (directory : List DirEntry) (fds : List FileDescriptor)
    (c : IsConsistent inodes directory fds) where
  -- A descriptor is closed, or opened on an inode in use.
  pub set_fd-IsConsistent :
      (i : ℕ) (f : FileDescriptor)
      → i < length fds
      → (f.is_used ≡ true → inode_used inodes f.inode_num ≡ true)
      → IsConsistent inodes directory (set fds i f)
  set_fd-IsConsistent i f h ok = record {
    entry_inode = c.entry_inode;
    one_entry = c.one_entry;
    one_name = c.one_name;
    fd_inode = λ j g at u. elim (Bool-cases (i == j)) [
      | inl same ↦
          let e : g ≡ f = ground (arith, get_elem?-set fds i j f h) in rw e (ok (rw e at u))
      | inr other ↦ c.fd_inode j g (ground (arith, get_elem?-set fds i j f h)) u
    ];
  }

  -- An inode stays in use, or comes into use.
  pub set_inode-IsConsistent :
      (i : ℕ) (n : Inode)
      → i < length inodes
      → n.is_used ≡ true
      → IsConsistent (set inodes i n) directory fds
  set_inode-IsConsistent i n h u = record {
    entry_inode = λ j e at nm.
        ground (arith, inode_used-set inodes i e.inode_num n h, c.entry_inode j e at nm);
    one_entry = c.one_entry;
    one_name = c.one_name;
    fd_inode =
        λ j f at uf. ground (arith, inode_used-set inodes i f.inode_num n h, c.fd_inode j f at uf);
  }

  -- A new file: an inode that was free, and an entry with a name that no entry has.
  pub new_file-IsConsistent :
      (i d : ℕ) (n : Inode) (e : DirEntry)
      → i < length inodes
      → d < length directory
      → inode_used inodes i ≡ false
      → n.is_used ≡ true
      → e.inode_num ≡ i
      → ((k : ℕ) (f : DirEntry)
          → get_elem? directory k ≡ some f
          → is_named f ≡ true
          → c_str f.name ≢ c_str e.name)
      → IsConsistent (set inodes i n) (set directory d e) fds
  new_file-IsConsistent i d n e hi hd unused u num fresh = record {
    entry_inode = λ j f at nm. elim (look j f at) [
      | inl (same, eq) ↦
          ground
            (arith, inode_used-set inodes i f.inode_num n hi, ap (λ (t : DirEntry). t.inode_num) eq)
      | inr (other, at') ↦
          ground (arith, inode_used-set inodes i f.inode_num n hi, c.entry_inode j f at' nm)
    ];
    one_entry = λ j k f g atf atg nf ng same. elim (look j f atf) [
      | inl (dj, ef) ↦ elim (look k g atg) [
        | inl (dk, eg) ↦ sym dj ∙ dk
        | inr (other, at') ↦
            let num' : g.inode_num ≡ i = sym same ∙ (ap (λ (t : DirEntry). t.inode_num) ef ∙ num) in
            absurd (ground (arith, c.entry_inode k g at' ng, ap (inode_used inodes) num'))
      ]
      | inr (other, at) ↦ elim (look k g atg) [
        | inl (dk, eg) ↦
            let num' : f.inode_num ≡ i = same ∙ (ap (λ (t : DirEntry). t.inode_num) eg ∙ num) in
            absurd (ground (arith, c.entry_inode j f at nf, ap (inode_used inodes) num'))
        | inr (other', at') ↦ c.one_entry j k f g at at' nf ng same
      ]
    ];
    one_name = λ j k f g atf atg nf ng same. elim (look j f atf) [
      | inl (dj, ef) ↦ elim (look k g atg) [
        | inl (dk, eg) ↦ sym dj ∙ dk
        | inr (other, at') ↦
            absurd (fresh k g at' ng (sym same ∙ ap (λ (t : DirEntry). c_str t.name) ef))
      ]
      | inr (other, at) ↦ elim (look k g atg) [
        | inl (dk, eg) ↦ absurd (fresh j f at nf (same ∙ ap (λ (t : DirEntry). c_str t.name) eg))
        | inr (other', at') ↦ c.one_name j k f g at at' nf ng same
      ]
    ];
    fd_inode =
        λ j f at uf. ground (arith, inode_used-set inodes i f.inode_num n hi, c.fd_inode j f at uf);
  }
    where
      look :
          (j : ℕ) (f : DirEntry)
          → get_elem? (set directory d e) j ≡ some f
          → ((d ≡ j) × (f ≡ e)) ⊎ ((d ≢ j) × (get_elem? directory j ≡ some f))
      look j f at = elim (Bool-cases (d == j)) [
        | inl same ↦ inl (ground arith, ground (arith, get_elem?-set directory d j e hd))
        | inr other ↦ inr (ground arith, ground (arith, get_elem?-set directory d j e hd))
      ]

  -- A file is deleted: its inode is cleared, and its entry has no name any more.
  pub free_file-IsConsistent :
      (d : ℕ) (n : Inode) (e e' : DirEntry)
      → get_elem? directory d ≡ some e
      → e.inode_num < length inodes
      → d < length directory
      → is_named e ≡ true
      → is_named e' ≡ false
      → ((j : ℕ) (f : FileDescriptor)
          → get_elem? fds j ≡ some f
          → f.is_used ≡ true
          → f.inode_num ≢ e.inode_num)
      → IsConsistent (set inodes e.inode_num n) (set directory d e') fds
  free_file-IsConsistent d n e e' at_d hi hd named gone closed = record {
    entry_inode = λ j f at nm.
        let (ne, at') = look j f at nm in
        let differ : e.inode_num ≢ f.inode_num =
          λ same. ne (c.one_entry d j e f at_d at' named nm same) in
        ground
          (arith, inode_used-set inodes e.inode_num f.inode_num n hi, c.entry_inode j f at' nm);
    one_entry = λ j k f g atf atg nf ng same.
        c.one_entry j k f g (look j f atf nf).1 (look k g atg ng).1 nf ng same;
    one_name = λ j k f g atf atg nf ng same.
        c.one_name j k f g (look j f atf nf).1 (look k g atg ng).1 nf ng same;
    fd_inode = λ j f at uf.
        let differ : f.inode_num ≢ e.inode_num = closed j f at uf in
        ground (arith, inode_used-set inodes e.inode_num f.inode_num n hi, c.fd_inode j f at uf);
  }
    where
      look :
          (j : ℕ) (f : DirEntry)
          → get_elem? (set directory d e') j ≡ some f
          → is_named f ≡ true
          → (d ≢ j) × (get_elem? directory j ≡ some f)
      look j f at nm = elim (Bool-cases (d == j)) [
        | inl same ↦
            let eq : f ≡ e' = ground (arith, get_elem?-set directory d j e' hd) in
            absurd (ground (arith, ap is_named eq))
        | inr other ↦ (ground arith, ground (arith, get_elem?-set directory d j e' hd))
      ]
