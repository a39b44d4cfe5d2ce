-- ===== src/Fs/Tables/Laws.antt =====
-- Challenge5/fs.c: what the searches of the tables return.
use operating_system_challen.Base.{
  ℕ, zero, suc, ◌+◌, ◌≡◌, refl, ap, sym, ◌∙◌, ◌++◌, All, ◌≢◌, ◌⊎◌, inl, inr, Bool, true, false, not,
  ◌||◌, Option, none, some, List, [], ◌∷◌, arith, if◌then◌else◌, Bool-cases, get_elem?, bytes_eq,
  bytes_eq_refl, bytes_eq→eq, find_index, FirstIndex, find_index-FirstIndex, find_index-some,
}
use native.Mathlib.Nat.{zero-add}
use operating_system_challen.Fs.Types.{Inode, DirEntry, FileDescriptor}
use operating_system_challen.Fs.Tables.{
  find_inode, find_fd, c_str, is_named, matches, find_directory_loop, find_directory,
}

-- Some entry has the name.
unfoldable pub has_name : List ℕ → List DirEntry → Bool
has_name filename [] = false
has_name filename (e ∷ es) = matches filename e || has_name filename es

-- The last entry that has the name.
unfoldable pub last_named : List ℕ → List DirEntry → ℕ → Option ℕ → Option ℕ
last_named filename [] i r = r
last_named filename (e ∷ es) i r =
    last_named filename es (i + 1) (if matches filename e then some i else r)

-- `findInode` returns the first inode that is not in use, and -1 exactly when all are.
pub find_inode-FirstIndex :
    (inodes : List Inode) → FirstIndex (λ n. not n.is_used) inodes 0 (find_inode inodes)
unfolding find_inode
find_inode-FirstIndex inodes = find_index-FirstIndex (λ n. not n.is_used) inodes 0

-- `findFD` returns the first descriptor that is not in use, and -1 exactly when all are.
pub find_fd-FirstIndex :
    (fds : List FileDescriptor) → FirstIndex (λ f. not f.is_used) fds 0 (find_fd fds)
unfolding find_fd
find_fd-FirstIndex fds = find_index-FirstIndex (λ f. not f.is_used) fds 0

lookup_loop :
    (filename : List ℕ) (es : List DirEntry) (i : ℕ) (r : Option ℕ)
    → find_directory_loop false filename es i false r ≡ last_named filename es i r
unfolding find_directory_loop last_named
lookup_loop filename [] i r = refl
lookup_loop filename (e ∷ es) i r =
    ground (arith, lookup_loop filename es (i + 1) (if matches filename e then some i else r))

new_loop_found :
    (filename : List ℕ) (es : List DirEntry) (i k : ℕ)
    → find_directory_loop true filename es i false (some k)
      ≡ (if has_name filename es then none else some k)
unfolding find_directory_loop has_name
new_loop_found filename [] i k = refl
new_loop_found filename (e ∷ es) i k = ground (arith, new_loop_found filename es (i + 1) k)

matches-is_named :
    (filename : List ℕ) (e : DirEntry) → is_named e ≡ false → matches filename e ≡ false
unfolding matches
matches-is_named filename e h = ground arith

new_loop :
    (filename : List ℕ) (es : List DirEntry) (i : ℕ)
    → find_directory_loop true filename es i true none
      ≡ (if has_name filename es then none else find_index (λ e. not (is_named e)) es i)
unfolding find_directory_loop has_name find_index
new_loop filename [] i = refl
new_loop filename (e ∷ es) i = ground (
  arith,
  matches-is_named filename e,
  new_loop filename es (i + 1),
  new_loop_found filename es (i + 1) i,
)

-- `findDirectory(1, name)` refuses a name that some entry has, and otherwise returns the first
-- entry with no name, or -1 if there is none.
pub find_directory-new :
    (filename : List ℕ) (directory : List DirEntry)
    → find_directory true filename directory ≡ (
        if has_name filename directory
        then none
        else find_index (λ e. not (is_named e)) directory 0)
unfolding find_directory
find_directory-new filename directory = new_loop filename directory 0

pub find_directory-old :
    (filename : List ℕ) (directory : List DirEntry)
    → find_directory false filename directory ≡ last_named filename directory 0 none
unfolding find_directory
find_directory-old filename directory = lookup_loop filename directory 0 none

-- The bytes of a C string, before its 0.
abbrev pub IsCString : List ℕ → Type 0
IsCString name = All (λ c. c ≢ 0) name

pub c_str-append : (name rest : List ℕ) → IsCString name → c_str (name ++ 0 ∷ rest) ≡ name
unfolding c_str
c_str-append [] rest h = refl
c_str-append (c ∷ cs) rest h = ground (arith, c_str-append cs rest h.1)

-- A name that no entry has.
pub has_name-false :
    (name : List ℕ) (directory : List DirEntry) (k : ℕ) (f : DirEntry)
    → has_name name directory ≡ false
    → get_elem? directory k ≡ some f
    → is_named f ≡ true
    → c_str f.name ≢ name
unfolding has_name matches
has_name-false name [] k f h at nm same = cc
has_name-false name (e ∷ es) zero f h at nm same =
    ground (arith, bytes_eq_refl name, ap (bytes_eq name) same)
has_name-false name (e ∷ es) (suc k) f h at nm same =
    has_name-false name es k f (ground arith) at nm same

-- A free entry was found for a new name.
pub find_directory-new_some :
    (name : List ℕ) (directory : List DirEntry) (k : ℕ)
    → find_directory true name directory ≡ some k
    → (has_name name directory ≡ false)
      × ((e : DirEntry) × (get_elem? directory k ≡ some e) × (is_named e ≡ false))
find_directory-new_some name directory k e = elim (Bool-cases (has_name name directory)) [
  | inl taken ↦ absurd (ground (arith, find_directory-new name directory))
  | inr fresh ↦
      let (x, get, free) =
        find_index-some (λ (e : DirEntry). not (is_named e)) directory k
          (ground (arith, find_directory-new name directory)) in
      (fresh, (x, get, ground arith))
]

-- A free inode was found.
pub find_inode-some :
    (inodes : List Inode) (i : ℕ)
    → find_inode inodes ≡ some i
    → (n : Inode) × (get_elem? inodes i ≡ some n) × (n.is_used ≡ false)
unfolding find_inode
find_inode-some inodes i found =
    let (x, get, free) = find_index-some (λ (n : Inode). not n.is_used) inodes i found in
    (x, get, ground arith)

-- A free descriptor was found.
pub find_fd-some :
    (fds : List FileDescriptor) (i : ℕ)
    → find_fd fds ≡ some i
    → (f : FileDescriptor) × (get_elem? fds i ≡ some f) × (f.is_used ≡ false)
unfolding find_fd
find_fd-some fds i found =
    let (x, get, free) = find_index-some (λ (n : FileDescriptor). not n.is_used) fds i found in
    (x, get, ground arith)

last_named-some :
    (name : List ℕ) (es : List DirEntry) (i k : ℕ) (r : Option ℕ)
    → last_named name es i r ≡ some k
    → (r ≡ some k)
      ⊎ ((j : ℕ) × (k ≡ i + j)
          × ((e : DirEntry) × (get_elem? es j ≡ some e) × (matches name e ≡ true)))
unfolding last_named
last_named-some name [] i k r h = inl h
last_named-some name (e ∷ es) i k r h = elim (Bool-cases (matches name e)) [
  | inl m ↦ elim (last_named-some name es (i + 1) k (some i) (ground arith)) [
    | inl here ↦ inr (0, ground arith, (e, refl, m))
    | inr (j, at, found) ↦ inr (suc j, omega arith, found)
  ]
  | inr m ↦ elim (last_named-some name es (i + 1) k r (ground arith)) [
    | inl before ↦ inl before
    | inr (j, at, found) ↦ inr (suc j, omega arith, found)
  ]
]

-- The entry that `findDirectory(0, name)` returns has the name.
pub find_directory-old_some :
    (name : List ℕ) (directory : List DirEntry) (k : ℕ)
    → find_directory false name directory ≡ some k
    → (e : DirEntry) × (get_elem? directory k ≡ some e)
      × (is_named e ≡ true)
      × (c_str e.name ≡ name)
unfolding matches
find_directory-old_some name directory k found =
    elim (last_named-some name directory 0 k none
      (sym (find_directory-old name directory) ∙ found)) [
        | inl n ↦ absurd (cc)
        | inr (j, at, (e, get, m)) ↦ (
          e,
          rw at (rw (zero-add j) get),
          ground arith,
          sym (bytes_eq→eq name (c_str e.name) (ground arith)),
        )
      ]

last_named-IsSome :
    (name : List ℕ) (es : List DirEntry) (i : ℕ) (r : Option ℕ)
    → last_named name es i r ≡ none
    → (r ≡ none) × (has_name name es ≡ false)
unfolding last_named has_name
last_named-IsSome name [] i r h = (h, refl)
last_named-IsSome name (e ∷ es) i r h =
    ground (arith, last_named-IsSome name es (i + 1) (if matches name e then some i else r))

-- `findDirectory(0, name)` returns -1 only when no entry has the name.
pub find_directory-old_none :
    (name : List ℕ) (directory : List DirEntry)
    → find_directory false name directory ≡ none
    → has_name name directory ≡ false
find_directory-old_none name directory h =
    (last_named-IsSome name directory 0 none (sym (find_directory-old name directory) ∙ h)).1
