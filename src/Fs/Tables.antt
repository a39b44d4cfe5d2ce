-- ===== src/Fs/Tables.antt =====
-- Challenge5/fs.c: the searches of the inode, directory and descriptor tables. `none` is -1.
pub mod Laws
use operating_system_challen.Base.{
  ℕ, ◌+◌, Bool, true, false, not, ◌&&◌, Option, none, some, List, [], ◌∷◌, ◌==◌, if◌then◌else◌,
  bytes_eq, get_or, find_index,
}
use operating_system_challen.Fs.Types.{Inode, DirEntry, FileDescriptor}

unfoldable pub find_inode : List Inode → Option ℕ
unfolding find_index
find_inode inodes = find_index (λ n. not n.is_used) inodes 0

unfoldable pub find_fd : List FileDescriptor → Option ℕ
unfolding find_index
find_fd fds = find_index (λ f. not f.is_used) fds 0

-- The C string that an array of characters holds.
unfoldable pub c_str : List ℕ → List ℕ
c_str [] = []
c_str (c ∷ cs) = if c == 0 then [] else c ∷ c_str cs

-- `directory[i].name[0] != 0`
abbrev pub is_named : DirEntry → Bool
is_named e = not (get_or e.name 0 0 == 0)

-- The entry is compared by `strcmp`, and found equal.
unfoldable pub matches : List ℕ → DirEntry → Bool
unfolding c_str bytes_eq
matches filename e = is_named e && bytes_eq filename (c_str e.name)

-- The loop of `findDirectory` from index `i` on. `none` is the early return, and also the index
-- -1 behind the loop.
pub find_directory_loop :
    (new_entry : Bool) (filename : List ℕ)
    → List DirEntry
    → ℕ
    → (check : Bool) → Option ℕ
    → Option ℕ
unfolding matches
find_directory_loop new_entry filename [] i check index = index
find_directory_loop new_entry filename (e ∷ es) i check index =
    let free = check && not (is_named e) in
    let index' = if free then some i else index in
    let found = matches filename e in
    let rest =
      find_directory_loop new_entry filename es (i + 1) (if free then false else check)
        (if found then some i else index') in
    if found && new_entry then none else rest

unfoldable pub find_directory : Bool → List ℕ → List DirEntry → Option ℕ
unfolding find_directory_loop
find_directory new_entry filename directory =
    find_directory_loop new_entry filename directory 0 new_entry none
