-- ===== src/Tests/Host.antt =====
-- A host with one file: every name stands for it, and so does every descriptor.
use operating_system_challen.Base.{
  tabulate, ℕ, ◌+◌, ◌-◌, ◌≡◌, refl, ap, Bool, true, Option, some, List, arith, ◌&&◌, leb, ltb,
  if◌then◌else◌, length, get_or,
}
use operating_system_challen.Device.{FileName}
use operating_system_challen.Disk.Posix.{Host, HostView, IsHost, SameFiles}

pub record OneFile : Type 0 where
  pub file : Option FileName
  pub position : ℕ
  pub size : ℕ
  pub byte : ℕ → ℕ

-- The bytes from `at` on are replaced.
abbrev put : List ℕ → ℕ → (ℕ → ℕ) → ℕ → ℕ
put bytes at f k = if leb at k && ltb k (at + length bytes) then get_or bytes (k - at) 0 else f k

abbrev pub one_file : Host OneFile
one_file = record {
  open_create = λ n g. (some 3, record { file = some n; position = 0; size = 0; byte = g.byte });
  open_rdwr = λ n g. (some 3, record g { file = some n; position = 0 });
  close = λ f g. g;
  lseek = λ f offset g. (true, record g { position = offset });
  write = λ f bytes g.
      let end = g.position + length bytes in
      (
        true,
        record g {
          position = end;
          size = if leb end g.size then g.size else end;
          byte = put bytes g.position g.byte;
        },
      );
  read = λ f g. (some (tabulate g.byte g.position 4096), record g { position = g.position + 4096 });
}

abbrev pub one_file_view : HostView OneFile
one_file_view = record {
  file = λ g f. g.file;
  position = λ g f. g.position;
  size = λ g n. g.size;
  byte = λ g n k. g.byte k;
}

pub one_file-IsHost : IsHost one_file one_file_view
one_file-IsHost = record {
  open_create_ok = λ n f g g' e.
      let same = ap (λ (p : Option ℕ × OneFile). p.1) e in rw (← same) (refl, refl, refl);
  open_rdwr_ok = λ n f g g' e.
      let same = ap (λ (p : Option ℕ × OneFile). p.1) e in rw (← same) (refl, unchanged);
  close_ok = λ f g. unchanged;
  lseek_ok = λ f offset g g' e.
      let same = ap (λ (p : Bool × OneFile). p.1) e in rw (← same) (refl, refl, unchanged);
  write_ok = λ f n bytes g g' at e.
      let same = ap (λ (p : Bool × OneFile). p.1) e in rw (← same) (at, refl, refl, λ k. refl);
  read_ok = λ f n bytes g g' at e small.
      let same = ap (λ (p : Option (List ℕ) × OneFile). p.1) e in
      let got : some (tabulate g.byte g.position 4096) ≡ some bytes =
        ap (λ (p : Option (List ℕ) × OneFile). p.0) e in
      rw (← same) (at, ground arith, unchanged);
}
  where
    unchanged :
        {g : OneFile} {p : ℕ} {n : Option FileName}
        → SameFiles one_file_view g (record g { file = n; position = p })
    unchanged = record { same_size = λ m. refl; same_byte = λ m k. refl }
