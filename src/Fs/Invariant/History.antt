-- ===== src/Fs/Invariant/History.antt =====
-- Challenge5/fs.c: histories of calls on the files of a file system.
use mathlib.Core.Path.{subst}
use operating_system_challen.Base.{
  ℕ, ◌≡◌, Option, List, [], ◌∷◌, arith, inl, inr, Outcome, done, fault, Outcome-cases, ◌>>=◌, ℤ,
}
use operating_system_challen.Device.{Block, FileName, Device}
use operating_system_challen.Fs.Types.{FileSystem}
use operating_system_challen.Fs.Tables.Laws.{IsCString}
use operating_system_challen.Fs.Files.{fs_create, fs_open, fs_close, fs_delete}
use operating_system_challen.Fs.Io.{fs_read, fs_write, fs_lseek, fs_truncate}
use operating_system_challen.Fs.Invariant.{Inv}
use operating_system_challen.Fs.Invariant.Calls.{
  fs_open-Inv, fs_close-Inv, fs_lseek-Inv, fs_truncate-Inv, fs_write-Inv, fs_read-Inv,
}
use operating_system_challen.Fs.Invariant.Files.{fs_create-Inv, fs_delete-Inv}

-- A call that works on the files of a file system, with its arguments and with what lies in the
-- memory that it uses.
pub data Request : Type 0 where
  create : (behind : List ℕ) → FileName → Request
  opens : FileName → Request
  closes : ℤ → Request
  delete : (stack : Block) → FileName → Request
  reads : (array_buf block_buf : Block) → ℤ → ℕ → Request
  writes : (array_buf block_buf : Block) → ℤ → List ℕ → Request
  seeks : ℤ → ℤ → Request
  truncates : ℤ → ℤ → Request

-- A name that is created is a C string.
abbrev pub IsRequest : Request → Type 0
IsRequest (create behind name) = IsCString name
IsRequest _ = Unit {0}

abbrev pub AllRequests : List Request → Type 0
AllRequests [] = Unit {0}
AllRequests (q ∷ qs) = IsRequest q × AllRequests qs

module _ {W : Type 0} (d : Device W) where
  unfoldable pub serve : Request → FileSystem W → Outcome (FileSystem W)
  serve (create behind name) s = fs_create d behind name s >>= λ (r, s'). done s'
  serve (opens name) s = fs_open name s >>= λ (r, s'). done s'
  serve (closes fildes) s = fs_close fildes s >>= λ (r, s'). done s'
  serve (delete stack name) s = fs_delete d stack name s >>= λ (r, s'). done s'
  serve (reads a b fildes n) s = fs_read d a b fildes n s >>= λ (r, out, s'). done s'
  serve (writes a b fildes bytes) s = fs_write d a b fildes bytes s >>= λ (r, s'). done s'
  serve (seeks fildes offset) s = fs_lseek fildes offset s >>= λ (r, s'). done s'
  serve (truncates fildes size) s = fs_truncate fildes size s >>= λ (r, s'). done s'

  unfoldable pub serve_all : List Request → FileSystem W → Outcome (FileSystem W)
  unfolding serve
  serve_all [] s = done s
  serve_all (q ∷ qs) s = serve q s >>= λ s'. serve_all qs s'

  result_of :
      {s' : FileSystem W} (o : Outcome (Option ℕ × FileSystem W))
      → (o >>= λ (r, t). done t) ≡ done s'
      → (r : Option ℕ) × (o ≡ done (r, s'))
  result_of (done (r, t)) e = (r, ground arith)
  result_of fault e = absurd (ground arith)

  serve-Inv :
      (q : Request) (s s' : FileSystem W) → Inv s → IsRequest q → serve q s ≡ done s' → Inv s'
  unfolding serve
  serve-Inv (create behind name) s s' v str e =
      let (r, h) = result_of (fs_create d behind name s) e in
      fs_create-Inv d behind name s s' r v str h
  serve-Inv (opens name) s s' v str e =
      let (r, h) = result_of (fs_open name s) e in fs_open-Inv name s s' r v h
  serve-Inv (closes fildes) s s' v str e =
      let (r, h) = result_of (fs_close fildes s) e in fs_close-Inv fildes s s' r v h
  serve-Inv (delete stack name) s s' v str e =
      let (r, h) = result_of (fs_delete d stack name s) e in fs_delete-Inv d stack name s s' r v h
  serve-Inv (reads a b fildes n) s s' v str e = elim (Outcome-cases (fs_read d a b fildes n s)) [
    | inl f ↦ absurd (ground arith)
    | inr ((r, out, t), h) ↦ fs_read-Inv d a b fildes n out s s' r v (ground arith)
  ]
  serve-Inv (writes a b fildes bytes) s s' v str e =
      let (r, h) = result_of (fs_write d a b fildes bytes s) e in
      fs_write-Inv d a b fildes bytes s s' r v h
  serve-Inv (seeks fildes offset) s s' v str e =
      let (r, h) = result_of (fs_lseek fildes offset s) e in fs_lseek-Inv fildes offset s s' r v h
  serve-Inv (truncates fildes size) s s' v str e =
      let (r, h) = result_of (fs_truncate fildes size s) e in fs_truncate-Inv fildes size s s' r v h

  -- A sequence of calls of `fs_create`, `fs_open`, `fs_close`, `fs_delete`, `fs_read`, `fs_write`,
  -- `fs_lseek` and `fs_truncate` that runs without a fault keeps the invariant, if the names that it
  -- creates are C strings.
  pub serve_all-Inv :
      (qs : List Request) (s s' : FileSystem W)
      → Inv s
      → AllRequests qs
      → serve_all qs s ≡ done s'
      → Inv s'
  unfolding serve_all
  serve_all-Inv [] s s' v ok e = let same : s ≡ s' = ground arith in subst Inv same v
  serve_all-Inv (q ∷ qs) s s' v ok e = elim (Outcome-cases (serve q s)) [
    | inl f ↦ absurd (ground arith)
    | inr (t, h) ↦ serve_all-Inv qs t s' (serve-Inv q s t v ok.0 h) ok.1 (ground arith)
  ]
