-- ===== src/Fs/Bitmap/Laws.antt =====
-- Challenge5/fs.c: the bitmap as a set of used blocks, and what the two helpers do to it.
use native.Mathlib.Nat.{one-le-pow, pow-le-pow_right}
use operating_system_challen.Base.{
  ℕ, zero, suc, ◌+◌, ◌-◌, ◌*◌, ◌/◌, ◌%◌, ◌^◌, ◌≤◌, ◌<◌, bit_and, bit_or, ◌≡◌, refl, inl, inr, Bool,
  true, false, Option, none, some, List, arith, ◌==◌, if◌then◌else◌, Bool-cases, length, get_or,
  get_elem?, set, All, length-set, All-set, All-get, get_elem?-lt, get_or-of_get_elem?,
  Option-cases, ◌∙◌, get_or-set_self, get_or-set_ne, get_elem?-some, done, fault, ℤ, pos, negsuc,
}
use operating_system_challen.Base.Bits.{
  bit, bit-le, bit-bit_or, bit-bit_and, bit-two_pow, bit-complement, bit_and-two_pow, bit_or-lt,
  bit_and-lt,
}
use operating_system_challen.Fs.Types.{disk_blocks}
use operating_system_challen.Fs.Bitmap.{find_bit_loop, find_used_blocks_bit, write_used_blocks_bit}

-- Block `i` is marked as used.
unfoldable pub used : List ℕ → ℕ → Bool
used bitmap i = bit (i % 32) (get_or bitmap (i / 32) 0) == 1

-- 256 words of 32 bits.
pub record IsBitmap (bitmap : List ℕ) : Type 0 where
  pub words : length bitmap ≡ 256
  pub small : All (λ w. w < 2 ^ 32) bitmap

-- The lowest free block, or none if all are used.
abbrev pub FirstFree : List ℕ → ℕ → ℕ → Option ℕ → Type 0
FirstFree bitmap lo hi none = (j : ℕ) → lo ≤ j → j < hi → used bitmap j ≡ true
FirstFree bitmap lo hi (some i) =
    (lo ≤ i)
    × (i < hi)
    × (used bitmap i ≡ false)
    × ((j : ℕ) → lo ≤ j → j < i → used bitmap j ≡ true)

-- The test of the loop reads the block's bit.
taken_test :
    (bitmap : List ℕ) (i : ℕ)
    → (bit_and (get_or bitmap (i / 32) 0) (2 ^ (i % 32)) == 0)
      ≡ (if used bitmap i then false else true)
unfolding used
taken_test bitmap i =
    let word = get_or bitmap (i / 32) 0 in
    let k = i % 32 in rw (bit_and-two_pow k word) (split (bit k word) (bit-le k word))
  where
    split : (b : ℕ) → b ≤ 1 → (b * 2 ^ (i % 32) == 0) ≡ (if b == 1 then false else true)
    split zero h = ground arith
    split (suc zero) h = ground (arith, one-le-pow (i % 32) 2)
    split (suc (suc b)) h = absurd (omega arith)

FirstFree-cons :
    (bitmap : List ℕ) (i hi : ℕ) (r : Option ℕ)
    → used bitmap i ≡ true
    → i < hi
    → FirstFree bitmap (i + 1) hi r
    → FirstFree bitmap i hi r
FirstFree-cons bitmap i hi none u lt f = λ j lo up. elim (Bool-cases (i == j)) [
  | inl e ↦ let e' : i ≡ j = ground arith in rw (← e') u
  | inr ne ↦ f j (ground arith) up
]
FirstFree-cons bitmap i hi (some k) u lt f = (
  omega arith,
  omega arith,
  f.2,
  λ j lo up. elim (Bool-cases (i == j)) [
    | inl e ↦ let e' : i ≡ j = ground arith in rw (← e') u
    | inr ne ↦ f.3 j (ground arith) up
  ],
)

find_bit_loop-FirstFree :
    (left i hi : ℕ) (bitmap : List ℕ)
    → i + left ≡ hi
    → FirstFree bitmap i hi (find_bit_loop left i bitmap)
unfolding find_bit_loop
find_bit_loop-FirstFree zero i hi bitmap e = λ j lo up. absurd (omega arith)
find_bit_loop-FirstFree (suc left) i hi bitmap e = elim (Bool-cases (used bitmap i)) [
  | inl u ↦
      rw (taken_test bitmap i, u)
        (FirstFree-cons bitmap i hi _ u (omega arith)
          (find_bit_loop-FirstFree left (i + 1) hi bitmap (omega arith)))
  | inr u ↦
      rw (taken_test bitmap i, u) (omega arith, omega arith, u, λ j lo up. absurd (omega arith))
]

-- `findUsedBlocksBit` returns the lowest free block of the disk, and -1 exactly when every
-- block is marked as used.
pub find_used_blocks_bit-FirstFree :
    (bitmap : List ℕ) → FirstFree bitmap 0 disk_blocks (find_used_blocks_bit bitmap)
unfolding find_used_blocks_bit
find_used_blocks_bit-FirstFree bitmap =
    find_bit_loop-FirstFree disk_blocks 0 disk_blocks bitmap (omega arith)

-- What `writeUsedBlocksBit` stores in a word.
abbrev written_word : Bool → ℕ → ℕ → ℕ
written_word b word k = if b then bit_or word (2 ^ k) else bit_and word (2 ^ 32 - 1 - 2 ^ k)

two_pow-lt : (k : ℕ) → k < 32 → 2 ^ k < 2 ^ 32
two_pow-lt k h =
    omega (arith, pow-le-pow_right {n = 2} (omega arith) {i = k} {j = 31} (omega arith))

bit-written_word :
    (b : Bool) (word j k : ℕ)
    → j < 32
    → k < 32
    → bit j (written_word b word k) ≡ (if j == k then (if b then 1 else 0) else bit j word)
bit-written_word true word j k hj hk =
    ground (arith, bit-bit_or j word (2 ^ k), bit-two_pow j k, bit-le j word)
bit-written_word false word j k hj hk = ground (
  arith,
  bit-bit_and j word (2 ^ 32 - 1 - 2 ^ k),
  bit-complement 32 j (2 ^ k) hj (two_pow-lt k hk),
  bit-two_pow j k,
  bit-le j word,
)

-- A completed write changed one word.
write_used_blocks_bit-done :
    (p : ℕ) (b : Bool) (bitmap : List ℕ) {bitmap' : List ℕ}
    → write_used_blocks_bit (pos p) b bitmap ≡ done bitmap'
    → (word : ℕ) × (get_elem? bitmap (p / 32) ≡ some word)
      × (bitmap' ≡ set bitmap (p / 32) (written_word b word (p % 32)))
unfolding write_used_blocks_bit
write_used_blocks_bit-done p b bitmap e = elim (Option-cases (get_elem? bitmap (p / 32))) [
  | inl n ↦ ground arith
  | inr (word, s) ↦ (word, s, ground arith)
]

get_or-set :
    (xs : List ℕ) (i j v : ℕ)
    → i < length xs
    → get_or (set xs i v) j 0 ≡ (if i == j then v else get_or xs j 0)
get_or-set xs i j v h = elim (Bool-cases (i == j)) [
  | inl e ↦ let e' : i ≡ j = ground arith in rw e (rw (← e') (get_or-set_self xs i v 0 h))
  | inr ne ↦ rw ne (get_or-set_ne xs i j v 0 (ground arith))
]

-- `writeUsedBlocksBit` sets or clears the one bit of the block that it is given.
pub used-write_used_blocks_bit :
    (p : ℕ) (b : Bool) (bitmap : List ℕ) {bitmap' : List ℕ} (q : ℕ)
    → write_used_blocks_bit (pos p) b bitmap ≡ done bitmap'
    → used bitmap' q ≡ (if p == q then b else used bitmap q)
unfolding used
used-write_used_blocks_bit p b bitmap {bitmap'} q e =
    let (word, got, new) = write_used_blocks_bit-done p b bitmap e in
    rw
      (
        new,
        get_or-set bitmap (p / 32) (q / 32) (written_word b word (p % 32))
            (get_elem?-lt bitmap (p / 32) word got),
      )
      (ground (
        arith,
        bit-written_word b word (q % 32) (p % 32),
        get_or-of_get_elem? bitmap (p / 32) 0 got,
      ))

written_word-lt : (b : Bool) (word k : ℕ) → word < 2 ^ 32 → k < 32 → written_word b word k < 2 ^ 32
written_word-lt true word k h hk = bit_or-lt 32 word (2 ^ k) h (two_pow-lt k hk)
written_word-lt false word k h hk = bit_and-lt 32 word (2 ^ 32 - 1 - 2 ^ k) h

-- A block of the disk has a bit, so that `writeUsedBlocksBit` does its work without a fault, and
-- leaves 256 words of 32 bits.
pub write_used_blocks_bit-IsBitmap :
    (p : ℕ) (b : Bool) (bitmap : List ℕ)
    → IsBitmap bitmap
    → p < disk_blocks
    → (bitmap' : List ℕ) × (write_used_blocks_bit (pos p) b bitmap ≡ done bitmap')
      × IsBitmap bitmap'
unfolding write_used_blocks_bit
write_used_blocks_bit-IsBitmap p b bitmap v h =
    let (word, got) = get_elem?-some bitmap (p / 32) (omega (arith, v.words)) in
    (
      set bitmap (p / 32) (written_word b word (p % 32)),
      rw (got, write_used_blocks_bit),
      record {
        words = length-set bitmap (p / 32) _ ∙ v.words;
        small =
            All-set _ bitmap (p / 32) _
              (written_word-lt b word (p % 32) (All-get _ bitmap (p / 32) word v.small got)
                (omega arith))
              v.small;
      },
    )

-- A write out of the bitmap, as after a search that found no block, is a fault.
pub write_used_blocks_bit-fault :
    (n : ℕ) (b : Bool) (bitmap : List ℕ) → write_used_blocks_bit (negsuc n) b bitmap ≡ fault
unfolding write_used_blocks_bit
write_used_blocks_bit-fault n b bitmap = refl

-- A completed write leaves 256 words of 32 bits.
pub IsBitmap-write_used_blocks_bit :
    (position : ℤ) (b : Bool) (bitmap : List ℕ) {bitmap' : List ℕ}
    → IsBitmap bitmap
    → write_used_blocks_bit position b bitmap ≡ done bitmap'
    → IsBitmap bitmap'
IsBitmap-write_used_blocks_bit (negsuc n) b bitmap v e =
    absurd (ground (arith, write_used_blocks_bit-fault n b bitmap))
IsBitmap-write_used_blocks_bit (pos p) b bitmap v e =
    let (word, got, new) = write_used_blocks_bit-done p b bitmap e in
    rw new (record {
      words = length-set bitmap (p / 32) _ ∙ v.words;
      small =
          All-set _ bitmap (p / 32) _
            (written_word-lt b word (p % 32) (All-get _ bitmap (p / 32) word v.small got)
              (omega arith))
            v.small;
    })
