-- ===== src/Fs/Bitmap.antt =====
-- Challenge5/fs.c: `usedBlocksBitmap`, 256 words of 32 bits, one bit for a block of the disk.
pub mod Laws
use operating_system_challen.Base.{
  ℕ, zero, suc, ◌+◌, ◌-◌, ◌/◌, ◌%◌, ◌^◌, bit_and, bit_or, Bool, Option, none, some, List, ◌==◌,
  if◌then◌else◌, get_or, get_elem?, set, Outcome, done, fault, ℤ, pos, negsuc,
}
use operating_system_challen.Fs.Types.{disk_blocks}

-- The loop of `findUsedBlocksBit` with `left` rounds to go.
pub find_bit_loop : (left i : ℕ) → List ℕ → Option ℕ
find_bit_loop zero i bitmap = none
find_bit_loop (suc left) i bitmap =
    let rest = find_bit_loop left (i + 1) bitmap in
    let taken = bit_and (get_or bitmap (i / 32) 0) (2 ^ (i % 32)) in
    if taken == 0 then some i else rest

-- `none` is -1.
unfoldable pub find_used_blocks_bit : List ℕ → Option ℕ
unfolding find_bit_loop
find_used_blocks_bit bitmap = find_bit_loop disk_blocks 0 bitmap

-- A negative position makes a shift or an index out of range, and so does one past the last word.
unfoldable pub write_used_blocks_bit : ℤ → Bool → List ℕ → Outcome (List ℕ)
write_used_blocks_bit (negsuc n) clear_set bitmap = fault
write_used_blocks_bit (pos position) clear_set bitmap =
    let index = position / 32 in
    let flag = 2 ^ (position % 32) in
    elim (get_elem? bitmap index) [
      | none ↦ fault
      | some word ↦ done (
          set bitmap index
            (if clear_set then bit_or word flag else bit_and word (2 ^ 32 - 1 - flag)))
    ]
