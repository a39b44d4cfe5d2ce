-- ===== src/Tls/Sizes.antt =====
-- Challenge4/tls.c: `roundUp`, which divides in single precision.
use operating_system_challen.Base.{
  ℕ, true, arith, if-true, ◌<◌, ◌≡◌, ap, ◌∙◌, zero, suc, ◌+◌, ◌-◌, ◌*◌, ◌/◌, ◌%◌, ◌^◌, ◌&&◌, ◌||◌,
  ◌==◌, ltb, if◌then◌else◌, ℤ, pos, negsuc,
}
use operating_system_challen.Tls.Types.{page_size}

-- `n` to the nearest multiple of `2 ^ e`, ties to an even one.
unfoldable pub round_even : (e n : ℕ) → ℕ
round_even e n =
    let quotient = n / 2 ^ e in
    let rest = n % 2 ^ e in
    if ltb (2 ^ e) (2 * rest) || (2 * rest == 2 ^ e && quotient % 2 == 1)
    then (quotient + 1) * 2 ^ e
    else quotient * 2 ^ e

-- The conversion of an `int` to `float`, whose mantissa has 24 bits. `left` exponents above `e`
-- are left to try.
unfoldable pub to_float : (left e n : ℕ) → ℕ
unfolding round_even
to_float zero e n = round_even e n
to_float (suc left) e n =
    let larger = to_float left (e + 1) n in if ltb n (2 ^ (24 + e)) then round_even e n else larger

unfoldable pub float_of : ℕ → ℕ
unfolding to_float
float_of n = to_float 8 0 n

-- `-n`
abbrev pub negate : ℕ → ℤ
negate zero = pos 0
negate (suc n) = negsuc n

-- `size` is an `unsigned` that is passed as an `int`. The quotient by a power of two is exact; the
-- conversion to `int` cuts it towards 0, and a part behind the point counts only above 0.
unfoldable pub round_up : ℕ → ℤ
unfolding float_of
round_up size =
    if ltb size (2 ^ 31)
    then (let sz = float_of size in
        pos (if sz % page_size == 0 then sz / page_size else sz / page_size + 1))
    else negate (float_of (2 ^ 32 - size) / page_size)

round_even-zero : (n : ℕ) → round_even 0 n ≡ n
unfolding round_even
round_even-zero n = ground arith

-- A `float` holds 24 bits.
float_of-exact : (n : ℕ) → n < 2 ^ 24 → float_of n ≡ n
unfolding float_of to_float
float_of-exact n small =
    let lt : ltb n (2 ^ 24) ≡ true = ground arith in
    if-true (round_even 0 n) (to_float 7 1 n) lt ∙ round_even-zero n

page_ceiling :
    (size : ℕ)
    → (if size % page_size == 0 then size / page_size else size / page_size + 1)
      ≡ (size + 4095) / page_size
page_ceiling size = ground arith

-- `roundUp` is the number of pages that holds the size, for a size that a `float` holds exactly.
pub round_up-ceiling : (size : ℕ) → size < 2 ^ 24 → round_up size ≡ pos ((size + 4095) / page_size)
unfolding round_up
round_up-ceiling size small =
    let lt : ltb size (2 ^ 31) ≡ true = ground arith in
    if-true _ _ lt
    ∙ (ap (λ (sz : ℕ). pos (if sz % page_size == 0 then sz / page_size else sz / page_size + 1))
          (float_of-exact size small)
        ∙ ap pos (page_ceiling size))
