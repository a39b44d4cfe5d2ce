-- ===== src/Base/Bits.antt =====
-- The bits of `bit_and` and `bit_or` at variables, and one-bit masks.
use Prim.Native.Nat.{min, max, digits, bit_and-bitwise, bit_or-bitwise}
use Prim.Native.Nat.{ℕ, zero, suc, ◌+◌, ◌-◌, ◌*◌, ◌/◌, ◌%◌, ◌^◌, ◌≤◌, ◌<◌, bit_and, bit_or}
use mathlib.Core.Path.{◌≡◌, refl, ap, sym, ◌∙◌}
use native.Mathlib.Nat.{pow-suc, one-le-pow}
use native.Mathlib.Omega.{arith}
use operating_system_challen.Base.Tests.{◌==◌, if◌then◌else◌}

-- What two numbers of binary digits come to is the same for every count of digits that is enough.
module _ (over : ℕ → ℕ) (op : ℕ → ℕ → ℕ) where
  enough_digits : (x y j k : ℕ) → x ≤ j → x ≤ k → digits over op j x y ≡ digits over op k x y
  enough_digits zero y zero zero lj lk = refl
  enough_digits zero y zero (suc k) lj lk = refl
  enough_digits zero y (suc j) zero lj lk = refl
  enough_digits zero y (suc j) (suc k) lj lk = refl
  enough_digits (suc x) y zero k lj lk = absurd (omega arith)
  enough_digits (suc x) y (suc j) zero lj lk = absurd (omega arith)
  enough_digits (suc x) y (suc j) (suc k) lj lk =
      ap (λ high. high * 2 + op (suc x % 2) (y % 2))
        (enough_digits (suc x / 2) (y / 2) j k (omega arith) (omega arith))

  first_digit :
      (x y : ℕ)
      → digits over op (suc x) (suc x) y
        ≡ op (suc x % 2) (y % 2) + 2 * digits over op (suc x / 2) (suc x / 2) (y / 2)
  first_digit x y =
      ground (arith, enough_digits (suc x / 2) (y / 2) x (suc x / 2) (omega arith) (omega arith))

bit_and_lem : (x y : ℕ) → bit_and x y ≡ min (x % 2) (y % 2) + 2 * bit_and (x / 2) (y / 2)
bit_and_lem zero y = ground (arith, bit_and-bitwise 0 y, bit_and-bitwise 0 (y / 2))
bit_and_lem (suc x) y =
    bit_and-bitwise (suc x) y
    ∙ (first_digit (λ _. 0) min x y
        ∙ ap (λ high. min (suc x % 2) (y % 2) + 2 * high)
            (sym (bit_and-bitwise (suc x / 2) (y / 2))))

bit_or_lem : (x y : ℕ) → bit_or x y ≡ max (x % 2) (y % 2) + 2 * bit_or (x / 2) (y / 2)
bit_or_lem zero y = ground (arith, bit_or-bitwise 0 y, bit_or-bitwise 0 (y / 2))
bit_or_lem (suc x) y =
    bit_or-bitwise (suc x) y
    ∙ (first_digit (λ w. w) max x y
        ∙ ap (λ high. max (suc x % 2) (y % 2) + 2 * high)
            (sym (bit_or-bitwise (suc x / 2) (y / 2))))

-- Bit `k` of `x`.
unfoldable pub bit : ℕ → ℕ → ℕ
bit zero x = x % 2
bit (suc k) x = bit k (x / 2)

pub bit-le : (k x : ℕ) → bit k x ≤ 1
unfolding bit
bit-le zero x = omega arith
bit-le (suc k) x = bit-le k (x / 2)

pub bit-bit_or : (k a b : ℕ) → bit k (bit_or a b) ≡ max (bit k a) (bit k b)
unfolding bit
bit-bit_or zero a b = omega (arith, bit_or_lem a b)
bit-bit_or (suc k) a b =
    let half : bit_or a b / 2 ≡ bit_or (a / 2) (b / 2) = omega (arith, bit_or_lem a b) in
    rw half (bit-bit_or k (a / 2) (b / 2))

pub bit-bit_and : (k a b : ℕ) → bit k (bit_and a b) ≡ min (bit k a) (bit k b)
unfolding bit
bit-bit_and zero a b = omega (arith, bit_and_lem a b)
bit-bit_and (suc k) a b =
    let half : bit_and a b / 2 ≡ bit_and (a / 2) (b / 2) = omega (arith, bit_and_lem a b) in
    rw half (bit-bit_and k (a / 2) (b / 2))

pub bit-zero : (k : ℕ) → bit k 0 ≡ 0
unfolding bit
bit-zero zero = refl
bit-zero (suc k) = bit-zero k

-- The mask `1 << j` has bit `j` and no other.
pub bit-two_pow : (k j : ℕ) → bit k (2 ^ j) ≡ (if k == j then 1 else 0)
unfolding bit
bit-two_pow zero zero = refl
bit-two_pow zero (suc j) = ground (arith, pow-suc 2 j)
bit-two_pow (suc k) zero = ground (arith, bit-zero k)
bit-two_pow (suc k) (suc j) =
    let half : 2 ^ suc j / 2 ≡ 2 ^ j = omega (arith, pow-suc 2 j) in
    rw half (ground (arith, bit-two_pow k j))

-- The complement of `x` in words of `w` bits.
pub bit-complement : (w k x : ℕ) → k < w → x < 2 ^ w → bit k (2 ^ w - 1 - x) ≡ 1 - bit k x
unfolding bit
bit-complement zero k x h lt = absurd (omega arith)
bit-complement (suc w) zero x h lt = omega (arith, pow-suc 2 w, one-le-pow w 2)
bit-complement (suc w) (suc k) x h lt =
    let half : (2 ^ suc w - 1 - x) / 2 ≡ 2 ^ w - 1 - x / 2 = omega (arith, pow-suc 2 w) in
    rw half (bit-complement w k (x / 2) (omega arith) (omega (arith, pow-suc 2 w)))

lt-two_pow : (x : ℕ) → x < 2 ^ x
lt-two_pow zero = omega arith
lt-two_pow (suc x) = omega (arith, lt-two_pow x, pow-suc 2 x)

-- A mask of 0, for `k` digits at most.
empty_mask : (x k : ℕ) → x < 2 ^ k → bit_and x 0 ≡ 0
empty_mask x zero lt = let none_left : x ≡ 0 = omega arith in rw none_left refl
empty_mask x (suc k) lt =
    let high = empty_mask (x / 2) k (omega (arith, pow-suc 2 k)) in
    omega (arith, high, bit_and_lem x 0)

-- Masking by `1 << k` leaves the bit in its place.
pub bit_and-two_pow : (k x : ℕ) → bit_and x (2 ^ k) ≡ bit k x * 2 ^ k
unfolding bit
bit_and-two_pow zero x =
    omega (arith, bit_and_lem x 1, empty_mask (x / 2) (x / 2) (lt-two_pow (x / 2)))
bit_and-two_pow (suc k) x =
    let half : 2 ^ suc k / 2 ≡ 2 ^ k = omega (arith, pow-suc 2 k) in
    let step : bit_and x (2 ^ suc k) ≡ bit_and (x / 2) (2 ^ k) * 2 =
      omega (arith, bit_and_lem x (2 ^ suc k), pow-suc 2 k, ap (bit_and (x / 2)) half) in
    omega (arith, step, bit_and-two_pow k (x / 2), ap (λ (t : ℕ). bit k (x / 2) * t) (pow-suc 2 k))

pub bit_or-lt : (w a b : ℕ) → a < 2 ^ w → b < 2 ^ w → bit_or a b < 2 ^ w
bit_or-lt zero a b p q =
    let a0 : a ≡ 0 = omega arith in let b0 : b ≡ 0 = omega arith in rw (a0, b0) (omega arith)
bit_or-lt (suc w) a b p q = omega (
  arith,
  pow-suc 2 w,
  bit_or_lem a b,
  bit_or-lt w (a / 2) (b / 2) (omega (arith, pow-suc 2 w)) (omega (arith, pow-suc 2 w)),
)

pub bit_and-lt : (w a b : ℕ) → a < 2 ^ w → bit_and a b < 2 ^ w
bit_and-lt zero a b p = let a0 : a ≡ 0 = omega arith in rw a0 (omega (arith, bit_and-bitwise 0 b))
bit_and-lt (suc w) a b p =
    omega (
      arith,
      pow-suc 2 w,
      bit_and_lem a b,
      bit_and-lt w (a / 2) (b / 2) (omega (arith, pow-suc 2 w)),
    )
