-- ===== src/Base/Tabulate.antt =====
-- Lists of the values of a function: the bytes of a file, or of a page.
use Prim.Native.Nat.{ℕ, zero, suc, ◌+◌, ◌≤◌, ◌<◌}
use mathlib.Core.Path.{◌≡◌, refl, ap, ◌∙◌}
use mathlib.Core.List.{List, [], ◌∷◌}
use native.Mathlib.Omega.{arith}
use operating_system_challen.Base.Lists.{length, get_or}

-- `n` values of a function, from `i` on.
unfoldable pub tabulate : (ℕ → ℕ) → ℕ → ℕ → List ℕ
tabulate f i zero = []
tabulate f i (suc n) = f i ∷ tabulate f (i + 1) n

pub tabulate-eq :
    (f g : ℕ → ℕ) (i n : ℕ)
    → ((k : ℕ) → i ≤ k → k < i + n → f k ≡ g k)
    → tabulate f i n ≡ tabulate g i n
unfolding tabulate
tabulate-eq f g i zero h = refl
tabulate-eq f g i (suc n) h =
    rw (h i (omega arith) (omega arith))
      (ap (◌∷◌ (g i)) (tabulate-eq f g (i + 1) n (λ k lo hi. h k (omega arith) (omega arith))))

pub tabulate-get_or :
    (xs : List ℕ) (f : ℕ → ℕ) (i n : ℕ)
    → length xs ≡ n
    → ((k : ℕ) → k < n → f (i + k) ≡ get_or xs k 0)
    → tabulate f i n ≡ xs
unfolding tabulate
tabulate-get_or [] f i zero e h = refl
tabulate-get_or [] f i (suc n) e h = absurd (omega arith)
tabulate-get_or (x ∷ xs) f i zero e h = absurd (omega arith)
tabulate-get_or (x ∷ xs) f i (suc n) e h =
    let first : f i ≡ x = ap f (omega arith) ∙ h 0 (omega arith) in
    rw first (
      ap (◌∷◌ x) (
        tabulate-get_or xs f (i + 1) n (omega arith)
          (λ k lt. ap f (omega arith) ∙ h (suc k) (omega arith))))

pub length-tabulate : (f : ℕ → ℕ) (i n : ℕ) → length (tabulate f i n) ≡ n
unfolding tabulate
length-tabulate f i zero = refl
length-tabulate f i (suc n) = ap suc (length-tabulate f (i + 1) n)
