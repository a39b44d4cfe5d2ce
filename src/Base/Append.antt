-- ===== src/Base/Append.antt =====
-- Elements of a list that another is put behind.
use Prim.Native.Nat.{ℕ, zero, suc, ◌+◌, ◌<◌}
use mathlib.Core.Path.{◌≡◌, refl, ap}
use mathlib.Core.Logic.{◌⊎◌, inl, inr}
use mathlib.Core.Option.{some}
use mathlib.Core.List.{List, [], ◌∷◌, ◌++◌}
use native.Mathlib.Omega.{arith}
use operating_system_challen.Base.Lists.{length, get_or, get_elem?}

pub get_or-append_left :
    (xs ys : List ℕ) (k : ℕ) → k < length xs → get_or (xs ++ ys) k 0 ≡ get_or xs k 0
get_or-append_left [] ys k h = absurd (omega arith)
get_or-append_left (x ∷ xs) ys zero h = refl
get_or-append_left (x ∷ xs) ys (suc k) h = get_or-append_left xs ys k (omega arith)

pub get_or-append_right :
    (xs ys : List ℕ) (k n : ℕ) → n ≡ length xs + k → get_or (xs ++ ys) n 0 ≡ get_or ys k 0
get_or-append_right [] ys k n e = ap (λ (x : ℕ). get_or ys x 0) (omega arith)
get_or-append_right (x ∷ xs) ys k zero e = absurd (omega arith)
get_or-append_right (x ∷ xs) ys k (suc n) e = get_or-append_right xs ys k n (omega arith)

module _ {ℓ} {A : Type ℓ} where
  pub get_elem?-append :
      (xs ys : List A) (k : ℕ) → k < length xs → get_elem? (xs ++ ys) k ≡ get_elem? xs k
  get_elem?-append [] ys k h = absurd (omega arith)
  get_elem?-append (x ∷ xs) ys zero h = refl
  get_elem?-append (x ∷ xs) ys (suc k) h = get_elem?-append xs ys k (omega arith)

  pub get_elem?-append_last : (xs : List A) (y : A) → get_elem? (xs ++ y ∷ []) (length xs) ≡ some y
  get_elem?-append_last [] y = refl
  get_elem?-append_last (x ∷ xs) y = get_elem?-append_last xs y

  pub get_elem?-append_cases :
      (xs : List A) (y z : A) (k : ℕ)
      → get_elem? (xs ++ y ∷ []) k ≡ some z
      → (get_elem? xs k ≡ some z) ⊎ ((k ≡ length xs) × (y ≡ z))
  get_elem?-append_cases [] y z zero e = inr (refl, ground arith)
  get_elem?-append_cases [] y z (suc k) e = cc
  get_elem?-append_cases (x ∷ xs) y z zero e = inl e
  get_elem?-append_cases (x ∷ xs) y z (suc k) e = elim (get_elem?-append_cases xs y z k e) [
    | inl old ↦ inl old
    | inr (last, same) ↦ inr (ap suc last, same)
  ]
