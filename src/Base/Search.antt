-- ===== src/Base/Search.antt =====
-- A loop over an array that returns the first index whose element passes a test.
use operating_system_challen.Base.Tests.{if◌then◌else◌, Bool-cases}
use operating_system_challen.Base.Lists.{get_elem?}
use Prim.Native.Nat.{ℕ, zero, suc, ◌+◌, ◌<◌}
use mathlib.Core.Path.{◌≡◌, refl}
use mathlib.Core.Logic.{inl, inr}
use mathlib.Core.Bool.{Bool, true, false}
use mathlib.Core.Option.{Option, none, some}
use mathlib.Core.List.{List, [], ◌∷◌}
use native.Mathlib.Omega.{arith}

module _ {ℓ} {A : Type ℓ} (test : A → Bool) where
  -- `for (i = …; …; i++) if (test(array[i])) return i;`, with `none` for the -1 behind the loop.
  unfoldable pub find_index : List A → ℕ → Option ℕ
  find_index [] i = none
  find_index (x ∷ xs) i = let rest = find_index xs (i + 1) in if test x then some i else rest

  -- `r` is the first index from `i` on whose element passes the test, or none does.
  abbrev pub FirstIndex : List A → ℕ → Option ℕ → Type ℓ
  FirstIndex xs i none = (j : ℕ) (x : A) → get_elem? xs j ≡ some x → test x ≡ false
  FirstIndex xs i (some k) =
      (j : ℕ) × (k ≡ i + j)
      × ((x : A) × (get_elem? xs j ≡ some x) × (test x ≡ true))
      × ((h : ℕ) (x : A) → h < j → get_elem? xs h ≡ some x → test x ≡ false)

  FirstIndex-cons :
      (x : A) (xs : List A) (i : ℕ) (r : Option ℕ)
      → test x ≡ false
      → FirstIndex xs (i + 1) r
      → FirstIndex (x ∷ xs) i r
  FirstIndex-cons x xs i none e f = λ j y. before j y
    where
      before : (j : ℕ) (y : A) → get_elem? (x ∷ xs) j ≡ some y → test y ≡ false
      before zero y g = ground arith
      before (suc j) y g = f j y g
  FirstIndex-cons x xs i (some k) e (j, at, here, earlier) = (suc j, omega arith, here, before)
    where
      before : (h : ℕ) (y : A) → h < suc j → get_elem? (x ∷ xs) h ≡ some y → test y ≡ false
      before zero y lt g = ground arith
      before (suc h) y lt g = earlier h y (omega arith) g

  pub find_index-FirstIndex : (xs : List A) (i : ℕ) → FirstIndex xs i (find_index xs i)
  unfolding find_index
  find_index-FirstIndex [] i = λ j x g. cc
  find_index-FirstIndex (x ∷ xs) i = elim (Bool-cases (test x)) [
    | inl t ↦ rw t (0, omega arith, (x, refl, t), λ h y lt g. absurd (omega arith))
    | inr f ↦ rw f (FirstIndex-cons x xs i _ f (find_index-FirstIndex xs (i + 1)))
  ]

  -- The element at the index that the loop returns.
  pub find_index-some :
      (xs : List A) (k : ℕ)
      → find_index xs 0 ≡ some k
      → (x : A) × (get_elem? xs k ≡ some x) × (test x ≡ true)
  find_index-some xs k found = at_zero (find_index xs 0) (find_index-FirstIndex xs 0) found
    where
      at_zero :
          (r : Option ℕ)
          → FirstIndex xs 0 r
          → r ≡ some k
          → (x : A) × (get_elem? xs k ≡ some x) × (test x ≡ true)
      at_zero none f e = absurd (none_some e)
        where
          none_some : {B : Type 0} {b : B} → none ≡ some b → ⊥
          none_some e = cc
      at_zero (some i) (j, at, (x, get, t), _) e =
          let same : j ≡ k = ground arith in (x, rw (← same) get, t)
