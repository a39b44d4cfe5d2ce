-- ===== src/Tls/Refs.antt =====
-- Challenge4/tls.c: how many pointers to a page the storages hold.
use operating_system_challen.Base.{
  ℕ, zero, suc, ◌+◌, ◌≤◌, ◌≡◌, refl, ◌≢◌, Option, none, some, List, [], ◌∷◌, ◌++◌, arith, ◌==◌,
  if◌then◌else◌, get_elem?, set,
}
use operating_system_challen.Tls.Types.{Storage, Pair}

abbrev pub pages_in : Option Storage → List ℕ
pages_in none = []
pages_in (some t) = t.pages

abbrev pub pages_of : Pair → List ℕ
pages_of e = pages_in e.tls

unfoldable pub count : ℕ → List ℕ → ℕ
count p [] = 0
count p (x ∷ xs) = (if p == x then 1 else 0) + count p xs

unfoldable pub refs : ℕ → List Pair → ℕ
unfolding count
refs p [] = 0
refs p (e ∷ es) = count p (pages_of e) + refs p es

pub count-set :
    (p : ℕ) (xs : List ℕ) (i x y : ℕ)
    → get_elem? xs i ≡ some x
    → count p (set xs i y) + (if p == x then 1 else 0) ≡ count p xs + (if p == y then 1 else 0)
unfolding count
count-set p [] i x y e = cc
count-set p (z ∷ zs) zero x y e = ground arith
count-set p (z ∷ zs) (suc i) x y e = omega (arith, count-set p zs i x y e)

pub count-append : (p : ℕ) (xs ys : List ℕ) → count p (xs ++ ys) ≡ count p xs + count p ys
unfolding count
count-append p [] ys = omega arith
count-append p (x ∷ xs) ys = omega (arith, count-append p xs ys)

pub count-pos : (p : ℕ) (xs : List ℕ) (i : ℕ) → get_elem? xs i ≡ some p → 1 ≤ count p xs
unfolding count
count-pos p [] i e = cc
count-pos p (x ∷ xs) zero e = ground arith
count-pos p (x ∷ xs) (suc i) e = omega (arith, count-pos p xs i e)

pub count-two :
    (p : ℕ) (xs : List ℕ) (i j : ℕ)
    → get_elem? xs i ≡ some p
    → get_elem? xs j ≡ some p
    → i ≢ j
    → 2 ≤ count p xs
unfolding count
count-two p [] i j e f ne = cc
count-two p (x ∷ xs) zero zero e f ne = absurd (ne refl)
count-two p (x ∷ xs) zero (suc j) e f ne = ground (arith, count-pos p xs j f)
count-two p (x ∷ xs) (suc i) zero e f ne = ground (arith, count-pos p xs i e)
count-two p (x ∷ xs) (suc i) (suc j) e f ne =
    omega (arith, count-two p xs i j e f (λ same. ne (omega arith)))

-- Numbers that are all below `p`.
pub count-zero :
    (p : ℕ) (xs : List ℕ) → ((k q : ℕ) → get_elem? xs k ≡ some q → q ≢ p) → count p xs ≡ 0
unfolding count
count-zero p [] h = refl
count-zero p (x ∷ xs) h = ground (arith, h 0 x refl, count-zero p xs (λ k q at. h (suc k) q at))

pub refs-set :
    (p : ℕ) (es : List Pair) (i : ℕ) (e e' : Pair)
    → get_elem? es i ≡ some e
    → refs p (set es i e') + count p (pages_of e) ≡ refs p es + count p (pages_of e')
unfolding refs
refs-set p [] i e e' at = cc
refs-set p (z ∷ zs) zero e e' at = ground arith
refs-set p (z ∷ zs) (suc i) e e' at = omega (arith, refs-set p zs i e e' at)

pub refs-le :
    (p : ℕ) (es : List Pair) (i : ℕ) (e : Pair)
    → get_elem? es i ≡ some e
    → count p (pages_of e) ≤ refs p es
unfolding refs
refs-le p [] i e at = cc
refs-le p (z ∷ zs) zero e at = ground arith
refs-le p (z ∷ zs) (suc i) e at = omega (arith, refs-le p zs i e at)

pub refs-two :
    (p : ℕ) (es : List Pair) (i j : ℕ) (e f : Pair)
    → get_elem? es i ≡ some e
    → get_elem? es j ≡ some f
    → i ≢ j
    → count p (pages_of e) + count p (pages_of f) ≤ refs p es
unfolding refs
refs-two p [] i j e f at bt ne = cc
refs-two p (z ∷ zs) zero zero e f at bt ne = absurd (ne refl)
refs-two p (z ∷ zs) zero (suc j) e f at bt ne = ground (arith, refs-le p zs j f bt)
refs-two p (z ∷ zs) (suc i) zero e f at bt ne = ground (arith, refs-le p zs i e at)
refs-two p (z ∷ zs) (suc i) (suc j) e f at bt ne =
    omega (arith, refs-two p zs i j e f at bt (λ same. ne (omega arith)))

pub refs-zero :
    (p : ℕ) (es : List Pair)
    → ((i : ℕ) (e : Pair) → get_elem? es i ≡ some e → count p (pages_of e) ≡ 0)
    → refs p es ≡ 0
unfolding refs
refs-zero p [] h = refl
refs-zero p (e ∷ es) h = omega (arith, h 0 e refl, refs-zero p es (λ i f at. h (suc i) f at))
