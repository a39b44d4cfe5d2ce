-- ===== src/Tests/Ram.antt =====
-- A memory that is given in full.
use mathlib.Core.Path.{subst}
use operating_system_challen.Base.{
  ℕ, ◌+◌, ◌-◌, ◌*◌, ◌/◌, ◌%◌, ◌<◌, ◌≤◌, ◌≡◌, refl, ap, ◌∙◌, ◌≢◌, inl, inr, ◌⊎◌, true, false, ◌&&◌,
  Option, none, some, List, arith, leb, ltb, ◌==◌, if◌then◌else◌, length, get_or, tabulate,
  Bool-cases,
}
use operating_system_challen.Tls.Memory.{
  Memory, MemoryView, IsMemory, Access, closed, readable, writable,
}

-- The pages from address 0 to that of `next` are mapped.
pub record Ram : Type 0 where
  pub next : ℕ
  pub access : ℕ → Access
  pub byte : ℕ → ℕ

abbrev page_of : ℕ → ℕ
page_of a = a / 4096 * 4096

abbrev stored : ℕ → List ℕ → Ram → Ram
stored a bytes m = record m {
  byte = λ k. if leb a k && ltb k (a + length bytes) then get_or bytes (k - a) 0 else m.byte k;
}

abbrev pub ram : Memory Ram
ram = record {
  mmap = λ p m. (
    m.next * 4096,
    record {
      next = m.next + 1;
      access = λ a. if a == m.next * 4096 then p else m.access a;
      byte = λ k. if leb (m.next * 4096) k && ltb k (m.next * 4096 + 4096) then 0 else m.byte k;
    },
  );
  mprotect = λ a p m. record m { access = λ b. if b == a then p else m.access b };
  load = λ a n m. elim (if n == 0 then readable else m.access (page_of a)) [
    | closed ↦ none
    | readable ↦ some (tabulate m.byte a n)
    | writable ↦ some (tabulate m.byte a n)
  ];
  store = λ a bytes m. elim (if length bytes == 0 then writable else m.access (page_of a)) [
    | closed ↦ none
    | readable ↦ none
    | writable ↦ some (stored a bytes m)
  ];
}

abbrev pub ram_view : MemoryView Ram
ram_view = record {
  is_mapped = λ m a. (a % 4096 == 0) && ltb a (m.next * 4096);
  access = λ m a. m.access a;
  byte = λ m a. m.byte a;
}

IsMapped : Access → Ram → ℕ → Ram → Type 0
IsMapped p m a m' =
    (a % 4096 ≡ 0)
    × (ram_view.is_mapped m a ≡ false)
    × (ram_view.is_mapped m' a ≡ true)
    × (ram_view.access m' a ≡ p)
    × ((r : ℕ) → r < 4096 → ram_view.byte m' (a + r) ≡ 0)
    × ((b : ℕ) → ram_view.is_mapped m b ≡ true → ram_view.is_mapped m' b ≡ true)
    × ((k : ℕ) → (k < a) ⊎ (a + 4096 ≤ k) → ram_view.byte m' k ≡ ram_view.byte m k)

IsMapped-next : (p : Access) (m : Ram) → IsMapped p m (ram.mmap p m).0 (ram.mmap p m).1
unfolding IsMapped
IsMapped-next p m = (
  omega arith,
  ground arith,
  ground arith,
  ground arith,
  λ r lt. ground arith,
  λ b at. ground (arith, at),
  λ k away. elim away [ inl before ↦ ground (arith, before) | inr behind ↦ ground (arith, behind) ],
)

-- How the page of an address inside it can be used, where there is something to use.
inside_page :
    (a r n : ℕ) (d : Access) (m : Ram)
    → ram_view.is_mapped m a ≡ true
    → r + n ≤ 4096
    → (if n == 0 then d else m.access (page_of (a + r))) ≡ (if n == 0 then d else m.access a)
inside_page a r n d m mapped fits = elim (Bool-cases (n == 0)) [
  | inl nothing ↦ ground (arith, nothing)
  | inr some_bytes ↦
      let first : a % 4096 ≡ 0 = ground arith in
      let same : page_of (a + r) ≡ a = ground (arith, first) in
      ground (arith, some_bytes, ap m.access same)
]

load_allowed :
    (n : ℕ) (x : Access) (out : List ℕ)
    → x ≢ closed
    → elim (if n == 0 then readable else x) as (λ y. Option (List ℕ)) [
      | closed ↦ none
      | readable ↦ some out
      | writable ↦ some out
    ]
      ≡ some out
load_allowed n x out ne = elim (Bool-cases (n == 0)) [ inl e ↦ rw e refl | inr e ↦ rw e (go x ne) ]
  where
    go :
        (y : Access)
        → y ≢ closed
        → elim y as (λ z. Option (List ℕ)) [
          | closed ↦ none
          | readable ↦ some out
          | writable ↦ some out
        ]
          ≡ some out
    go closed h = absurd (h refl)
    go readable h = refl
    go writable h = refl

pub ram-IsMemory : IsMemory ram ram_view
unfolding IsMapped
ram-IsMemory = record {
  mmap_ok = λ p m m' a e. subst (λ (x : ℕ × Ram). IsMapped p m x.0 x.1) e (IsMapped-next p m);
  mprotect_ok = λ a p m mapped. (ground arith, λ b ne. ground arith, λ b. refl, λ k. refl);
  load_ok = λ a r n m mapped allowed fits.
      ap
        (λ (x : Access). elim x as (λ y. Option (List ℕ)) [
          | closed ↦ none
          | readable ↦ some (tabulate m.byte (a + r) n)
          | writable ↦ some (tabulate m.byte (a + r) n)
        ])
        (inside_page a r n readable m mapped fits)
      ∙ load_allowed n (m.access a) (tabulate m.byte (a + r) n) allowed;
  store_ok = λ a r bytes m mapped allowed fits.
      let same : (if length bytes == 0 then writable else m.access (page_of (a + r))) ≡ writable =
        inside_page a r (length bytes) writable m mapped fits ∙ ground (arith, allowed) in
      (stored (a + r) bytes m, rw (ram, same) refl, λ b. refl, λ b. refl, λ k. refl);
}
