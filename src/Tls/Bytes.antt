-- ===== src/Tls/Bytes.antt =====
-- Challenge4/tls.c: what opening a page and writing to a page that one storage owns change.
use operating_system_challen.Base.{
  ℕ, ◌+◌, ◌-◌, ◌*◌, ◌/◌, ◌%◌, ◌≤◌, ◌<◌, ◌≡◌, refl, ap, ap₂, ◌∙◌, ◌≢◌, ◌⊎◌, inl, inr, true, false,
  ◌&&◌, Option, none, some, List, [], ◌++◌, arith, ◌==◌, leb, ltb, if◌then◌else◌, get_elem?, get_or,
  length, Option-cases, Bool-cases, done, length-append, get_or-append_left, get_or-append_right,
}
use operating_system_challen.Tls.Memory.{Memory, MemoryView, IsMemory, Access, writable}
use operating_system_challen.Tls.Types.{Page, TlsState, page_size}
use operating_system_challen.Tls.Table.{page_at}
use operating_system_challen.Tls.Pages.{protect}
use operating_system_challen.Tls.Invariant.{Inv, Wrote, byte_at}
use operating_system_challen.Tls.Lookup.{page_at-some, shared_page}

-- A change of `bytes` at `o` in row `i`, as it is seen at `q` in row `j`.
abbrev patch : (i o : ℕ) → List ℕ → (j q : ℕ) → Option ℕ → Option ℕ
patch i o bytes j q x =
    if (j == i) && (leb o q && ltb q (o + length bytes)) then some (get_or bytes (q - o) 0) else x

patch-patch :
    (i o : ℕ) (bs cs : List ℕ) (j q : ℕ) (x : Option ℕ)
    → patch i (o + length bs) cs j q (patch i o bs j q x) ≡ patch i o (bs ++ cs) j q x
patch-patch i o bs cs j q x = elim (Bool-cases (ltb q (o + length bs))) [
  | inl before ↦ elim (Bool-cases (leb o q)) [
    | inl in_first ↦
        let e = get_or-append_left bs cs (q - o) (ground arith) in
        ground (arith, e, length-append {0} bs cs)
    | inr earlier ↦ ground (arith, length-append {0} bs cs)
  ]
  | inr behind ↦
      let e = get_or-append_right bs cs (q - (o + length bs)) (q - o) (ground arith) in
      ground (arith, e, length-append {0} bs cs)
]

patch-outside :
    (i o : ℕ) (bytes : List ℕ) (j q : ℕ) (x : Option ℕ)
    → (j ≡ i → o ≤ q → q < o + length bytes → ⊥)
    → patch i o bytes j q x ≡ x
patch-outside i o bytes j q x out =
    elim (Bool-cases ((j == i) && (leb o q && ltb q (o + length bytes)))) [
      | inl hit ↦ absurd (out (ground arith) (ground arith) (ground arith))
      | inr miss ↦ rw miss refl
    ]

module _ {M : Type 0} (v : MemoryView M) where
  pub Wrote-trans :
      (i o : ℕ) (bs cs : List ℕ) (s s1 s2 : TlsState M)
      → Wrote v i o bs s s1
      → Wrote v i (o + length bs) cs s1 s2
      → Wrote v i o (bs ++ cs) s s2
  Wrote-trans i o bs cs s s1 s2 a b = record {
    seen =
        λ j q. ground (arith, a.seen j q, b.seen j q, patch-patch i o bs cs j q (byte_at v j q s));
    same_sizes = λ j. b.same_sizes j ∙ a.same_sizes j;
    same_threads = λ tid. b.same_threads tid ∙ a.same_threads tid;
    same_first = b.same_first ∙ a.same_first;
  }

  -- Nothing that can be seen changed.
  pub Wrote-nothing :
      (i o : ℕ) (s s' : TlsState M)
      → ((j q : ℕ) → byte_at v j q s' ≡ byte_at v j q s)
      → s'.table ≡ s.table
      → s'.first_call ≡ s.first_call
      → Wrote v i o [] s s'
  Wrote-nothing i o s s' seen table first = record {
    seen = λ j q. ground (arith, seen j q);
    same_sizes = λ j. ground (arith, table);
    same_threads = λ tid. rw table refl;
    same_first = first;
  }

  pub Inv-memory :
      (s : TlsState M) (m : M)
      → Inv v s
      → ((p : ℕ) (g : Page) → get_elem? s.heap p ≡ some g → v.is_mapped m g.addr ≡ true)
      → Inv v (record s { memory = m })
  Inv-memory s m inv mapped = record {
    entries = inv.entries;
    in_table = inv.in_table;
    page_ok = λ p g at. (mapped p g at, (inv.page_ok p g at).1);
    apart = inv.apart;
    owned = inv.owned;
    counted = inv.counted;
    sized = inv.sized;
    assigned = inv.assigned;
    small = inv.small;
  }

module _ {M : Type 0} (h : Memory M) (v : MemoryView M) (laws : IsMemory h v) (s : TlsState M)
    (inv : Inv v s) (i n p : ℕ) (g : Page) (at : page_at i n s ≡ some (p, g)) where
  in_heap : get_elem? s.heap p ≡ some g
  in_heap = let (t, _, _, c) = page_at-some s i n p g at in c

  -- `mprotect` of a page of a storage.
  pub protect_ok :
      (prot : Access)
      → (s' : TlsState M) × (protect h i n prot s ≡ done s')
        × (s' ≡ record s { memory = h.mprotect g.addr prot s.memory })
        × Inv v s'
        × ((o : ℕ) → Wrote v i o [] s s')
        × (page_at i n s' ≡ some (p, g))
        × (v.access s'.memory g.addr ≡ prot)
        × ((k : ℕ) → v.byte s'.memory k ≡ v.byte s.memory k)
  unfolding protect
  protect_ok prot =
      let m = h.mprotect g.addr prot s.memory in
      let ok = laws.mprotect_ok g.addr prot s.memory (inv.page_ok p g in_heap).0 in
      (
        record s { memory = m },
        rw (at) refl,
        refl,
        Inv-memory v s m inv (λ q f bt. ok.2 f.addr ∙ (inv.page_ok q f bt).0),
        λ o. Wrote-nothing v i o s (record s { memory = m }) (λ j q. same m ok.3 j q) refl refl,
        at,
        ok.0,
        ok.3,
      )
    where
      same :
          (m : M)
          → ((k : ℕ) → v.byte m k ≡ v.byte s.memory k)
          → (j q : ℕ) → byte_at v j q (record s { memory = m }) ≡ byte_at v j q s
      same m bytes j q = elim (Option-cases (page_at j (q / page_size) s)) [
        | inl e ↦ ground (arith, e)
        | inr ((k, f), e) ↦ ground (arith, e, bytes (f.addr + q % page_size))
      ]

  -- A write inside a page that is open and that no other storage has.
  pub store_in_page :
      (r : ℕ) (bytes : List ℕ)
      → g.ref_count < 2
      → v.access s.memory g.addr ≡ writable
      → r + length bytes ≤ page_size
      → (m : M) × (h.store (g.addr + r) bytes s.memory ≡ some m)
        × Inv v (record s { memory = m })
        × Wrote v i (n * page_size + r) bytes s (record s { memory = m })
        × (v.access m g.addr ≡ writable)
  store_in_page r bytes single open_ fits =
      let (m, stored, access, mapped, byte) =
        laws.store_ok g.addr r bytes s.memory (inv.page_ok p g in_heap).0 open_ fits in
      (
        m,
        stored,
        Inv-memory v s m inv (λ q f bt. mapped f.addr ∙ (inv.page_ok q f bt).0),
        record {
          seen = λ j q. elim (Option-cases (page_at j (q / page_size) s)) [
            | inl e ↦ ground (arith, e, unseen j q e)
            | inr ((k, f), e) ↦ ground (arith, e, seen m byte j q k f e)
          ];
          same_sizes = λ j. refl;
          same_threads = λ tid. refl;
          same_first = refl;
        },
        access g.addr ∙ open_,
      )
    where
      start : ℕ
      start = n * page_size + r

      unseen : (j q : ℕ) → page_at j (q / page_size) s ≡ none → patch i start bytes j q none ≡ none
      unseen j q e = patch-outside i start bytes j q none λ same lo hi.
          let page : q / page_size ≡ n = omega arith in
          ground (arith, e, at, ap₂ (λ (x y : ℕ). page_at x y s) same page)

      found :
          (k : ℕ) (f : Page) (j q : ℕ)
          → page_at j (q / page_size) s ≡ some (k, f)
          → get_elem? s.heap k ≡ some f
      found k f j q e = let (t, _, _, c) = page_at-some s j (q / page_size) k f e in c

      twice :
          (k : ℕ) (f : Page) (j q : ℕ)
          → page_at j (q / page_size) s ≡ some (k, f)
          → k ≡ p
          → (i ≢ j) ⊎ (n ≢ q / page_size)
          → ⊥
      twice k f j q e same apart =
          let e' : page_at j (q / page_size) s ≡ some (p, f) =
            e ∙ ap (λ (x : ℕ). some (x, f)) same in
          let many = shared_page v s inv i n j (q / page_size) p g f at e' apart in omega arith

      apart_of :
          (j q : ℕ) → ((j == i) && (q / page_size == n)) ≡ false → (i ≢ j) ⊎ (n ≢ q / page_size)
      apart_of j q e = elim (Bool-cases (j == i)) [
        | inl same ↦ inr (ground arith)
        | inr ne ↦ inl (ground arith)
      ]

      seen :
          (m : M)
          → ((k : ℕ)
              → v.byte m k ≡ (
                  if leb (g.addr + r) k && ltb k (g.addr + r + length bytes)
                  then get_or bytes (k - (g.addr + r)) 0
                  else v.byte s.memory k))
          → (j q k : ℕ) (f : Page) → page_at j (q / page_size) s ≡ some (k, f)
          → some (v.byte m (f.addr + q % page_size))
            ≡ patch i start bytes j q (some (v.byte s.memory (f.addr + q % page_size)))
      seen m byte j q k f e = elim (Bool-cases ((j == i) && (q / page_size == n))) [
        | inl here ↦
            let same_j : j ≡ i = ground arith in
            let same_n : q / page_size ≡ n = ground arith in
            let same_f : f ≡ g =
              ground (arith, e, at, ap₂ (λ (x y : ℕ). page_at x y s) same_j same_n) in
            let same_addr : f.addr ≡ g.addr = ap (λ (x : Page). x.addr) same_f in
            let index : f.addr + q % page_size - (g.addr + r) ≡ q - start = omega arith in
            ground (arith, byte (f.addr + q % page_size), ap (λ (x : ℕ). get_or bytes x 0) index)
        | inr there ↦
            let other : k ≢ p = λ same. twice k f j q e same (apart_of j q there) in
            let away : f.addr ≢ g.addr =
              λ same. other (inv.apart k p f g (found k f j q e) in_heap same) in
            let af : f.addr % page_size ≡ 0 = (inv.page_ok k f (found k f j q e)).1 in
            let ag : g.addr % page_size ≡ 0 = (inv.page_ok p g in_heap).1 in
            let out : (leb (g.addr + r) (f.addr + q % page_size)
                  && ltb (f.addr + q % page_size) (g.addr + r + length bytes))
                ≡ false =
              ground arith in
            let miss =
              patch-outside i start bytes j q (some (v.byte s.memory (f.addr + q % page_size)))
                (λ same lo hi. ground arith) in
            ground (arith, byte (f.addr + q % page_size), out, miss)
      ]
