-- ===== src/Tests/Storages.antt =====
-- A thread with a storage of two pages, and the calls of tls.h on it.
use mathlib.Core.Path.{subst, sym}
use operating_system_challen.Base.{
  pos, ◌^◌, ◌+◌, ℕ, zero, suc, ◌-◌, ◌*◌, ◌<◌, ◌≡◌, refl, ◌≢◌, true, false, none, some, List, [],
  ◌∷◌, arith, leb, ltb, ◌&&◌, if◌then◌else◌, get_or, replicate, get_elem?, get_elem?-replicate,
  done, find_index as first_index,
}
use operating_system_challen.Tls.Memory.{closed}
use operating_system_challen.Tls.Types.{Page, Storage, Pair, TlsState, empty_tls}
use operating_system_challen.Tls.Table.{tls_at, page_at}
use operating_system_challen.Tls.Transfer.{c_string}
use operating_system_challen.Tls.Allocation.{tls_create-blank}
use operating_system_challen.Tls.Sizes.{round_up, float_of, to_float, round_even}
use operating_system_challen.Tls.Calls.{tls_create, tls_clone, tls_read, tls_write}
use operating_system_challen.Tls.Refs.{refs, count}
use operating_system_challen.Tls.Invariant.{Inv, Wrote, IsCaller, byte_at}
use operating_system_challen.Tls.Entry.{IsNew}
use operating_system_challen.Tls.Sharing.{tls_clone-shares}
use operating_system_challen.Tls.Lookup.{tls_at-some}
use operating_system_challen.Tls.Writing.{tls_write-across}
use operating_system_challen.Tls.ReadLoop.{DidRead}
use operating_system_challen.Tls.Reading.{tls_read-reads, tls_read-past_end}
use operating_system_challen.Tls.RoundTrip.{tls_write-tls_read, tls_clone-tls_write}
use operating_system_challen.Tests.Ram.{Ram, ram, ram_view, ram-IsMemory}

abbrev unused : Pair
unused = record { tid = 0; tls = none }

abbrev storage : Storage
storage = record { tid = 7; size = 8000; page_num = 2; pages = 0 ∷ 1 ∷ [] }

abbrev one_storage : TlsState Ram
one_storage = record {
  first_call = false;
  table = record { tid = 7; tls = some storage } ∷ empty_tls ∷ replicate 126 unused;
  max_index = 1;
  heap = record { addr = 0; ref_count = 1 } ∷ record { addr = 4096; ref_count = 1 } ∷ [];
  memory = record { next = 2; access = λ a. closed; byte = λ k. 0 };
}

only_first : (i : ℕ) (t : Storage) → tls_at i one_storage ≡ some t → (i ≡ 0) × (storage ≡ t)
only_first zero t at = (refl, ground (arith, at))
only_first (suc zero) t at = absurd (ground (arith, at))
only_first (suc (suc i)) t at =
    let (e, bt, has) = tls_at-some one_storage (suc (suc i)) t at in
    let blank : e ≡ unused = get_elem?-replicate 126 i unused bt in
    absurd (ground (arith, blank, has))

page_of_two :
    (p : ℕ) (g : Page)
    → get_elem? one_storage.heap p ≡ some g
    → (p < 2) × (g.addr ≡ p * 4096) × (g.ref_count ≡ 1)
page_of_two zero g at = (omega arith, ground (arith, at), ground (arith, at))
page_of_two (suc zero) g at = (omega arith, ground (arith, at), ground (arith, at))
page_of_two (suc (suc p)) g at = absurd (ground (arith, at))

page_below_two : (k p : ℕ) → get_elem? storage.pages k ≡ some p → p < 2
page_below_two zero p at = ground (arith, at)
page_below_two (suc zero) p at = ground (arith, at)
page_below_two (suc (suc k)) p at = absurd (ground (arith, at))

one_storage-Inv : Inv ram_view one_storage
unfolding refs count first_index
one_storage-Inv = record {
  entries = refl;
  in_table = omega arith;
  page_ok = λ p g at.
      let (lt, addr, _) = page_of_two p g at in (ground (arith, lt, addr), omega (arith, addr));
  apart = λ p q f g at bt same.
      let (_, addr, _) = page_of_two p f at in
      let (_, addr', _) = page_of_two q g bt in omega (arith, addr, addr', same);
  owned = λ i t k p at bt.
      let (_, same) = only_first i t at in
      page_below_two k p (subst (λ (x : Storage). get_elem? x.pages k ≡ some p) (sym same) bt);
  counted = λ p g at. let (lt, _, one) = page_of_two p g at in ground (arith, lt, one);
  sized = λ i t at. let (_, same) = only_first i t at in ground (arith, same);
  assigned = λ i t at. let (first, _) = only_first i t at in omega (arith, first);
  small = λ i t at. let (_, same) = only_first i t at in ground (arith, same);
}

caller : IsCaller 7 one_storage 0 storage
unfolding first_index
caller = record { started = refl; found = refl; has = refl }

newcomer : IsNew 9 one_storage
unfolding first_index
newcomer = record {
  started = refl;
  unknown = refl;
  proper = λ e. omega (arith, e);
  room = omega arith;
}

tls_clone-shares_example :
    (s' : TlsState Ram) × (tls_clone 9 7 one_storage ≡ done (true, s'))
    × Inv ram_view s'
    × ((o : ℕ) → byte_at ram_view 1 o s' ≡ byte_at ram_view 0 o one_storage)
    × ((k o : ℕ) → k ≢ 1 → byte_at ram_view k o s' ≡ byte_at ram_view k o one_storage)
    × IsCaller 9 s' 1 (record storage { tid = 9 })
tls_clone-shares_example =
    tls_clone-shares ram_view 9 7 one_storage one_storage-Inv newcomer 0 storage caller

tls_clone-tls_write_example :
    (s1 s2 : TlsState Ram) × (tls_clone 9 7 one_storage ≡ done (true, s1))
    × (tls_write ram 9 4100 2 (5 ∷ 6 ∷ 7 ∷ []) s1 ≡ done (true, s2))
    × ((o : ℕ)
        → byte_at ram_view 1 o s2 ≡ (
            if leb 4100 o && ltb o 4102
            then some (get_or (5 ∷ 6 ∷ []) (o - 4100) 0)
            else byte_at ram_view 0 o one_storage))
    × ((k o : ℕ) → k ≢ 1 → byte_at ram_view k o s2 ≡ byte_at ram_view k o one_storage)
tls_clone-tls_write_example =
    tls_clone-tls_write ram ram_view ram-IsMemory 9 7 one_storage one_storage-Inv newcomer 0 storage
      caller 4100 2 (5 ∷ 6 ∷ 7 ∷ []) (omega arith) (omega arith) (omega arith)

tls_write-tls_read_example :
    (s1 s2 : TlsState Ram) × (tls_write ram 7 4100 2 (5 ∷ 6 ∷ 7 ∷ []) one_storage ≡ done (true, s1))
    × (tls_read ram 7 4100 2 s1 ≡ done (true, 5 ∷ 6 ∷ [], s2))
tls_write-tls_read_example =
    tls_write-tls_read ram ram_view ram-IsMemory 7 0 storage one_storage one_storage-Inv caller 4100
      2 (5 ∷ 6 ∷ 7 ∷ []) (omega arith) (omega arith) (omega arith)

tls_write-across_example :
    (s' : TlsState Ram) × (tls_write ram 7 4090 8 (5 ∷ 6 ∷ 0 ∷ 7 ∷ []) one_storage
      ≡ done (true, s'))
    × Inv ram_view s'
    × Wrote ram_view 0 4090 (5 ∷ 6 ∷ []) one_storage s'
unfolding c_string
tls_write-across_example =
    tls_write-across ram ram_view ram-IsMemory 7 0 storage one_storage one_storage-Inv caller 4090 8
      (omega arith) (omega arith) (5 ∷ 6 ∷ 0 ∷ 7 ∷ []) (5 ∷ 6 ∷ []) (omega arith) refl

tls_read-reads_example :
    (out : List ℕ) × (s' : TlsState Ram) × (tls_read ram 7 4090 8 one_storage
      ≡ done (true, out, s'))
    × Inv ram_view s'
    × ((o : ℕ) → Wrote ram_view 0 o [] one_storage s')
    × DidRead ram_view 0 4090 8 out one_storage
tls_read-reads_example =
    tls_read-reads ram ram_view ram-IsMemory 7 0 storage one_storage one_storage-Inv caller 4090 8
      (omega arith) (omega arith) (omega arith)

tls_read-past_end_example :
    (s' : TlsState Ram) × (p : ℕ) × (g : Page) × (tls_read ram 7 8190 8 one_storage
      ≡ done (false, [], s'))
    × Inv ram_view s'
    × ((o : ℕ) → Wrote ram_view 0 o [] one_storage s')
    × (page_at 0 1 s' ≡ some (p, g))
    × (ram_view.access s'.memory g.addr ≢ closed)
tls_read-past_end_example =
    tls_read-past_end ram ram_view ram-IsMemory 7 0 storage one_storage one_storage-Inv caller 8190
      8 (omega arith) (omega arith) (omega arith)

tls_create-blank_example :
    (s' : TlsState Ram) × (t : Storage) × (tls_create ram 9 5000 one_storage ≡ done (true, s'))
    × Inv ram_view s'
    × IsCaller 9 s' 1 t
    × (t.page_num ≡ 2)
    × ((o : ℕ) → o < 8192 → byte_at ram_view 1 o s' ≡ some 0)
    × ((k o : ℕ) → k ≢ 1 → byte_at ram_view k o s' ≡ byte_at ram_view k o one_storage)
tls_create-blank_example =
    tls_create-blank ram ram_view ram-IsMemory 9 5000 one_storage one_storage-Inv newcomer
      (λ e. omega (arith, e)) (omega arith)

-- A `float` has no room for the last bit of 2 ^ 24 + 1: the last byte has no page.
round_up-too_small : round_up (2 ^ 24 + 1) ≡ pos 4096
unfolding round_up float_of to_float round_even
round_up-too_small = refl
