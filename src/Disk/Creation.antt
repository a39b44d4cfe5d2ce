-- ===== src/Disk/Creation.antt =====
-- Challenge5/disk.c: `make_disk`, `open_disk` and `close_disk`.
use operating_system_challen.Base.{
  tabulate, tabulate-get_or, ℕ, zero, suc, ◌+◌, ◌-◌, ◌*◌, ◌≤◌, ◌<◌, ◌≡◌, refl, sym, ◌∙◌, true,
  false, none, some, List, arith, le→leb, inl, inr, Bool-cases, Option-cases, replicate,
  get_or-replicate, length-replicate,
}
use operating_system_challen.Device.{FileName, SameDisks}
use operating_system_challen.Fs.Types.{block_size, disk_blocks}
use operating_system_challen.Disk.Posix.{Host, HostView, IsHost, SameFiles}
use operating_system_challen.Disk.{DiskState, write_zeros, make_disk, open_disk, close_disk}
use operating_system_challen.Disk.Blocks.{
  is_disk, current, disk_view, some-current, is_disk-le, SameFiles-disks,
}

module _ {H : Type 0} (h : Host H) (v : HostView H) (posix : IsHost h v) where
  -- The loop of `make_disk`: so many full blocks of zeros behind one another.
  abbrev pub Zeros : H → ℕ → FileName → ℕ → Type 0
  Zeros g f n end =
      (v.file g f ≡ some n)
      × (v.position g f ≡ end)
      × (end ≤ v.size g n)
      × ((k : ℕ) → k < end → v.byte g n k ≡ 0)

  pub one_block :
      (f : ℕ) (n : FileName) (from : ℕ) (g g' : H)
      → Zeros g f n from
      → h.write f (replicate block_size 0) g ≡ (true, g')
      → Zeros g' f n (from + 4096)
  one_block f n from g g' z e =
      let size = length-replicate {0} {A = ℕ} block_size 0 in
      let w = posix.write_ok f n (replicate block_size 0) g g' z.0 e in
      (
        w.0,
        omega (arith, w.1, size),
        ground (arith, w.2, size),
        λ k lt. ground (
          arith,
          w.3 k,
          size,
          z.3 k,
          get_or-replicate {0} {A = ℕ} block_size 0 (k - v.position g f),
        ),
      )

  pub blank :
      (n : FileName) (i : ℕ) {f : ℕ} (g g' : H)
      → Zeros g f n (0 + disk_blocks * 4096)
      → SameFiles v g g'
      → i < 8192
      → tabulate (v.byte g' n) (i * 4096) 4096 ≡ replicate 4096 0
  blank n i g g' z c lt =
      tabulate-get_or (replicate 4096 0) (v.byte g' n) (i * 4096) 4096
        (length-replicate {0} {A = ℕ} 4096 0)
        (λ k low.
          c.same_byte n (i * 4096 + k)
          ∙ (z.3 (i * 4096 + k) (omega arith) ∙ sym (get_or-replicate {0} {A = ℕ} 4096 0 k)))

  pub write_zeros-Zeros :
      (cnt f : ℕ) (n : FileName) (from : ℕ) (g g' : H)
      → Zeros g f n from
      → write_zeros h cnt f g ≡ (true, g')
      → Zeros g' f n (from + cnt * 4096)
  unfolding write_zeros
  write_zeros-Zeros zero f n from g g' z e =
      let same : g ≡ g' = ground arith in
      let end : from ≡ from + 0 * 4096 = omega arith in rw (← same, ← end) z
  write_zeros-Zeros (suc cnt) f n from g g' z e =
      let zeros : List ℕ = replicate block_size 0 in
      let g1 = (h.write f zeros g).1 in
      elim (Bool-cases (h.write f zeros g).0) [
        | inl ok ↦
            let end : from + 4096 + cnt * 4096 ≡ from + suc cnt * 4096 = omega arith in
            rw (← end) (
              write_zeros-Zeros cnt f n (from + 4096) g1 g'
                (one_block f n from g g1 z (ground arith)) (ground arith))
        | inr bad ↦ absurd (ground arith)
      ]

  pub open_disk_ok :
      (n : FileName) (s s' : DiskState H)
      → is_disk h v s n ≡ true
      → open_disk h n s ≡ (true, s')
      → (current h v s' ≡ some n) × SameDisks (disk_view h v) s s'
  unfolding open_disk
  open_disk_ok n s s' full e = elim (Bool-cases s.active) [
    | inl a ↦ absurd (ground arith)
    | inr a ↦ elim (Option-cases (h.open_rdwr n s.host).0) [
      | inl f ↦ absurd (ground arith)
      | inr (f, got) ↦
          let g = (h.open_rdwr n s.host).1 in
          let o = posix.open_rdwr_ok n f s.host g (ground arith) in
          let new : s' ≡ record { active = true; handle = f; host = g } = ground arith in
          rw new (
            some-current h v _ n refl o.0 (omega (arith, o.1.same_size n, is_disk-le h v s n full)),
            SameFiles-disks h v s _ o.1,
          )
    ]
  ]

  pub close_disk_ok :
      (s s' : DiskState H)
      → close_disk h s ≡ (true, s')
      → (current h v s' ≡ none) × SameDisks (disk_view h v) s s'
  unfolding close_disk current
  close_disk_ok s s' e = elim (Bool-cases s.active) [
    | inl a ↦
        let new : s' ≡ record { active = false; handle = 0; host = h.close s.handle s.host } =
          ground arith in
        rw new (refl, SameFiles-disks h v s _ (posix.close_ok s.handle s.host))
    | inr a ↦ absurd (ground arith)
  ]

  pub make_disk_ok :
      (n : FileName) (s s' : DiskState H)
      → make_disk h n s ≡ (true, s')
      → (is_disk h v s' n ≡ true)
        × ((i : ℕ) → i < 8192 → tabulate (v.byte s'.host n) (i * 4096) 4096 ≡ replicate 4096 0)
  unfolding make_disk is_disk
  make_disk_ok n s s' e = elim (Option-cases (h.open_create n s.host).0) [
    | inl f ↦ absurd (ground arith)
    | inr (f, got) ↦
        let g1 = (h.open_create n s.host).1 in
        let g2 = (write_zeros h disk_blocks f g1).1 in
        let o = posix.open_create_ok n f s.host g1 (ground arith) in
        elim (Bool-cases (write_zeros h disk_blocks f g1).0) [
          | inl ok ↦
              let z =
                write_zeros-Zeros disk_blocks f n 0 g1 g2
                  (o.0, o.1, omega arith, λ k lt. absurd (omega arith)) (ground arith) in
              let c = posix.close_ok f g2 in
              let new : s'.host ≡ h.close f g2 = ground arith in
              rw new (
                le→leb _ _ (omega (arith, c.same_size n, z.2)),
                λ i lt. blank n i g2 (h.close f g2) z c lt,
              )
          | inr bad ↦ absurd (ground arith)
        ]
  ]
