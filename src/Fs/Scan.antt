-- ===== src/Fs/Scan.antt =====
-- The search of `balloc`.
use operating_systems.Prelude.{
  ℕ, zero, suc, ◌+◌, ◌-◌, ◌*◌, ◌/◌, ◌%◌, ◌≤◌, ◌<◌, ◌≡◌, refl, sym, ap, ◌∙◌, subst, ◌⊎◌, inl, inr,
  Bool, true, false, Option, none, some, arith, ltb, ◌==◌, Bool-cases, update,
}
use operating_systems.Fs.{
  Disk, in_use, bblock, bpb, log_write, bzero, test_bit, set_bit, scan_map, take_block, balloc_loop,
}

-- The bit at place `j` of the block of the free map for the blocks from `b` on.
abbrev bit_at : ℕ → ℕ → Disk → Bool
bit_at b j d = test_bit (j % 8) (d.block (bblock b d.sb) (j / 8))

later : (P : ℕ → Type 0) (bi j : ℕ) → bi ≤ j → (bi + 1 ≤ j → P j) → P bi → P j
later P bi j lo far here = elim (Bool-cases (bi == j)) [
  | inl y ↦ subst P (ground arith) here
  | inr n ↦ far (ground arith)
]

scan_map_lem :
    (n b bi : ℕ) (d : Disk)
    → ((scan_map n b bi d ≡ none)
        × ((j : ℕ) → bi ≤ j → j < bi + n → b + j < d.sb.size → bit_at b j d ≡ true))
      ⊎ ((j : ℕ) × (scan_map n b bi d ≡ some j)
          × (bi ≤ j)
          × (j < bi + n)
          × (b + j < d.sb.size)
          × (bit_at b j d ≡ false)
          × ((k : ℕ) → bi ≤ k → k < j → bit_at b k d ≡ true))
unfolding scan_map
scan_map_lem zero b bi d = inl (refl, λ j lo hi s. absurd (omega arith))
scan_map_lem (suc n) b bi d = elim (Bool-cases (ltb (b + bi) d.sb.size)) [
  | inr out ↦ inl (
    rw out refl,
    λ j lo hi s. absurd (let large : d.sb.size ≤ b + bi = ground arith in omega arith),
  )
  | inl more ↦ elim (Bool-cases (bit_at b bi d)) [
    | inr free ↦ inr (
      bi,
      rw (more, free) refl,
      omega arith,
      omega arith,
      ground arith,
      free,
      λ k lo hi. absurd (omega arith),
    )
    | inl used ↦ elim (scan_map_lem n b (bi + 1) d) [
      | inl (e, all) ↦ inl (
        rw (more, used) e,
        λ j lo hi s.
            later (λ j. bit_at b j d ≡ true) bi j lo (λ far. all j far (omega arith) s) used,
      )
      | inr (j, e, lo, hi, s, free, all) ↦ inr (
        j,
        rw (more, used) e,
        omega arith,
        omega arith,
        s,
        free,
        λ k klo khi. later (λ j. bit_at b j d ≡ true) bi k klo (λ far. all k far khi) used,
      )
    ]
  ]
]

-- Block `x` marked in use and zeroed.
abbrev pub marked : ℕ → Disk → Disk
marked x d =
    let blk = d.block (bblock x d.sb) in
    log_write (bblock x d.sb) (update blk (x % bpb / 8) (set_bit (x % bpb % 8) (blk (x % bpb / 8))))
      d

abbrev pub claimed : ℕ → Disk → Disk
claimed x d = bzero x (marked x d)

take_block-claimed :
    (b j : ℕ) (d : Disk) → b % bpb ≡ 0 → j < bpb → take_block b j d ≡ (b + j, claimed (b + j) d)
take_block-claimed b j d h lt =
    let place : (b + j) % bpb ≡ j = omega arith in
    let block : (b + j) / bpb ≡ b / bpb = omega arith in rw (place, block) refl

bit_at-in_use : (b j : ℕ) (d : Disk) → b % bpb ≡ 0 → j < bpb → bit_at b j d ≡ in_use d (b + j)
unfolding in_use
bit_at-in_use b j d h lt =
    let place : (b + j) % bpb ≡ j = omega arith in
    let block : (b + j) / bpb ≡ b / bpb = omega arith in rw (place, block) refl

abbrev pub Searched : ℕ → Disk → Option (ℕ × Disk) → Type 0
Searched b d r =
    ((r ≡ none) × ((y : ℕ) → b ≤ y → y < d.sb.size → in_use d y ≡ true))
    ⊎ ((x : ℕ) × (r ≡ some (x, claimed x d))
        × (b ≤ x)
        × (x < d.sb.size)
        × (in_use d x ≡ false)
        × ((y : ℕ) → b ≤ y → y < x → in_use d y ≡ true))

-- The blocks of one block of the free map.
page_used :
    (b : ℕ) (d : Disk) (last : ℕ)
    → b % bpb ≡ 0
    → last ≤ bpb
    → ((j : ℕ) → 0 ≤ j → j < last → b + j < d.sb.size → bit_at b j d ≡ true)
    → (y : ℕ) → b ≤ y
    → y < b + last
    → y < d.sb.size
    → in_use d y ≡ true
page_used b d last al small all y lo hi s =
    let sum : b + (y - b) ≡ y = omega arith in
    subst (λ z. in_use d z ≡ true) sum
      (sym (bit_at-in_use b (y - b) d al (omega arith))
        ∙ all (y - b) (omega arith) (omega arith) (omega arith))

lt_or_le : (a b : ℕ) → (a < b) ⊎ (b ≤ a)
lt_or_le a b = ground arith

pub balloc_loop_lem :
    (rounds b : ℕ) (d : Disk)
    → b % bpb ≡ 0
    → d.sb.size ≤ b + rounds * bpb
    → Searched b d (balloc_loop rounds b d)
unfolding balloc_loop
balloc_loop_lem zero b d al enough = inl (refl, λ y lo hi. absurd (omega arith))
balloc_loop_lem (suc rounds) b d al enough = elim (Bool-cases (ltb b d.sb.size)) [
  | inr out ↦
      inl (rw out refl, λ y lo hi. absurd (let large : d.sb.size ≤ b = ground arith in omega arith))
  | inl more ↦ elim (scan_map_lem bpb b 0 d) [
    | inr (j, e, lo, hi, s, free, all) ↦ inr (
      b + j,
      rw (more, e) (ap some (take_block-claimed b j d al hi)),
      omega arith,
      s,
      sym (bit_at-in_use b j d al hi) ∙ free,
      λ y ylo yhi.
          page_used b d j al (omega arith) (λ k klo khi ks. all k klo khi) y ylo yhi (omega arith),
    )
    | inl (e, all) ↦
        let here = page_used b d bpb al (omega arith) all in
        elim (balloc_loop_lem rounds (b + bpb) d (omega arith) (omega arith)) [
          | inl (r, rest) ↦ inl (
            rw (more, e) r,
            λ y lo hi. elim (lt_or_le y (b + bpb)) [
              | inl near ↦ here y lo near (omega arith)
              | inr far ↦ rest y far hi
            ],
          )
          | inr (x, r, lo, hi, free, rest) ↦ inr (
            x,
            rw (more, e) r,
            omega arith,
            hi,
            free,
            λ y ylo yhi. elim (lt_or_le y (b + bpb)) [
              | inl near ↦ here y ylo near (omega arith)
              | inr far ↦ rest y far yhi
            ],
          )
        ]
  ]
]
