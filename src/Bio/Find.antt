-- ===== src/Bio/Find.antt =====
-- What the two searches of `bget` find.
use operating_systems.Prelude.{
  ℕ, ◌<◌, ◌≡◌, refl, subst, ◌⊎◌, inl, inr, true, false, none, some, List, [], ◌∷◌, arith, ◌==◌,
  Bool-cases, has,
}
use operating_systems.Bio.{Buf, is_for, find, find_unused}

-- No buffer of the list is for the block.
abbrev pub Absent : (ℕ → Buf) → ℕ → ℕ → List ℕ → Type 0
Absent buf dev blockno order = (x : ℕ) → has order x ≡ true → is_for (buf x) dev blockno ≡ false

pub find_lem :
    (buf : ℕ → Buf) (dev blockno : ℕ) (order : List ℕ)
    → ((find buf dev blockno order ≡ none) × Absent buf dev blockno order)
      ⊎ ((b : ℕ) × (find buf dev blockno order ≡ some b)
          × (has order b ≡ true)
          × (is_for (buf b) dev blockno ≡ true))
unfolding find
find_lem buf dev blockno [] = inl (refl, λ x h. absurd cc)
find_lem buf dev blockno (b ∷ order) = elim (Bool-cases (is_for (buf b) dev blockno)) [
  | inl y ↦ inr (b, rw y refl, ground arith, y)
  | inr n ↦ elim (find_lem buf dev blockno order) [
    | inl (e, absent) ↦ inl (
      rw n e,
      λ x h. elim (Bool-cases (b == x)) [
        | inl same ↦ subst (λ z. is_for (buf z) dev blockno ≡ false) (ground arith) n
        | inr other ↦ absent x (ground arith)
      ],
    )
    | inr (c, e, mem, is) ↦ inr (c, rw n e, ground arith, is)
  ]
]

pub find_unused_lem :
    (buf : ℕ → Buf) (order : List ℕ)
    → ((find_unused buf order ≡ none) × ((x : ℕ) → has order x ≡ true → 0 < (buf x).refcnt))
      ⊎ ((b : ℕ) × (find_unused buf order ≡ some b) × (has order b ≡ true) × ((buf b).refcnt ≡ 0))
unfolding find_unused
find_unused_lem buf [] = inl (refl, λ x h. absurd cc)
find_unused_lem buf (b ∷ order) = elim (find_unused_lem buf order) [
  | inr (c, e, mem, is) ↦ inr (c, rw e refl, ground arith, is)
  | inl (e, all) ↦ elim (Bool-cases ((buf b).refcnt == 0)) [
    | inl y ↦ inr (b, rw (e, y) refl, ground arith, ground arith)
    | inr n ↦ inl (
      rw (e, n) refl,
      λ x h. elim (Bool-cases (b == x)) [
        | inl same ↦
            let here : b ≡ x = ground arith in
            let used : 0 < (buf b).refcnt = ground arith in
            subst (λ z. 0 < (buf z).refcnt) here used
        | inr other ↦ all x (ground arith)
      ],
    )
  ]
]
