-- ===== src/Bio/Recycle.antt =====
-- A buffer that nobody uses is taken for a block that has none.
use operating_systems.Prelude.{
  ℕ, ◌≡◌, refl, sym, ap₂, ◌∙◌, subst, ◌≢◌, inl, inr, true, false, ◌&&◌, none, arith, ◌==◌,
  Bool-cases, has,
}
use operating_systems.Bio.{Buf, Cache, is_for, set_buf}
use operating_systems.Bio.Find.{Absent, find_lem}
use operating_systems.Bio.Current.{
  shown, current, IsValid, current_cached, current-Absent, SameBlocks,
}

-- The buffer `b` is taken for another block.
abbrev pub taken_for : ℕ → ℕ → Buf → Buf
taken_for dev blockno x = record x { dev = dev; blockno = blockno; valid = false; refcnt = 1 }

is_for_inv : (x : Buf) (d n e m : ℕ) → is_for (taken_for d n x) e m ≡ true → (d ≡ e) × (n ≡ m)
is_for_inv x d n e m h = ground arith

module _ (s : Cache) (dev blockno b : ℕ) (v : IsValid s) (absent : Absent s.buf dev blockno s.order)
    (mem : has s.order b ≡ true) (free : (s.buf b).refcnt ≡ 0) where
  abbrev pub recycled : Cache
  recycled = set_buf s b (taken_for dev blockno (s.buf b))

  at_b :
      (y d n : ℕ)
      → (b == y) ≡ true
      → is_for (recycled.buf y) d n ≡ is_for (taken_for dev blockno (s.buf b)) d n
  at_b y d n e = rw e refl

  at_other : (y d n : ℕ) → (b == y) ≡ false → is_for (recycled.buf y) d n ≡ is_for (s.buf y) d n
  at_other y d n e = rw e refl

  -- Another buffer is not for the block.
  alone :
      (y z d n : ℕ)
      → (b == y) ≡ true
      → (b == z) ≡ false
      → has s.order z ≡ true
      → is_for (recycled.buf y) d n ≡ true
      → is_for (recycled.buf z) d n ≡ true
      → ⊥
  alone y z d n ey ez mz iy iz =
      let (ed, en) = is_for_inv (s.buf b) dev blockno d n (sym (at_b y d n ey) ∙ iy) in
      let is : is_for (s.buf z) d n ≡ true = sym (at_other z d n ez) ∙ iz in
      let no_buffer : is_for (s.buf z) d n ≡ false =
        subst (λ m. is_for (s.buf z) d m ≡ false) en
          (subst (λ e. is_for (s.buf z) e blockno ≡ false) ed (absent z mz)) in
      cc

  pub recycled-IsValid : IsValid recycled
  recycled-IsValid = record { one_buffer = one; clean = clean; unlocked = unlocked }
    where
      one :
          (y z d n : ℕ)
          → has s.order y ≡ true
          → has s.order z ≡ true
          → d ≢ 0
          → is_for (recycled.buf y) d n ≡ true
          → is_for (recycled.buf z) d n ≡ true
          → y ≡ z
      one y z d n my mz ne iy iz = elim (Bool-cases (b == y)) [
        | inl ey ↦ elim (Bool-cases (b == z)) [
          | inl ez ↦ ground arith
          | inr ez ↦ absurd (alone y z d n ey ez mz iy iz)
        ]
        | inr ey ↦ elim (Bool-cases (b == z)) [
          | inl ez ↦ absurd (alone z y d n ez ey my iz iy)
          | inr ez ↦
              v.one_buffer y z d n my mz ne (sym (at_other y d n ey) ∙ iy)
                (sym (at_other z d n ez) ∙ iz)
        ]
      ]

      clean :
          (y : ℕ)
          → has s.order y ≡ true
          → (recycled.buf y).refcnt ≡ 0
          → (recycled.buf y).valid ≡ true
          → (recycled.buf y).content ≡ s.disk (recycled.buf y).dev (recycled.buf y).blockno
      clean y my = elim (Bool-cases (b == y)) [
        | inl e ↦ rw e (λ z ok. cc)
        | inr e ↦ rw e (v.clean y my)
      ]

      unlocked :
          (y : ℕ)
          → has s.order y ≡ true
          → (recycled.buf y).refcnt ≡ 0
          → (recycled.buf y).holder ≡ none
      unlocked y my = elim (Bool-cases (b == y)) [
        | inl e ↦ rw e (λ z. cc)
        | inr e ↦ rw e (v.unlocked y my)
      ]

  -- What an unused buffer shows is on the disk.
  unused_shown : shown s b ≡ s.disk (s.buf b).dev (s.buf b).blockno
  unused_shown = elim (Bool-cases (s.buf b).valid) [
    | inl y ↦ rw y (v.clean b mem free y)
    | inr n ↦ rw n refl
  ]

  self : (b == b) ≡ true
  self = ground arith

  this_block : dev ≢ 0 → current recycled dev blockno ≡ current s dev blockno
  this_block nd =
      let is : is_for (recycled.buf b) dev blockno ≡ true =
        at_b b dev blockno self ∙ ground arith in
      let value : shown recycled b ≡ s.disk dev blockno = rw self refl in
      current_cached recycled dev blockno b recycled-IsValid nd mem is
      ∙ value
      ∙ sym (current-Absent s dev blockno absent)

  -- A block whose buffer was not `b`, or that had none, keeps it.
  gone :
      (d n : ℕ)
      → is_for (taken_for dev blockno (s.buf b)) d n ≡ false
      → ((y : ℕ) → (b == y) ≡ false → has s.order y ≡ true → is_for (s.buf y) d n ≡ false)
      → current recycled d n ≡ s.disk d n
  gone d n other rest = current-Absent recycled d n (λ y my. elim (Bool-cases (b == y)) [
    | inl e ↦ at_b y d n e ∙ other
    | inr e ↦ at_other y d n e ∙ rest y e my
  ])

  no_second :
      (d n c y : ℕ)
      → d ≢ 0
      → (b == c) ≡ true
      → (b == y) ≡ false
      → has s.order c ≡ true
      → has s.order y ≡ true
      → is_for (s.buf c) d n ≡ true
      → is_for (s.buf y) d n ≡ false
  no_second d n c y ne ec ey mc my is = elim (Bool-cases (is_for (s.buf y) d n)) [
    | inr no_buffer ↦ no_buffer
    | inl is_y ↦ (let same = v.one_buffer c y d n mc my ne is is_y in ground arith)
  ]

  other_block :
      (d n : ℕ)
      → d ≢ 0
      → is_for (taken_for dev blockno (s.buf b)) d n ≡ false
      → current recycled d n ≡ current s d n
  other_block d n ne other = elim (find_lem s.buf d n s.order) [
    | inl (e, no_one) ↦ gone d n other (λ y ey my. no_one y my) ∙ sym (current-Absent s d n no_one)
    | inr (c, e, mc, is) ↦ elim (Bool-cases (b == c)) [
      | inl ec ↦
          let here : b ≡ c = ground arith in
          let is_b : is_for (s.buf b) d n ≡ true =
            subst (λ z. is_for (s.buf z) d n ≡ true) (sym here) is in
          let ed : (s.buf b).dev ≡ d = ground arith in
          let en : (s.buf b).blockno ≡ n = ground arith in
          gone d n other (λ y ey my. no_second d n c y ne ec ey mc my is)
          ∙ ap₂ s.disk (sym ed) (sym en)
          ∙ sym (current_cached s d n b v ne mem is_b ∙ unused_shown)
      | inr ec ↦
          let value : shown recycled c ≡ shown s c = rw ec refl in
          current_cached recycled d n c recycled-IsValid ne mc (at_other c d n ec ∙ is)
          ∙ value
          ∙ sym (current_cached s d n c v ne mc is)
    ]
  ]

  pub recycled-SameBlocks : dev ≢ 0 → SameBlocks s recycled
  recycled-SameBlocks nd d n ne = elim (Bool-cases ((dev == d) && (blockno == n))) [
    | inl y ↦
        let ed : dev ≡ d = ground arith in
        let en : blockno ≡ n = ground arith in
        subst (λ m. current recycled d m ≡ current s d m) en
          (subst (λ e. current recycled e blockno ≡ current s e blockno) ed (this_block nd))
    | inr other ↦ other_block d n ne other
  ]
