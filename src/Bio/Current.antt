-- ===== src/Bio/Current.antt =====
-- The cache as a store of blocks: what a reader of a block is to see.
use operating_systems.Prelude.{
  ℕ, ◌≡◌, refl, sym, ap, ◌∙◌, ◌≢◌, inl, inr, true, false, none, some, List, arith, ◌==◌,
  if◌then◌else◌, Bool-cases, update, has,
}
use operating_systems.Bio.{Block, Buf, Cache, is_for, find}
use operating_systems.Bio.Find.{Absent, find_lem}

-- A block is what a valid buffer for it holds, and else what stands on the disk.
abbrev pub shown : Cache → ℕ → Block
shown s b = if (s.buf b).valid then (s.buf b).content else s.disk (s.buf b).dev (s.buf b).blockno

unfoldable pub current : Cache → ℕ → ℕ → Block
current s dev blockno = elim (find s.buf dev blockno s.order) [
  | none ↦ s.disk dev blockno
  | some b ↦ shown s b
]

-- Device 0 is no device: the buffers that have never been used are for it.
pub record IsValid (s : Cache) : Type 0 where
  -- At most one buffer is for a block.
  pub one_buffer :
      (x y d b : ℕ)
      → has s.order x ≡ true
      → has s.order y ≡ true
      → d ≢ 0
      → is_for (s.buf x) d b ≡ true
      → is_for (s.buf y) d b ≡ true
      → x ≡ y
  -- A buffer that nobody refers to holds what is on the disk.
  pub clean :
      (x : ℕ)
      → has s.order x ≡ true
      → (s.buf x).refcnt ≡ 0
      → (s.buf x).valid ≡ true
      → (s.buf x).content ≡ s.disk (s.buf x).dev (s.buf x).blockno
  -- Nor is it locked.
  pub unlocked : (x : ℕ) → has s.order x ≡ true → (s.buf x).refcnt ≡ 0 → (s.buf x).holder ≡ none

pub current_cached :
    (s : Cache) (dev blockno b : ℕ)
    → IsValid s
    → dev ≢ 0
    → has s.order b ≡ true
    → is_for (s.buf b) dev blockno ≡ true
    → current s dev blockno ≡ shown s b
unfolding current
current_cached s dev blockno b v ne mem is = elim (find_lem s.buf dev blockno s.order) [
  | inl (e, absent) ↦ (let clash = sym is ∙ absent b mem in absurd cc)
  | inr (c, e, mem_c, is_c) ↦
      rw (e, current) (ap (shown s) (v.one_buffer c b dev blockno mem_c mem ne is_c is))
]

pub current-Absent :
    (s : Cache) (dev blockno : ℕ)
    → Absent s.buf dev blockno s.order
    → current s dev blockno ≡ s.disk dev blockno
unfolding current
current-Absent s dev blockno absent = elim (find_lem s.buf dev blockno s.order) [
  | inl (e, also) ↦ rw (e, current) refl
  | inr (c, e, mem, is) ↦ (let clash = sym is ∙ absent c mem in absurd cc)
]

-- Every block is as before.
abbrev pub SameBlocks : Cache → Cache → Type 0
SameBlocks s t = (d b : ℕ) → d ≢ 0 → current t d b ≡ current s d b

-- A change of one buffer to another for the same block that shows the same.
pub record Alike (s : Cache) (b : ℕ) (x : Buf) : Type 0 where
  pub dev : x.dev ≡ (s.buf b).dev
  pub blockno : x.blockno ≡ (s.buf b).blockno
  pub shows : (if x.valid then x.content else s.disk x.dev x.blockno) ≡ shown s b
  pub clean : x.refcnt ≡ 0 → x.valid ≡ true → x.content ≡ s.disk x.dev x.blockno
  pub unlocked : x.refcnt ≡ 0 → x.holder ≡ none

key_same :
    (s : Cache) (b : ℕ) (x : Buf)
    → Alike s b x
    → (y d n : ℕ) → is_for (update s.buf b x y) d n ≡ is_for (s.buf y) d n
key_same s b x a y d n = elim (Bool-cases (b == y)) [
  | inl e ↦
      let here : b ≡ y = ground arith in
      rw e (rw a.dev (rw a.blockno (ap (λ z. is_for (s.buf z) d n) here)))
  | inr e ↦ rw e refl
]

-- The same buffers stand in the list.
abbrev pub SameList : Cache → List ℕ → Type 0
SameList s order = (y : ℕ) → has order y ≡ has s.order y

module _ (s : Cache) (b : ℕ) (x : Buf) (order : List ℕ) where
  abbrev after : Cache
  after = record { buf = update s.buf b x; order = order; disk = s.disk }

  set-IsValid : IsValid s → has s.order b ≡ true → SameList s order → Alike s b x → IsValid after
  set-IsValid v mem same a = record {
    one_buffer = λ y z d n my mz ne iy iz.
        v.one_buffer y z d n (sym (same y) ∙ my) (sym (same z) ∙ mz) ne
          (sym (key_same s b x a y d n) ∙ iy) (sym (key_same s b x a z d n) ∙ iz);
    clean = λ y my free ok. elim (Bool-cases (b == y)) [
      | inl e ↦ clean_here y e free ok
      | inr e ↦ clean_there y e my free ok
    ];
    unlocked = λ y my. elim (Bool-cases (b == y)) [
      | inl e ↦ unlocked_here y e
      | inr e ↦ unlocked_there y e my
    ];
  }
    where
      Clean : Buf → Type 0
      Clean z = z.refcnt ≡ 0 → z.valid ≡ true → z.content ≡ s.disk z.dev z.blockno

      Unlocked : Buf → Type 0
      Unlocked z = z.refcnt ≡ 0 → z.holder ≡ none

      unlocked_here : (y : ℕ) → (b == y) ≡ true → Unlocked (update s.buf b x y)
      unlocked_here y e = rw e a.unlocked

      unlocked_there :
          (y : ℕ) → (b == y) ≡ false → has order y ≡ true → Unlocked (update s.buf b x y)
      unlocked_there y e my = rw e (v.unlocked y (sym (same y) ∙ my))

      clean_here : (y : ℕ) → (b == y) ≡ true → Clean (update s.buf b x y)
      clean_here y e = rw e a.clean

      clean_there : (y : ℕ) → (b == y) ≡ false → has order y ≡ true → Clean (update s.buf b x y)
      clean_there y e my = rw e (v.clean y (sym (same y) ∙ my))

  shown_same : Alike s b x → (y : ℕ) → shown after y ≡ shown s y
  shown_same a y = elim (Bool-cases (b == y)) [
    | inl e ↦ let here : b ≡ y = ground arith in rw e (a.shows ∙ ap (shown s) here)
    | inr e ↦ rw e refl
  ]

  -- It changes no block.
  pub set_lem :
      IsValid s
      → has s.order b ≡ true
      → SameList s order
      → Alike s b x
      → IsValid (record { buf = update s.buf b x; order = order; disk = s.disk })
        × SameBlocks s (record { buf = update s.buf b x; order = order; disk = s.disk })
  set_lem v mem same a = (set-IsValid v mem same a, blocks)
    where
      w : IsValid after
      w = set-IsValid v mem same a

      blocks : SameBlocks s after
      blocks d n ne = elim (find_lem s.buf d n s.order) [
        | inl (e, absent) ↦
            current-Absent after d n (λ y my. key_same s b x a y d n ∙ absent y (sym (same y) ∙ my))
            ∙ sym (current-Absent s d n absent)
        | inr (c, e, mc, is) ↦
            current_cached after d n c w ne (same c ∙ mc) (key_same s b x a c d n ∙ is)
            ∙ shown_same a c
            ∙ sym (current_cached s d n c v ne mc is)
      ]
