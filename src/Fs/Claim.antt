-- ===== src/Fs/Claim.antt =====
-- A block is claimed for a place of an inode.
use operating_systems.Prelude.{
  ℕ, ◌*◌, ◌/◌, ◌%◌, ◌≤◌, ◌<◌, ◌≡◌, refl, sym, ap, ap₂, ◌∙◌, subst, ◌≢◌, ◌⊎◌, inl, inr, true, false,
  arith, ◌==◌, if◌then◌else◌, Bool-cases,
}
use operating_systems.Fs.{Disk, in_use, bblock, bsize}
use operating_systems.Fs.Inode.{Inode, iblock}
use operating_systems.Fs.Owner.{blocks, own, content, Owns, Other, Grows}

-- A block is claimed for a place that has none.
module _ (ip : Inode) (d : Disk) (o : Owns ip d) (ip' : Inode) (d' : Disk) (k x : ℕ)
    (at : k ≤ blocks) (gap : own ip d k ≡ 0) (small_x : x < d.sb.size) (free : in_use d x ≡ false)
    (slots : (j : ℕ) → j ≤ blocks → own ip' d' j ≡ (if j == k then x else own ip d j))
    (bits : (y : ℕ) → y < d.sb.size → in_use d' y ≡ (if x == y then true else in_use d y))
    (zeros : (i : ℕ) → k < blocks → d'.block x i ≡ 0)
    (rest : (z : ℕ)
      → in_use d z ≡ true
      → z < d.sb.size
      → ((y : ℕ) → y < d.sb.size → bblock y d.sb ≢ z)
      → own ip d blocks ≢ z
      → d'.block z ≡ d.block z)
    (same_sb : d'.sb ≡ d.sb) (same_inum : ip'.inum ≡ ip.inum) (same_size : ip'.size ≡ ip.size) where
  -- A block that was in use is not the one claimed, and is in use.
  still : (y : ℕ) → y < d.sb.size → in_use d y ≡ true → in_use d' y ≡ true
  still y h u = bits y h ∙ ground arith

  x_not : (z : ℕ) → in_use d z ≡ true → x ≢ z
  x_not z u e = (let same = ap (in_use d) e in cc)

  slot_new : own ip' d' k ≡ x
  slot_new = slots k at ∙ ground arith

  slot_old : (j : ℕ) → j ≤ blocks → j ≢ k → own ip' d' j ≡ own ip d j
  slot_old j h n = slots j h ∙ ground arith

  -- A place is the one claimed, or was taken and is what it was.
  taken :
      (j : ℕ)
      → j ≤ blocks
      → own ip' d' j ≢ 0
      → ((j ≡ k) × (own ip' d' j ≡ x)) ⊎ ((j ≢ k) × (own ip d j ≢ 0) × (own ip' d' j ≡ own ip d j))
  taken j h n = elim (Bool-cases (j == k)) [
    | inl y ↦ let e : j ≡ k = ground arith in inl (e, ap (own ip' d') e ∙ slot_new)
    | inr m ↦
        let ne : j ≢ k = ground arith in
        let same = slot_old j h ne in inr (ne, λ z. n (same ∙ z), same)
  ]

  size_same : d'.sb.size ≡ d.sb.size
  size_same = ap (λ s. s.size) same_sb

  map_same : (y : ℕ) → bblock y d'.sb ≡ bblock y d.sb
  map_same y = ap (bblock y) same_sb

  inode_same : iblock ip'.inum d'.sb ≡ iblock ip.inum d.sb
  inode_same = ap₂ iblock same_inum same_sb

  claim_once :
      (j l : ℕ) → j ≤ blocks → l ≤ blocks → own ip' d' j ≢ 0 → own ip' d' j ≡ own ip' d' l → j ≡ l
  claim_once j l hj hl n e = elim (taken j hj n) [
    | inl (ej, vj) ↦ elim (taken l hl (λ z. n (e ∙ z))) [
      | inl (el, vl) ↦ ej ∙ sym el
      | inr (nl, ol, sl) ↦ absurd (x_not (own ip d l) (o.used l hl ol) (sym vj ∙ e ∙ sl))
    ]
    | inr (nj, oj, sj) ↦ elim (taken l hl (λ z. n (e ∙ z))) [
      | inl (el, vl) ↦ absurd (x_not (own ip d j) (o.used j hj oj) (sym vl ∙ sym e ∙ sj))
      | inr (nl, ol, sl) ↦ o.once j l hj hl oj (sym sj ∙ e ∙ sl)
    ]
  ]

  claim-Owns : Owns ip' d'
  claim-Owns = record {
    map = record {
      size_small = rw size_same o.map.size_small;
      boot = still 0 (omega arith) o.map.boot;
      map_small =
          λ y h. rw (map_same y, size_same) (o.map.map_small y (subst (λ n. y < n) size_same h));
      map_used = λ y h.
          let h' : y < d.sb.size = subst (λ n. y < n) size_same h in
          ap (in_use d') (map_same y)
          ∙ still (bblock y d.sb) (o.map.map_small y h') (o.map.map_used y h');
    };
    used = λ j h n. elim (taken j h n) [
      | inl (e, v) ↦ ap (in_use d') v ∙ bits x small_x ∙ ground arith
      | inr (ne, old, v) ↦ ap (in_use d') v ∙ still (own ip d j) (o.small j h old) (o.used j h old)
    ];
    small = λ j h n. elim (taken j h n) [
      | inl (e, v) ↦ rw (v, size_same) small_x
      | inr (ne, old, v) ↦ rw (v, size_same) (o.small j h old)
    ];
    apart = λ j y h n hy e.
        let hy' : y < d.sb.size = subst (λ n. y < n) size_same hy in
        elim (taken j h n) [
          | inl (ej, v) ↦ x_not (bblock y d.sb) (o.map.map_used y hy') (sym v ∙ sym e ∙ map_same y)
          | inr (ne, old, v) ↦ o.apart j y h old hy' (sym (map_same y) ∙ e ∙ v)
        ];
    inode_small = rw (inode_same, size_same) o.inode_small;
    inode_used = ap (in_use d') inode_same ∙ still (iblock ip.inum d.sb) o.inode_small o.inode_used;
    inode_map = λ y hy e.
        o.inode_map y (subst (λ n. y < n) size_same hy) (sym (map_same y) ∙ e ∙ inode_same);
    inode_apart = λ j h n e. elim (taken j h n) [
      | inl (ej, v) ↦ x_not (iblock ip.inum d.sb) o.inode_used (sym v ∙ sym e ∙ inode_same)
      | inr (ne, old, v) ↦ o.inode_apart j h old (sym inode_same ∙ e ∙ v)
    ];
    once = claim_once;
  }

  claim_kept : (j : ℕ) → j ≤ blocks → own ip d j ≢ 0 → own ip' d' j ≡ own ip d j
  claim_kept j h n = slot_old j h (λ e. n (ap (own ip d) e ∙ gap))

  -- A block of the contents is not the indirect one.
  block_kept : (j : ℕ) → j < blocks → own ip d j ≢ 0 → d'.block (own ip d j) ≡ d.block (own ip d j)
  block_kept j h n =
      rest (own ip d j) (o.used j (omega arith) n) (o.small j (omega arith) n)
        (λ y hy. o.apart j y (omega arith) n hy)
        (λ e.
          (let same = o.once j blocks (omega arith) (omega arith) n (sym e) in
            absurd (omega arith)))

  claim_same : (off : ℕ) → off < blocks * bsize → content ip' d' off ≡ content ip d off
  unfolding content
  claim_same off h =
      let j = off / bsize in
      let inside : j < blocks = omega arith in
      elim (Bool-cases (own ip d j == 0)) [
        | inr n ↦
            let some_block : own ip d j ≢ 0 = ground arith in
            rw (claim_kept j (omega arith) some_block, n, block_kept j inside some_block) refl
        | inl y ↦ elim (Bool-cases (j == k)) [
          | inl here ↦
              let e : j ≡ k = ground arith in
              let now = ap (own ip' d') e ∙ slot_new in
              let zero_there = zeros (off % bsize) (omega arith) in
              rw (y, now, zero_there) (ground arith)
          | inr other ↦ rw (slot_old j (omega arith) (ground arith), y) refl
        ]
      ]

  claim_others :
      (z : ℕ) → Other ip d z → own ip d blocks ≢ z → Other ip' d' z × (d'.block z ≡ d.block z)
  claim_others z h other = (
    record {
      used = still z h.small h.used;
      small = rw size_same h.small;
      no_map = λ y hy e. h.no_map y (subst (λ n. y < n) size_same hy) (sym (map_same y) ∙ e);
      not_own = λ j hj e. elim (Bool-cases (j == k)) [
        | inl y ↦ x_not z h.used (sym slot_new ∙ ap (own ip' d') (sym (ground arith)) ∙ e)
        | inr n ↦ h.not_own j hj (sym (slot_old j hj (ground arith)) ∙ e)
      ];
    },
    rest z h.used h.small h.no_map other,
  )

  pub claim-Grows : Grows ip d ip' d'
  claim-Grows = record {
    owns = claim-Owns;
    kept = claim_kept;
    same = claim_same;
    others = λ z h. claim_others z h (h.not_own blocks (omega arith));
    sb = same_sb;
    inum = same_inum;
    size = same_size;
  }
