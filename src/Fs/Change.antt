-- ===== src/Fs/Change.antt =====
-- A block of an inode's contents is written; another block is written.
use operating_systems.Prelude.{
  ℕ, ◌*◌, ◌/◌, ◌%◌, ◌≤◌, ◌<◌, ◌≡◌, refl, sym, ap, ◌∙◌, ◌≢◌, inl, inr, false, List, arith, ◌==◌,
  if◌then◌else◌, Bool-cases, update, update_self, update_ne,
}
use operating_systems.Fs.{Disk, in_use, bblock, bsize, test_bit, bpb}
use operating_systems.Fs.Inode.{Inode, iblock, ndirect}
use operating_systems.Fs.Owner.{
  blocks, own, own_low, own_top, own_mid, place_cases, content, Owns, Other, Grows,
}

-- The contents are `f` afterwards; what is another's is as it was.
pub record Changes (ip : Inode) (d : Disk) (ip' : Inode) (d' : Disk) (f : ℕ → ℕ) : Type 0 where
  pub owns : Owns ip' d'
  pub contents : (off : ℕ) → off < blocks * bsize → content ip' d' off ≡ f off
  pub others : (z : ℕ) → Other ip d z → Other ip' d' z × (d'.block z ≡ d.block z)
  pub sb : d'.sb ≡ d.sb
  pub inum : ip'.inum ≡ ip.inum
  pub size : ip'.size ≡ ip.size

pub Grows-Changes :
    {ip ip' : Inode} {d d' : Disk} → Grows ip d ip' d' → Changes ip d ip' d' (content ip d)
Grows-Changes g = record {
  owns = g.owns;
  contents = g.same;
  others = g.others;
  sb = g.sb;
  inum = g.inum;
  size = g.size;
}

pub Changes-trans :
    {ip ip' ip'' : Inode} {d d' d'' : Disk} {f g h : ℕ → ℕ}
    → Changes ip d ip' d' f
    → Changes ip' d' ip'' d'' g
    → ((off : ℕ) → off < blocks * bsize → content ip' d' off ≡ f off → g off ≡ h off)
    → Changes ip d ip'' d'' h
Changes-trans a b e = record {
  owns = b.owns;
  contents = λ off i. b.contents off i ∙ e off i (a.contents off i);
  others = λ z o. (let (p, q) = a.others z o in let (r, s) = b.others z p in (r, s ∙ q));
  sb = b.sb ∙ a.sb;
  inum = b.inum ∙ a.inum;
  size = b.size ∙ a.size;
}

-- Block `z`, that is not the indirect one and not of the free map, is written.
module _ (ip : Inode) (d : Disk) (o : Owns ip d) (z : ℕ) (blk : ℕ → ℕ) (log : List ℕ)
    (no_map : (y : ℕ) → y < d.sb.size → bblock y d.sb ≢ z)
    (no_index : own ip d blocks ≢ 0 → own ip d blocks ≢ z) where
  abbrev pub put : Disk
  put = record d { block = update d.block z blk; writes = log }

  pub put-own : (k : ℕ) → k ≤ blocks → own ip put k ≡ own ip d k
  put-own k h = elim (place_cases k h) [
    | inl low ↦ own_low ip put k low ∙ sym (own_low ip d k low)
    | inr (inl top) ↦ own_top ip put k top ∙ sym (own_top ip d k top)
    | inr (inr (lo, hi)) ↦ own_mid ip put k lo hi ∙ elim (Bool-cases (ip.addrs ndirect == 0)) [
      | inl y ↦ rw y (sym (own_mid ip d k lo hi ∙ rw y refl))
      | inr n ↦
          let top = own_top ip d blocks refl in
          let apart : z ≢ ip.addrs ndirect = λ e.
            no_index (λ q. absurd (let zero_there = sym top ∙ q in ground arith)) (top ∙ sym e) in
          rw (n, update_ne d.block z blk (ip.addrs ndirect) apart)
            (sym (own_mid ip d k lo hi ∙ rw n refl))
    ]
  ]

  pub put-in_use : (y : ℕ) → y < d.sb.size → in_use put y ≡ in_use d y
  unfolding in_use
  put-in_use y h =
      ap (λ f. test_bit (y % bpb % 8) (f (y % bpb / 8)))
        (update_ne d.block z blk (bblock y d.sb) (λ e. no_map y h (sym e)))

  taken : (k : ℕ) → k ≤ blocks → own ip put k ≢ 0 → own ip d k ≢ 0
  taken k h n e = n (put-own k h ∙ e)

  pub put-Owns : Owns ip put
  put-Owns = record {
    map = record {
      size_small = o.map.size_small;
      boot = put-in_use 0 (omega (arith, o.inode_small)) ∙ o.map.boot;
      map_small = o.map.map_small;
      map_used = λ y h. put-in_use (bblock y d.sb) (o.map.map_small y h) ∙ o.map.map_used y h;
    };
    used = λ k h n.
        let was = taken k h n in
        ap (in_use put) (put-own k h) ∙ put-in_use (own ip d k) (o.small k h was) ∙ o.used k h was;
    small = λ k h n. rw (put-own k h) (o.small k h (taken k h n));
    apart = λ k y h n hy e. o.apart k y h (taken k h n) hy (e ∙ put-own k h);
    inode_small = o.inode_small;
    inode_used = put-in_use (iblock ip.inum d.sb) o.inode_small ∙ o.inode_used;
    inode_map = o.inode_map;
    inode_apart = λ k h n e. o.inode_apart k h (taken k h n) (e ∙ put-own k h);
    once = λ j k hj hk n e. o.once j k hj hk (taken j hj n) (sym (put-own j hj) ∙ e ∙ put-own k hk);
  }

  pub put_others : (y : ℕ) → z ≢ y → Other ip d y → Other ip put y × (put.block y ≡ d.block y)
  put_others y ne h = (
    record {
      used = put-in_use y h.small ∙ h.used;
      small = h.small;
      no_map = h.no_map;
      not_own = λ k hk e. h.not_own k hk (sym (put-own k hk) ∙ e);
    },
    update_ne d.block z blk y ne,
  )

  -- The block at place `j` of the contents is `z`.
  pub put_content :
      (j off : ℕ)
      → j < blocks
      → own ip d j ≡ z
      → z ≢ 0
      → off < blocks * bsize
      → content ip put off ≡ (if off / bsize == j then blk (off % bsize) else content ip d off)
  unfolding content
  put_content j off hj at nz h =
      let k = off / bsize in
      let same = put-own k (omega arith) in
      let some_block : z == 0 ≡ false = ground arith in
      elim (Bool-cases (k == j)) [
        | inl y ↦
            let e : own ip d k ≡ z = ap (own ip d) (ground arith) ∙ at in
            rw (same, e, y, some_block, update_self d.block z blk) refl
        | inr n ↦ elim (Bool-cases (own ip d k == 0)) [
          | inl gap ↦ rw (same, n, gap) refl
          | inr taken ↦
              let apart : z ≢ own ip d k = λ e.
                (let once =
                    o.once j k (omega arith) (omega arith) (λ q. nz (sym at ∙ q)) (at ∙ e) in
                  absurd (ground arith)) in
              rw (same, n, taken, update_ne d.block z blk (own ip d k) apart) refl
        ]
      ]
