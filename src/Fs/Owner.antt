-- ===== src/Fs/Owner.antt =====
-- The blocks of an inode, and what holds of them.
use operating_systems.Prelude.{
  ℕ, ◌-◌, ◌*◌, ◌/◌, ◌%◌, ◌≤◌, ◌<◌, ◌≡◌, refl, sym, ◌∙◌, ◌≢◌, ◌⊎◌, true, false, arith, ltb, ◌==◌,
  if◌then◌else◌,
}
use operating_systems.Fs.{Disk, bsize, in_use, bblock}
use operating_systems.Fs.Inode.{Inode, ndirect, iblock, get_word}
use operating_systems.Fs.Alloc.{MapOk}

-- The places of an inode for blocks: 0 to 267 for its contents, 268 for the indirect block.
abbrev pub blocks : ℕ
blocks = 268

unfoldable pub own : Inode → Disk → ℕ → ℕ
own ip d k =
    if ltb k ndirect
    then ip.addrs k
    else if k == blocks
    then ip.addrs ndirect
    else if ip.addrs ndirect == 0
    then 0
    else get_word (d.block (ip.addrs ndirect)) (k - ndirect)

pub own_low : (ip : Inode) (d : Disk) (k : ℕ) → k < ndirect → own ip d k ≡ ip.addrs k
unfolding own
own_low ip d k h = ground arith

pub own_top : (ip : Inode) (d : Disk) (k : ℕ) → k ≡ blocks → own ip d k ≡ ip.addrs ndirect
unfolding own
own_top ip d k h = ground arith

pub own_mid :
    (ip : Inode) (d : Disk) (k : ℕ)
    → ndirect ≤ k
    → k < blocks
    → own ip d k
      ≡ (if ip.addrs ndirect == 0 then 0 else get_word (d.block (ip.addrs ndirect)) (k - ndirect))
unfolding own
own_mid ip d k lo hi =
    let low : ltb k ndirect ≡ false = ground arith in
    let top : k == blocks ≡ false = ground arith in rw (low, top) refl

pub place_cases :
    (k : ℕ) → k ≤ blocks → (k < ndirect) ⊎ (k ≡ blocks) ⊎ ((ndirect ≤ k) × (k < blocks))
place_cases k h = ground arith

-- The blocks of an inode differ, are on the disk, marked in the free map, and hold neither the free map nor
-- the inode.
pub record Owns (ip : Inode) (d : Disk) : Type 0 where
  pub map : MapOk d
  pub used : (k : ℕ) → k ≤ blocks → own ip d k ≢ 0 → in_use d (own ip d k) ≡ true
  pub small : (k : ℕ) → k ≤ blocks → own ip d k ≢ 0 → own ip d k < d.sb.size
  pub apart : (k y : ℕ) → k ≤ blocks → own ip d k ≢ 0 → y < d.sb.size → bblock y d.sb ≢ own ip d k
  pub inode_small : iblock ip.inum d.sb < d.sb.size
  pub inode_used : in_use d (iblock ip.inum d.sb) ≡ true
  pub inode_map : (y : ℕ) → y < d.sb.size → bblock y d.sb ≢ iblock ip.inum d.sb
  pub inode_apart : (k : ℕ) → k ≤ blocks → own ip d k ≢ 0 → iblock ip.inum d.sb ≢ own ip d k
  pub once : (j k : ℕ) → j ≤ blocks → k ≤ blocks → own ip d j ≢ 0 → own ip d j ≡ own ip d k → j ≡ k

-- The byte at a place of the contents; bytes that have no block are zeros.
unfoldable pub content : Inode → Disk → ℕ → ℕ
content ip d off =
    if own ip d (off / bsize) == 0 then 0 else d.block (own ip d (off / bsize)) (off % bsize)

-- A block in use that is neither of the free map nor of the inode.
pub record Other (ip : Inode) (d : Disk) (z : ℕ) : Type 0 where
  pub used : in_use d z ≡ true
  pub small : z < d.sb.size
  pub no_map : (y : ℕ) → y < d.sb.size → bblock y d.sb ≢ z
  pub not_own : (k : ℕ) → k ≤ blocks → own ip d k ≢ z

-- The inode may get blocks; nothing else changes.
pub record Grows (ip : Inode) (d : Disk) (ip' : Inode) (d' : Disk) : Type 0 where
  pub owns : Owns ip' d'
  pub kept : (k : ℕ) → k ≤ blocks → own ip d k ≢ 0 → own ip' d' k ≡ own ip d k
  pub same : (off : ℕ) → off < blocks * bsize → content ip' d' off ≡ content ip d off
  pub others : (z : ℕ) → Other ip d z → Other ip' d' z × (d'.block z ≡ d.block z)
  pub sb : d'.sb ≡ d.sb
  pub inum : ip'.inum ≡ ip.inum
  pub size : ip'.size ≡ ip.size

pub Grows-refl : (ip : Inode) (d : Disk) → Owns ip d → Grows ip d ip d
Grows-refl ip d o = record {
  owns = o;
  kept = λ k h n. refl;
  same = λ off h. refl;
  others = λ z o. (o, refl);
  sb = refl;
  inum = refl;
  size = refl;
}

pub Grows-trans :
    {ip ip' ip'' : Inode} {d d' d'' : Disk}
    → Grows ip d ip' d'
    → Grows ip' d' ip'' d''
    → Grows ip d ip'' d''
Grows-trans f g = record {
  owns = g.owns;
  kept = λ k h n. g.kept k h (λ e. n (sym (f.kept k h n) ∙ e)) ∙ f.kept k h n;
  same = λ off h. g.same off h ∙ f.same off h;
  others = λ z o. (let (p, e) = f.others z o in let (q, e') = g.others z p in (q, e' ∙ e));
  sb = g.sb ∙ f.sb;
  inum = g.inum ∙ f.inum;
  size = g.size ∙ f.size;
}
