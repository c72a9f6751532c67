-- ===== src/Fs/Tests.antt =====
-- A disk of 64 blocks with an inode that has one block, 5.
use operating_systems.Prelude.{
  ℕ, ◌/◌, ◌≤◌, ◌<◌, ◌≡◌, refl, sym, ◌∙◌, ◌≢◌, ◌⊎◌, inl, inr, true, false, ◌&&◌, none, some, [],
  arith, ◌==◌, if◌then◌else◌,
}
use operating_systems.Fs.Dinode.{Fits, SameFields, load_inode-iupdate}
use operating_systems.Fs.Itrunc.{itrunc_lem}
use operating_systems.Fs.{Disk, Super, in_use, test_bit, balloc, bfree, bblock}
use operating_systems.Fs.Inode.{Inode, itrunc, iupdate, load_inode, iblock, ndirect}
use operating_systems.Fs.Alloc.{MapOk, balloc_lem, bfree_lem}
use operating_systems.Fs.Owner.{blocks, own, own_low, own_top, own_mid, place_cases, Owns}

abbrev sb : Super
sb = record {
  magic = 0x10203040;
  size = 64;
  nblocks = 60;
  ninodes = 16;
  nlog = 0;
  logstart = 2;
  inodestart = 2;
  bmapstart = 3;
}

-- The free map has blocks 0 to 3 and 5 as used.
abbrev disk : Disk
disk = record { sb = sb; block = λ b i. if b == 3 && i == 0 then 47 else 0; writes = [] }

abbrev file : Inode
file = record {
  dev = 1;
  inum = 7;
  type = 2;
  major = 0;
  minor = 0;
  nlink = 1;
  size = 10;
  addrs = λ k. if k == 0 then 5 else 0;
}

disk-MapOk : MapOk disk
unfolding in_use test_bit
disk-MapOk = record {
  size_small = omega arith;
  boot = refl;
  map_small = λ y h. (let first : y / 8192 ≡ 0 = omega arith in omega arith);
  map_used = λ y h. (let first : y / 8192 ≡ 0 = omega arith in rw first refl);
}

file-own : (k : ℕ) → k ≤ blocks → own file disk k ≡ (if k == 0 then 5 else 0)
file-own k h = elim (place_cases k h) [
  | inl low ↦ own_low file disk k low
  | inr (inl top) ↦ own_top file disk k top ∙ ground arith
  | inr (inr (lo, hi)) ↦ own_mid file disk k lo hi ∙ ground arith
]

file_first : (k : ℕ) → k ≤ blocks → own file disk k ≢ 0 → (k ≡ 0) × (own file disk k ≡ 5)
file_first k h n = (let e = file-own k h in (ground arith, ground arith))

file-Owns : Owns file disk
unfolding in_use test_bit
file-Owns = record {
  map = disk-MapOk;
  used = λ k h n. rw (file_first k h n).1 refl;
  small = λ k h n. (let five = (file_first k h n).1 in omega arith);
  apart = λ k y h n hy e. (let five = (file_first k h n).1 in absurd (omega arith));
  inode_small = omega arith;
  inode_used = refl;
  inode_map = λ y h e. absurd (omega arith);
  inode_apart = λ k h n e. (let five = (file_first k h n).1 in absurd (omega arith));
  once = λ j k hj hk n e.
      let first = (file_first j hj n).0 in
      let second = (file_first k hk (λ z. n (e ∙ z))).0 in first ∙ sym second;
}

balloc_lem_example :
    ((balloc disk ≡ none) × ((y : ℕ) → y < 64 → in_use disk y ≡ true))
    ⊎ ((x : ℕ) × (t : Disk) × (balloc disk ≡ some (x, t))
        × (x < 64)
        × (in_use disk x ≡ false)
        × ((y : ℕ) → y < x → in_use disk y ≡ true)
        × ((y : ℕ) → y < 64 → in_use t y ≡ (if x == y then true else in_use disk y))
        × (t.block x ≡ (λ i. 0))
        × ((z : ℕ) → x ≢ z → bblock x sb ≢ z → t.block z ≡ disk.block z)
        × (t.sb ≡ sb))
balloc_lem_example = balloc_lem disk disk-MapOk

bfree_lem_example :
    ((bfree 5 disk ≡ none) × (in_use disk 5 ≡ false))
    ⊎ ((t : Disk) × (bfree 5 disk ≡ some t)
        × (in_use disk 5 ≡ true)
        × ((y : ℕ) → in_use t y ≡ (if 5 == y then false else in_use disk y))
        × ((z : ℕ) → bblock 5 sb ≢ z → t.block z ≡ disk.block z)
        × (t.sb ≡ sb))
bfree_lem_example = bfree_lem 5 disk

itrunc_lem_example :
    (ip' : Inode) × (d' : Disk) × (itrunc file disk ≡ some (ip', d'))
    × (ip'.size ≡ 0)
    × ((k : ℕ) → k ≤ ndirect → ip'.addrs k ≡ 0)
    × ((k : ℕ) → k ≤ blocks → own file disk k ≢ 0 → in_use d' (own file disk k) ≡ false)
    × ((y : ℕ)
        → y < 64
        → ((k : ℕ) → k ≤ blocks → own file disk k ≢ y)
        → in_use d' y ≡ in_use disk y)
    × ((z : ℕ) → ((y : ℕ) → y < 64 → bblock y sb ≢ z) → iblock 7 sb ≢ z → d'.block z ≡ disk.block z)
itrunc_lem_example = itrunc_lem file disk file-Owns

file-Fits : Fits file
file-Fits = record {
  type_fits = omega arith;
  major_fits = omega arith;
  minor_fits = omega arith;
  nlink_fits = omega arith;
  size_fits = omega arith;
  addrs_fit = λ k h. ground arith;
}

load_inode-iupdate_example :
    (file.inum ≡ file.inum → SameFields (load_inode file (iupdate file disk)) file)
    × (file.inum ≢ file.inum
        → SameFields (load_inode file (iupdate file disk)) (load_inode file disk))
load_inode-iupdate_example = load_inode-iupdate file file disk file-Fits
