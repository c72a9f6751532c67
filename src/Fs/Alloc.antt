-- ===== src/Fs/Alloc.antt =====
-- What `balloc` and `bfree` do.
use operating_systems.Prelude.{
  ℕ, ◌+◌, ◌/◌, ◌%◌, ◌^◌, ◌≤◌, ◌<◌, ◌≡◌, refl, ap, ◌∙◌, ◌≢◌, ◌⊎◌, inl, inr, true, false, none, some,
  arith, ◌==◌, if◌then◌else◌, Bool-cases, update, update_self, update_ne,
}
use operating_systems.Fs.{
  Disk, in_use, bblock, bpb, log_write, test_bit, set_bit, clear_bit, balloc, bfree,
}
use operating_systems.Fs.Bits.{test_bit-set_bit, test_bit-clear_bit, in_use-change}
use operating_systems.Fs.Scan.{marked, claimed, balloc_loop_lem}

-- The blocks of the free map, and block 0, are marked in use; the map's blocks are on the disk.
pub record MapOk (d : Disk) : Type 0 where
  pub size_small : d.sb.size ≤ 2 ^ 32
  pub boot : in_use d 0 ≡ true
  pub map_small : (y : ℕ) → y < d.sb.size → bblock y d.sb < d.sb.size
  pub map_used : (y : ℕ) → y < d.sb.size → in_use d (bblock y d.sb) ≡ true

pub claimed-in_use :
    (x : ℕ) (d : Disk)
    → MapOk d
    → in_use d x ≡ false
    → (y : ℕ) → y < d.sb.size
    → in_use (claimed x d) y ≡ (if x == y then true else in_use d y)
unfolding in_use
claimed-in_use x d ok free y small =
    let apart : x ≢ bblock y d.sb =
      λ e. (let used = ok.map_used y small in let same = ap (in_use d) e in cc) in
    ap (λ f. test_bit (y % bpb % 8) (f (y % bpb / 8)))
      (update_ne (marked x d).block x (λ i. 0) (bblock y d.sb) apart)
    ∙ in_use-change d x y true (set_bit (x % bpb % 8))
        (λ j byte. test_bit-set_bit j (x % bpb % 8) byte)

pub claimed-block :
    (x z : ℕ) (d : Disk) → x ≢ z → bblock x d.sb ≢ z → (claimed x d).block z ≡ d.block z
claimed-block x z d h k =
    update_ne (marked x d).block x (λ i. 0) z h
    ∙ update_ne d.block (bblock x d.sb)
        (update (d.block (bblock x d.sb)) (x % bpb / 8)
          (set_bit (x % bpb % 8) (d.block (bblock x d.sb) (x % bpb / 8))))
        z k

pub claimed-zero : (x : ℕ) (d : Disk) → (claimed x d).block x ≡ (λ i. 0)
claimed-zero x d = update_self (marked x d).block x (λ i. 0)

-- `balloc` takes the first block that the free map has as free, marks it and fills it with zeros; it
-- panics only when every block of the disk is in use. No other bit of the map and no other block
-- changes.
pub balloc_lem :
    (d : Disk)
    → MapOk d
    → ((balloc d ≡ none) × ((y : ℕ) → y < d.sb.size → in_use d y ≡ true))
      ⊎ ((x : ℕ) × (t : Disk) × (balloc d ≡ some (x, t))
          × (x < d.sb.size)
          × (in_use d x ≡ false)
          × ((y : ℕ) → y < x → in_use d y ≡ true)
          × ((y : ℕ) → y < d.sb.size → in_use t y ≡ (if x == y then true else in_use d y))
          × (t.block x ≡ (λ i. 0))
          × ((z : ℕ) → x ≢ z → bblock x d.sb ≢ z → t.block z ≡ d.block z)
          × (t.sb ≡ d.sb))
unfolding balloc
balloc_lem d ok = elim (balloc_loop_lem (d.sb.size / bpb + 1) 0 d refl (omega arith)) [
  | inl (e, all) ↦ inl (e, λ y s. all y (omega arith) s)
  | inr (x, e, lo, hi, free, all) ↦ inr (
    x,
    claimed x d,
    e,
    hi,
    free,
    λ y s. all y (omega arith) s,
    claimed-in_use x d ok free,
    claimed-zero x d,
    λ z h k. claimed-block x z d h k,
    refl,
  )
]

-- `bfree` panics on a block that is free, and else makes it free; no other bit of the map and no
-- block outside the map changes.
pub bfree_lem :
    (b : ℕ) (d : Disk)
    → ((bfree b d ≡ none) × (in_use d b ≡ false))
      ⊎ ((t : Disk) × (bfree b d ≡ some t)
          × (in_use d b ≡ true)
          × ((y : ℕ) → in_use t y ≡ (if b == y then false else in_use d y))
          × ((z : ℕ) → bblock b d.sb ≢ z → t.block z ≡ d.block z)
          × (t.sb ≡ d.sb))
unfolding bfree in_use
bfree_lem b d = elim (Bool-cases (in_use d b)) [
  | inr n ↦ inl (rw n refl, n)
  | inl y ↦ inr (
    log_write (bblock b d.sb)
        (update (d.block (bblock b d.sb)) (b % bpb / 8)
          (clear_bit (b % bpb % 8) (d.block (bblock b d.sb) (b % bpb / 8))))
        d,
    rw y refl,
    y,
    λ z.
        in_use-change d b z false (clear_bit (b % bpb % 8))
          (λ j byte. test_bit-clear_bit j (b % bpb % 8) byte),
    λ z h.
        update_ne d.block (bblock b d.sb)
          (update (d.block (bblock b d.sb)) (b % bpb / 8)
            (clear_bit (b % bpb % 8) (d.block (bblock b d.sb) (b % bpb / 8))))
          z h,
    refl,
  )
]
