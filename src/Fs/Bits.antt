-- ===== src/Fs/Bits.antt =====
-- The bits of a byte and of the free map.
use operating_systems.Prelude.{
  ℕ, zero, suc, ◌+◌, ◌*◌, ◌/◌, ◌%◌, ◌≡◌, refl, ap, ◌∙◌, inl, inr, Bool, true, false, ◌&&◌, arith,
  ◌==◌, if◌then◌else◌, Bool-cases, update,
}
use operating_systems.Fs.{test_bit, set_bit, clear_bit, Disk, in_use, bblock, bpb, log_write, Super}

pub test_bit-set_bit :
    (j k byte : ℕ) → test_bit j (set_bit k byte) ≡ (if j == k then true else test_bit j byte)
unfolding test_bit set_bit
test_bit-set_bit zero zero byte = ground arith
test_bit-set_bit zero (suc k) byte = ground arith
test_bit-set_bit (suc j) zero byte = ground arith
test_bit-set_bit (suc j) (suc k) byte =
    let half : (set_bit k (byte / 2) * 2 + byte % 2) / 2 ≡ set_bit k (byte / 2) = omega arith in
    ap (test_bit j) half ∙ test_bit-set_bit j k (byte / 2) ∙ ground arith

pub test_bit-clear_bit :
    (j k byte : ℕ) → test_bit j (clear_bit k byte) ≡ (if j == k then false else test_bit j byte)
unfolding test_bit clear_bit
test_bit-clear_bit zero zero byte = ground arith
test_bit-clear_bit zero (suc k) byte = ground arith
test_bit-clear_bit (suc j) zero byte = ground arith
test_bit-clear_bit (suc j) (suc k) byte =
    let half : (clear_bit k (byte / 2) * 2 + byte % 2) / 2 ≡ clear_bit k (byte / 2) = omega arith in
    ap (test_bit j) half ∙ test_bit-clear_bit j k (byte / 2) ∙ ground arith

byte_change :
    (m : ℕ → ℕ → ℕ) (b b' i i' : ℕ) (f : ℕ → ℕ)
    → update m b (update (m b) i (f (m b i))) b' i'
      ≡ (if b == b' && i == i' then f (m b' i') else m b' i')
byte_change m b b' i i' f = ground arith

same_bit :
    (x y : ℕ) (sb : Super)
    → bblock x sb == bblock y sb && x % bpb / 8 == y % bpb / 8 ≡ true
    → y % bpb % 8 == x % bpb % 8 ≡ x == y
same_bit x y sb h = ground arith

-- A byte of the free map is changed at the place of block `x`, by a function that changes bit `x`.
pub in_use-change :
    (d : Disk) (x y : ℕ) (v : Bool) (f : ℕ → ℕ)
    → ((j byte : ℕ) → test_bit j (f byte) ≡ (if j == x % bpb % 8 then v else test_bit j byte))
    → (let blk = d.block (bblock x d.sb) in
        in_use (log_write (bblock x d.sb) (update blk (x % bpb / 8) (f (blk (x % bpb / 8)))) d) y)
      ≡ (if x == y then v else in_use d y)
unfolding in_use
in_use-change d x y v f h =
    let k = y % bpb % 8 in
    let at = byte_change d.block (bblock x d.sb) (bblock y d.sb) (x % bpb / 8) (y % bpb / 8) f in
    ap (test_bit k) at
    ∙ elim (Bool-cases (bblock x d.sb == bblock y d.sb && x % bpb / 8 == y % bpb / 8)) [
      | inr n ↦ let other : x == y ≡ false = ground arith in rw (n, other) refl
      | inl e ↦ rw e (
          h k (d.block (bblock y d.sb) (y % bpb / 8))
          ∙ ap (λ t. if t then v else in_use d y) (same_bit x y d.sb e))
    ]
