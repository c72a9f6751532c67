-- ===== src/Fs/Words.antt =====
-- Words of a block, and writes outside the free map.
use operating_systems.Prelude.{
  ℕ, ◌+◌, ◌*◌, ◌/◌, ◌%◌, ◌^◌, ◌<◌, ◌≡◌, refl, sym, ap, ◌∙◌, ◌≢◌, inl, inr, arith, ◌==◌,
  if◌then◌else◌, Bool-cases, update_ne,
}
use operating_systems.Fs.{bpb, test_bit, Disk, in_use, bblock, log_write}
use operating_systems.Fs.Inode.{get_word, put_word, byte_of}

pub byte_of-sum :
    (w : ℕ)
    → w < 2 ^ 32
    → byte_of w 0 + byte_of w 1 * 256 + byte_of w 2 * 256 ^ 2 + byte_of w 3 * 256 ^ 3 ≡ w
byte_of-sum w h = omega arith

put_word-byte :
    (blk : ℕ → ℕ) (i w j r : ℕ)
    → r < 4
    → put_word blk i w (4 * j + r) ≡ (if j == i then byte_of w r else blk (4 * j + r))
put_word-byte blk i w j r h =
    let q : (4 * j + r) / 4 ≡ j = omega arith in
    let m : (4 * j + r) % 4 ≡ r = omega arith in rw (q, m) refl

pub get_word-put_word :
    (blk : ℕ → ℕ) (i w j : ℕ)
    → w < 2 ^ 32
    → get_word (put_word blk i w) j ≡ (if j == i then w else get_word blk j)
get_word-put_word blk i w j h =
    let first : put_word blk i w (4 * j) ≡ (if j == i then byte_of w 0 else blk (4 * j)) =
      ap (put_word blk i w) (omega arith)
      ∙ put_word-byte blk i w j 0 (omega arith)
      ∙ ap (λ z. if j == i then byte_of w 0 else blk z) (omega arith) in
    rw
      (
        first,
        put_word-byte blk i w j 1 (omega arith),
        put_word-byte blk i w j 2 (omega arith),
        put_word-byte blk i w j 3 (omega arith),
      )
      (elim (Bool-cases (j == i)) [ inl y ↦ rw y (byte_of-sum w h) | inr n ↦ rw n refl ])

pub in_use-log_write :
    (d : Disk) (z y : ℕ) (blk : ℕ → ℕ)
    → bblock y d.sb ≢ z
    → in_use (log_write z blk d) y ≡ in_use d y
unfolding in_use
in_use-log_write d z y blk h =
    ap (λ f. test_bit (y % bpb % 8) (f (y % bpb / 8)))
      (update_ne d.block z blk (bblock y d.sb) (λ e. h (sym e)))
