-- ===== src/Fs/Dinode.antt =====
-- An inode on the disk.
use operating_systems.Prelude.{
  ℕ, suc, ◌+◌, ◌*◌, ◌/◌, ◌%◌, ◌^◌, ◌<◌, ◌≡◌, refl, sym, ap, ◌∙◌, ◌≢◌, inl, inr, true, false, arith,
  ◌==◌, Bool-cases, update, update_self, update_ne,
}
use operating_systems.Fs.{Disk}
use operating_systems.Fs.Inode.{
  Inode, iblock, ipb, get_word, put_dinode, dinode_word, byte_of, iupdate, load_inode,
}
use operating_systems.Fs.Words.{byte_of-sum}

put_dinode-byte :
    (blk : ℕ → ℕ) (slot : ℕ) (ip : Inode) (k r : ℕ)
    → k < 16
    → r < 4
    → put_dinode blk slot ip (4 * (16 * slot + k) + r) ≡ byte_of (dinode_word ip k) r
unfolding put_dinode
put_dinode-byte blk slot ip k r hk hr =
    let here : (4 * (16 * slot + k) + r) / 64 == slot ≡ true = ground arith in
    let word : (4 * (16 * slot + k) + r) % 64 / 4 ≡ k = omega arith in
    let byte : (4 * (16 * slot + k) + r) % 4 ≡ r = omega arith in rw (here, word, byte) refl

get_word-put_dinode :
    (blk : ℕ → ℕ) (slot : ℕ) (ip : Inode) (k : ℕ)
    → k < 16
    → dinode_word ip k < 2 ^ 32
    → get_word (put_dinode blk slot ip) (16 * slot + k) ≡ dinode_word ip k
get_word-put_dinode blk slot ip k h fits =
    let first : put_dinode blk slot ip (4 * (16 * slot + k)) ≡ byte_of (dinode_word ip k) 0 =
      ap (put_dinode blk slot ip) (omega arith) ∙ put_dinode-byte blk slot ip k 0 h (omega arith) in
    rw
      (
        first,
        put_dinode-byte blk slot ip k 1 h (omega arith),
        put_dinode-byte blk slot ip k 2 h (omega arith),
        put_dinode-byte blk slot ip k 3 h (omega arith),
      )
      (byte_of-sum (dinode_word ip k) fits)

-- The fields of an inode are those of C's types.
pub record Fits (ip : Inode) : Type 0 where
  pub type_fits : ip.type < 2 ^ 16
  pub major_fits : ip.major < 2 ^ 16
  pub minor_fits : ip.minor < 2 ^ 16
  pub nlink_fits : ip.nlink < 2 ^ 16
  pub size_fits : ip.size < 2 ^ 32
  pub addrs_fit : (k : ℕ) → k < 13 → ip.addrs k < 2 ^ 32

-- The fields that live on the disk are the same.
abbrev pub SameFields : Inode → Inode → Type 0
SameFields ip jp =
    (ip.type ≡ jp.type)
    × (ip.major ≡ jp.major)
    × (ip.minor ≡ jp.minor)
    × (ip.nlink ≡ jp.nlink)
    × (ip.size ≡ jp.size)
    × ((k : ℕ) → k < 13 → ip.addrs k ≡ jp.addrs k)

abbrev word_at : Inode → Disk → ℕ → ℕ
word_at jp d k = get_word (d.block (iblock jp.inum d.sb)) (16 * (jp.inum % ipb) + k)

word_same :
    (ip jp : Inode) (d : Disk) (k : ℕ)
    → jp.inum ≡ ip.inum
    → k < 16
    → dinode_word ip k < 2 ^ 32
    → word_at jp (iupdate ip d) k ≡ dinode_word ip k
unfolding iupdate
word_same ip jp d k same h fits =
    let b = iblock ip.inum d.sb in
    let blk = put_dinode (d.block b) (ip.inum % ipb) ip in
    rw (same, update_self d.block b blk)
      (get_word-put_dinode (d.block b) (ip.inum % ipb) ip k h fits)

other_byte :
    (blk : ℕ → ℕ) (slot slot' : ℕ) (ip : Inode) (k r : ℕ)
    → k < 16
    → r < 4
    → slot' ≢ slot
    → put_dinode blk slot ip (4 * (16 * slot' + k) + r) ≡ blk (4 * (16 * slot' + k) + r)
unfolding put_dinode
other_byte blk slot slot' ip k r hk hr ne =
    let away : (4 * (16 * slot' + k) + r) / 64 == slot ≡ false = ground arith in rw away refl

other_word :
    (blk : ℕ → ℕ) (slot slot' : ℕ) (ip : Inode) (k : ℕ)
    → k < 16
    → slot' ≢ slot
    → get_word (put_dinode blk slot ip) (16 * slot' + k) ≡ get_word blk (16 * slot' + k)
other_word blk slot slot' ip k h ne =
    let plus : 4 * (16 * slot' + k) ≡ 4 * (16 * slot' + k) + 0 = omega arith in
    let first : put_dinode blk slot ip (4 * (16 * slot' + k)) ≡ blk (4 * (16 * slot' + k)) =
      ap (put_dinode blk slot ip) plus
      ∙ other_byte blk slot slot' ip k 0 h (omega arith) ne
      ∙ ap blk (sym plus) in
    rw
      (
        first,
        other_byte blk slot slot' ip k 1 h (omega arith) ne,
        other_byte blk slot slot' ip k 2 h (omega arith) ne,
        other_byte blk slot slot' ip k 3 h (omega arith) ne,
      )
      refl

word_other :
    (ip jp : Inode) (d : Disk) (k : ℕ)
    → jp.inum ≢ ip.inum
    → k < 16
    → word_at jp (iupdate ip d) k ≡ word_at jp d k
unfolding iupdate
word_other ip jp d k ne h =
    let b = iblock ip.inum d.sb in
    let blk = put_dinode (d.block b) (ip.inum % ipb) ip in
    elim (Bool-cases (b == iblock jp.inum d.sb)) [
      | inr n ↦
          ap (λ f. get_word f (16 * (jp.inum % ipb) + k))
            (update_ne d.block b blk (iblock jp.inum d.sb) (ground arith))
      | inl y ↦
          let e : b ≡ iblock jp.inum d.sb = ground arith in
          let slots : jp.inum % ipb ≢ ip.inum % ipb = λ q. absurd (ne (omega arith)) in
          let at : update d.block b blk (iblock jp.inum d.sb) ≡ blk =
            ap (update d.block b blk) (sym e) ∙ update_self d.block b blk in
          ap (λ f. get_word f (16 * (jp.inum % ipb) + k)) at
          ∙ other_word (d.block b) (ip.inum % ipb) (jp.inum % ipb) ip k h slots
          ∙ ap (λ z. get_word (d.block z) (16 * (jp.inum % ipb) + k)) e
    ]

dinode_word-addrs : (ip : Inode) (k : ℕ) → dinode_word ip (k + 3) ≡ ip.addrs k
dinode_word-addrs ip k = (let e : k + 3 ≡ suc (suc (suc k)) = omega arith in ap (dinode_word ip) e)

low_half : (a b : ℕ) → a < 2 ^ 16 → (a % 2 ^ 16 + b % 2 ^ 16 * 2 ^ 16) % 2 ^ 16 ≡ a
low_half a b h = omega arith

high_half : (a b : ℕ) → b < 2 ^ 16 → (a % 2 ^ 16 + b % 2 ^ 16 * 2 ^ 16) / 2 ^ 16 ≡ b
high_half a b h = omega arith

-- What `iupdate` writes, `ilock` reads into any entry for the inode: all the fields that live on the
-- disk. An inode with another number, in the same block or not, reads as before.
pub load_inode-iupdate :
    (ip jp : Inode) (d : Disk)
    → Fits ip
    → (jp.inum ≡ ip.inum → SameFields (load_inode jp (iupdate ip d)) ip)
      × (jp.inum ≢ ip.inum → SameFields (load_inode jp (iupdate ip d)) (load_inode jp d))
unfolding load_inode
load_inode-iupdate ip jp d f = (
  λ same.
      let w0 = word_same ip jp d 0 same (omega arith) (omega (arith, f.type_fits, f.major_fits)) in
      let w1 = word_same ip jp d 1 same (omega arith) (omega (arith, f.minor_fits, f.nlink_fits)) in
      (
        ap (λ w. w % 2 ^ 16) w0 ∙ low_half ip.type ip.major f.type_fits,
        ap (λ w. w / 2 ^ 16) w0 ∙ high_half ip.type ip.major f.major_fits,
        ap (λ w. w % 2 ^ 16) w1 ∙ low_half ip.minor ip.nlink f.minor_fits,
        ap (λ w. w / 2 ^ 16) w1 ∙ high_half ip.minor ip.nlink f.nlink_fits,
        word_same ip jp d 2 same (omega arith) f.size_fits,
        λ k h.
            word_same ip jp d (k + 3) same (omega arith)
              (rw (dinode_word-addrs ip k) (f.addrs_fit k h))
            ∙ dinode_word-addrs ip k,
      ),
  λ ne.
      let w0 = word_other ip jp d 0 ne (omega arith) in
      let w1 = word_other ip jp d 1 ne (omega arith) in
      (
        ap (λ w. w % 2 ^ 16) w0,
        ap (λ w. w / 2 ^ 16) w0,
        ap (λ w. w % 2 ^ 16) w1,
        ap (λ w. w / 2 ^ 16) w1,
        word_other ip jp d 2 ne (omega arith),
        λ k h. word_other ip jp d (k + 3) ne (omega arith),
      ),
)
