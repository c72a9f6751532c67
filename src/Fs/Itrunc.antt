-- ===== src/Fs/Itrunc.antt =====
-- `itrunc` as a whole.
use operating_systems.Prelude.{
  ℕ, ◌+◌, ◌-◌, ◌%◌, ◌≤◌, ◌<◌, ◌≡◌, refl, sym, ap, ap₂, ◌∙◌, subst, ◌≢◌, inl, inr, true, false,
  Option, none, some, arith, ◌==◌, Bool-cases, Option-cases, update, update_self, update_ne,
}
use mathlib.Core.Option
use operating_systems.Fs.{Disk, in_use, bblock, bfree, log_write}
use operating_systems.Fs.Inode.{
  Inode, iblock, ipb, ndirect, nindirect, get_word, put_dinode, free_direct, free_indirect,
  free_block, itrunc, iupdate,
}
use operating_systems.Fs.Owner.{blocks, own, Owns, own_low, own_top, own_mid}
use operating_systems.Fs.Freed.{free_all, free_indirect-free_all, free_direct_lem, Cleared}
use operating_systems.Fs.Trunc.{Emptied, Emptied-trans, empty_run}
use operating_systems.Fs.Words.{in_use-log_write}

-- One number is freed.
free_one : (b : ℕ) (d t : Disk) → b ≢ 0 → free_all (λ j. b) 0 1 d ≡ some t → bfree b d ≡ some t
unfolding free_all
free_one b d t n e =
    let some_block : b == 0 ≡ false = ground arith in
    elim (Option-cases (bfree b d)) [
      | inl stop ↦ absurd (let clash : none ≡ some t = sym (rw (some_block, stop) refl) ∙ e in cc)
      | inr (u, done) ↦
          let run : free_all (λ j. b) 0 1 d ≡ some u = rw (some_block, done) refl in
          done ∙ sym run ∙ e
    ]

module _ (ip : Inode) (d : Disk) (o : Owns ip d) where
  -- The blocks at the other places are still in use.
  still :
      (s : Disk) (hi k : ℕ)
      → Emptied ip d o d s 0 hi
      → hi ≤ k
      → k ≤ blocks
      → own ip d k ≢ 0
      → in_use s (own ip d k) ≡ true
  still s hi k em le h n =
      em.keeps (own ip d k)
        (λ j l hj nz e. (let same = o.once j k (omega arith) h nz e in absurd (omega arith)))
      ∙ o.used k h n

  direct_run :
      (t : Disk) × (ip' : Inode) × (free_direct ndirect 0 ip d ≡ some (ip', t))
      × Cleared ip ip' 0 ndirect
      × Emptied ip d o d t 0 ndirect
  direct_run =
      let (t, e, em) =
        empty_run ip d o ip.addrs ndirect 0 d
          (λ j h. sym (own_low ip d j h) ∙ ap (own ip d) (omega arith)) (omega arith) refl
          (λ k l h n. o.used k (omega arith) n) in
      let (ip', r, c) = free_direct_lem ndirect 0 ip d t e in (t, ip', r, c, em)

  -- Where there is no indirect block, there is nothing at the places behind the direct ones.
  no_index : (s : Disk) → ip.addrs ndirect ≡ 0 → Emptied ip d o s s ndirect (blocks + 1)
  no_index s z = record {
    clears = λ k l h n. absurd (
        n (elim (Bool-cases (k == blocks)) [
          | inl y ↦ own_top ip d k (ground arith) ∙ z
          | inr m ↦ own_mid ip d k l (ground arith) ∙ rw z refl
        ]));
    keeps = λ y out. refl;
    blocks_kept = λ y h. refl;
    sb_kept = refl;
  }

  index_run :
      (s : Disk)
      → Emptied ip d o d s 0 ndirect
      → ip.addrs ndirect ≢ 0
      → (t u : Disk) × (free_indirect nindirect 0 (s.block (ip.addrs ndirect)) s ≡ some t)
        × (bfree (ip.addrs ndirect) t ≡ some u)
        × Emptied ip d o d u 0 (blocks + 1)
  index_run s em n =
      let b = ip.addrs ndirect in
      let top = own_top ip d blocks refl in
      let owned : own ip d blocks ≢ 0 = λ e. n (sym top ∙ e) in
      let some_block : b == 0 ≡ false = ground arith in
      let same : s.block b ≡ d.block b =
        em.blocks_kept b (λ y h e. o.apart blocks y (omega arith) owned h (e ∙ sym top)) in
      let fits : (j : ℕ) → j < nindirect → get_word (s.block b) j ≡ own ip d (ndirect + j) = λ j h.
        let place : ndirect + j - ndirect ≡ j = omega arith in
        sym (
          own_mid ip d (ndirect + j) (omega arith) (omega arith)
          ∙ rw (some_block, place, same) refl) in
      let (t, e, em2) =
        empty_run ip d o (get_word (s.block b)) nindirect ndirect s fits (omega arith) em.sb_kept
          (λ k l h nz. still s ndirect k em l (omega arith) nz) in
      let both =
        Emptied-trans ip d o 0 ndirect blocks (omega arith) (omega arith) (omega arith) em em2 in
      let (u, e2, em3) =
        empty_run ip d o (λ j. b) 1 blocks t (λ j h. sym (own_top ip d (blocks + j) (omega arith)))
          (omega arith) both.sb_kept (λ k l h nz. still t blocks k both l (omega arith) nz) in
      (
        t,
        u,
        free_indirect-free_all nindirect 0 (s.block b) s ∙ e,
        free_one b t u n e2,
        Emptied-trans ip d o 0 blocks (blocks + 1) (omega arith) (omega arith) (omega arith) both
            em3,
      )

  -- `iupdate` at the end leaves the free map alone.
  freed :
      (last : Inode) (t : Disk)
      → last.inum ≡ ip.inum
      → Emptied ip d o d t 0 (blocks + 1)
      → ((k : ℕ) → k ≤ blocks → own ip d k ≢ 0 → in_use (iupdate last t) (own ip d k) ≡ false)
        × ((y : ℕ)
            → y < d.sb.size
            → ((k : ℕ) → k ≤ blocks → own ip d k ≢ y)
            → in_use (iupdate last t) y ≡ in_use d y)
        × ((z : ℕ)
            → ((y : ℕ) → y < d.sb.size → bblock y d.sb ≢ z)
            → iblock ip.inum d.sb ≢ z
            → (iupdate last t).block z ≡ d.block z)
  unfolding iupdate
  freed last t same em =
      let b = iblock last.inum t.sb in
      let blk = put_dinode (t.block b) (last.inum % ipb) last in
      let place : b ≡ iblock ip.inum d.sb = ap₂ iblock same em.sb_kept in
      let bits : (y : ℕ) → y < d.sb.size → in_use (log_write b blk t) y ≡ in_use t y = λ y h.
        in_use-log_write t b y blk
          (λ e. o.inode_map y h (sym (ap (bblock y) em.sb_kept) ∙ e ∙ place)) in
      (
        λ k h n. bits (own ip d k) (o.small k h n) ∙ em.clears k (omega arith) (omega arith) n,
        λ y h out. bits y h ∙ em.keeps y (λ k l hk nz. out k (omega arith)),
        λ z no_map ne.
            update_ne t.block b blk z (λ e. ne (sym place ∙ e)) ∙ em.blocks_kept z no_map,
      )

abbrev emptied : Inode × Disk → Inode × Disk
emptied r = (let ip = record r.0 { size = 0 } in (ip, iupdate ip r.1))

itrunc_run :
    (ip ip1 ip2 : Inode) (d s u : Disk)
    → free_direct ndirect 0 ip d ≡ some (ip1, s)
    → free_block ip1 s ≡ some (ip2, u)
    → itrunc ip d ≡ some (emptied (ip2, u))
unfolding itrunc
itrunc_run ip ip1 ip2 d s u e e2 =
    let after : Option (Inode × Disk) → Option (Inode × Disk) =
      λ o. elim o [ none ↦ none | some r ↦ Option.map emptied (free_block r.0 r.1) ] in
    ap after e ∙ ap (Option.map emptied) e2

free_block-none : (ip : Inode) (s : Disk) → ip.addrs ndirect ≡ 0 → free_block ip s ≡ some (ip, s)
unfolding free_block
free_block-none ip s z = (let y : ip.addrs ndirect == 0 ≡ true = ground arith in rw y refl)

free_block-some :
    (ip : Inode) (b : ℕ) (s t u : Disk)
    → ip.addrs ndirect ≡ b
    → b ≢ 0
    → free_indirect nindirect 0 (s.block b) s ≡ some t
    → bfree b t ≡ some u
    → free_block ip s ≡ some (record ip { addrs = update ip.addrs ndirect 0 }, u)
unfolding free_block
free_block-some ip b s t u at n e e2 =
    let m : ip.addrs ndirect == 0 ≡ false = ground arith in
    let place = sym at in
    let e' = subst (λ x. free_indirect nindirect 0 (s.block x) s ≡ some t) place e in
    let e2' = subst (λ x. bfree x t ≡ some u) place e2 in
    let clear : Disk → Inode × Disk = λ v. (record ip { addrs = update ip.addrs ndirect 0 }, v) in
    let after : Option Disk → Option (Inode × Disk) =
      λ o. elim o [ none ↦ none | some t ↦ Option.map clear (bfree (ip.addrs ndirect) t) ] in
    rw m (ap after e' ∙ ap (Option.map clear) e2')

-- `itrunc` of an inode whose blocks are its own ends without a panic. The size is 0 and no address is
-- left; each block that it had, the indirect one too, is free, and every other block of the disk is
-- in use or free as before; no block outside the free map changes but the one that has the inode.
pub itrunc_lem :
    (ip : Inode) (d : Disk)
    → Owns ip d
    → (ip' : Inode) × (d' : Disk) × (itrunc ip d ≡ some (ip', d'))
      × (ip'.size ≡ 0)
      × ((k : ℕ) → k ≤ ndirect → ip'.addrs k ≡ 0)
      × ((k : ℕ) → k ≤ blocks → own ip d k ≢ 0 → in_use d' (own ip d k) ≡ false)
      × ((y : ℕ)
          → y < d.sb.size
          → ((k : ℕ) → k ≤ blocks → own ip d k ≢ y)
          → in_use d' y ≡ in_use d y)
      × ((z : ℕ)
          → ((y : ℕ) → y < d.sb.size → bblock y d.sb ≢ z)
          → iblock ip.inum d.sb ≢ z
          → d'.block z ≡ d.block z)
itrunc_lem ip d o =
    let (s, ip1, r, c, em) = direct_run ip d o in
    let index = c.above ndirect (omega arith) in
    elim (Bool-cases (ip.addrs ndirect == 0)) [
      | inl y ↦
          let z : ip.addrs ndirect ≡ 0 = ground arith in
          let all =
            Emptied-trans ip d o 0 ndirect (blocks + 1) (omega arith) (omega arith) (omega arith) em
              (no_index ip d o s z) in
          let last : Inode = record ip1 { size = 0 } in
          let (cleared, kept, outside) = freed ip d o last s c.inum all in
          (
            last,
            iupdate last s,
            itrunc_run ip ip1 ip1 d s s r (free_block-none ip1 s (index ∙ z)),
            refl,
            λ k h. elim (Bool-cases (k == ndirect)) [
              | inl q ↦ ap ip1.addrs (ground arith) ∙ index ∙ z
              | inr q ↦ c.gone k (omega arith) (ground arith)
            ],
            cleared,
            kept,
            outside,
          )
      | inr n ↦
          let (t, u, e, e2, all) = index_run ip d o s em (ground arith) in
          let last : Inode = record ip1 { addrs = update ip1.addrs ndirect 0; size = 0 } in
          let (cleared, kept, outside) = freed ip d o last u c.inum all in
          (
            last,
            iupdate last u,
            itrunc_run ip ip1 (record ip1 { addrs = update ip1.addrs ndirect 0 }) d s u r
                (free_block-some ip1 (ip.addrs ndirect) s t u index (ground arith) e e2),
            refl,
            λ k h. elim (Bool-cases (k == ndirect)) [
              | inl q ↦
                  (let here : k ≡ ndirect = ground arith in ap last.addrs here)
                  ∙ update_self ip1.addrs ndirect 0
              | inr q ↦
                  update_ne ip1.addrs ndirect 0 k (ground arith)
                  ∙ c.gone k (omega arith) (ground arith)
            ],
            cleared,
            kept,
            outside,
          )
    ]
