-- ===== src/Fs/Writei.antt =====
-- `writei` as a whole, and the inode on the disk.
use operating_systems.Prelude.{
  ℕ, ◌+◌, ◌*◌, ◌/◌, ◌%◌, ◌<◌, ◌≡◌, refl, sym, ◌≢◌, ◌⊎◌, inl, inr, Option, none, some, ◌∷◌, arith,
  ltb, ◌==◌, if◌then◌else◌, Bool-cases, update_ne,
}
use operating_systems.Fs.Bmap.{Full}
use operating_systems.Fs.{Disk, bsize}
use operating_systems.Fs.Inode.{splice, Inode, iblock, put_dinode, iupdate, ipb}
use operating_systems.Fs.Owner.{blocks, own, content, Owns, Other}
use operating_systems.Fs.Change.{Changes, put-own, put-Owns, put_others}

-- `iupdate` writes the inode's block only.
module _ (ip : Inode) (d : Disk) (o : Owns ip d) where
  pub iupdate-Owns : Owns ip (iupdate ip d)
  unfolding iupdate
  iupdate-Owns =
      put-Owns ip d o (iblock ip.inum d.sb)
        (put_dinode (d.block (iblock ip.inum d.sb)) (ip.inum % ipb) ip)
        (iblock ip.inum d.sb ∷ d.writes) o.inode_map
        (λ n e. o.inode_apart blocks (omega arith) n (sym e))

  pub iupdate-content :
      (off : ℕ) → off < blocks * bsize → content ip (iupdate ip d) off ≡ content ip d off
  unfolding content iupdate
  iupdate-content off h =
      let b = iblock ip.inum d.sb in
      let blk = put_dinode (d.block b) (ip.inum % ipb) ip in
      let k = off / bsize in
      let same =
        put-own ip d o b blk (b ∷ d.writes) o.inode_map
          (λ n e. o.inode_apart blocks (omega arith) n (sym e)) k (omega arith) in
      elim (Bool-cases (own ip d k == 0)) [
        | inl y ↦ rw (same, y) refl
        | inr n ↦
            let apart : b ≢ own ip d k = o.inode_apart k (omega arith) (ground arith) in
            rw (same, n, update_ne d.block b blk (own ip d k) apart) refl
      ]

  pub iupdate-others :
      (y : ℕ)
      → iblock ip.inum d.sb ≢ y
      → Other ip d y
      → Other ip (iupdate ip d) y × ((iupdate ip d).block y ≡ d.block y)
  unfolding iupdate
  iupdate-others y ne h =
      let b = iblock ip.inum d.sb in
      put_others ip d o b (put_dinode (d.block b) (ip.inum % ipb) ip) (b ∷ d.writes) o.inode_map
        (λ n e. o.inode_apart blocks (omega arith) n (sym e)) y ne h

-- How `writei` ends when the range is one that a file can have.
abbrev pub WriteEnds :
    (ℕ → ℕ → ℕ) → (ℕ → ℕ) → ℕ → ℕ → Inode → Disk → Option (Option ℕ × Inode × Disk) → Type 0
WriteEnds copyin src off n ip d r =
    ((r ≡ none) × ((f : ℕ → ℕ) × (ip' : Inode) × (d' : Disk) × Changes ip d ip' d' f × Full d'))
    ⊎ ((k c : ℕ) × (ip' : Inode) × (d' : Disk) × (r ≡ some (some k, ip', d'))
        × Owns ip' d'
        × ((x : ℕ)
            → x < blocks * bsize
            → content ip' d' x ≡ splice (content ip d) off (k + c) src x)
        × (ip'.size ≡ (if ltb ip.size (off + k) then off + k else ip.size))
        × ((z : ℕ)
            → Other ip d z
            → iblock ip.inum d.sb ≢ z
            → Other ip' d' z × (d'.block z ≡ d.block z))
        × (((k ≡ n) × (c ≡ 0)) ⊎ ((k + c < n) × ((p : ℕ) × (m : ℕ) × (copyin p m < m)))))
