-- ===== src/Fs/Bmap.antt =====
-- What `bmap` gives.
use operating_systems.Prelude.{
  ℕ, ◌+◌, ◌-◌, ◌<◌, ◌≡◌, refl, sym, ap, ◌∙◌, ◌≢◌, ◌⊎◌, inl, inr, true, false, Option, none, some,
  arith, ltb, ◌==◌, Bool-cases, update, update_ne,
}
use operating_systems.Fs.{Disk, in_use, bblock, log_write}
use operating_systems.Fs.Inode.{
  Inode, direct, indirect, bmap, ndirect, nindirect, get_word, put_word,
}
use operating_systems.Fs.Alloc.{balloc_lem}
use operating_systems.Fs.Owner.{
  own_low, own_top, own_mid, blocks, own, Owns, Grows, Grows-refl, Grows-trans,
}
use operating_systems.Fs.Claim.{claim-Grows}
use operating_systems.Fs.Slots.{x_nonzero, block_same, direct_slots, top_slots, word_slots}
use operating_systems.Fs.Words.{in_use-log_write}

-- Every block of the disk is in use.
abbrev pub Full : Disk → Type 0
Full d = (y : ℕ) → y < d.sb.size → in_use d y ≡ true

-- After blocks that the inode may have got there is no block left.
abbrev pub Stuck : Inode → Disk → Type 0
Stuck ip d = (ip' : Inode) × (d' : Disk) × Grows ip d ip' d' × Full d'

-- The block at a place is given, and the inode has it; or there was none to claim.
abbrev pub Got : Inode → Disk → ℕ → Option (ℕ × Inode × Disk) → Type 0
Got ip d j r =
    ((r ≡ none) × Stuck ip d)
    ⊎ ((a : ℕ) × (ip' : Inode) × (d' : Disk) × (r ≡ some (a, ip', d'))
        × Grows ip d ip' d'
        × (own ip' d' j ≡ a)
        × (a ≢ 0))

direct_lem : (ip : Inode) (k : ℕ) (d : Disk) → Owns ip d → k < ndirect → Got ip d k (direct ip k d)
unfolding direct
direct_lem ip k d o hk = elim (Bool-cases (ip.addrs k == 0)) [
  | inr n ↦ inr (ip.addrs k, ip, d, rw n refl, Grows-refl ip d o, own_low ip d k hk, ground arith)
  | inl y ↦ elim (balloc_lem d o.map) [
    | inl (e, full) ↦ inl (rw (y, e) refl, (ip, d, Grows-refl ip d o, full))
    | inr (x, t, e, small, free, first, bits, zeros, others, sb) ↦
        let ip' : Inode = record ip { addrs = update ip.addrs k x } in
        let slots = direct_slots ip d o x t small free others k hk in
        inr (
          x,
          ip',
          t,
          rw (y, e) refl,
          claim-Grows ip d o ip' t k x (omega arith) (own_low ip d k hk ∙ ground arith) small free
              slots bits (λ i h. ap (λ f. f i) zeros)
              (λ z u s m b. block_same ip d o x t small free others z u m) sb refl refl,
          slots k (omega arith) ∙ ground arith,
          x_nonzero ip d o x t small free others,
        )
  ]
]

-- The indirect block.
top_lem : (ip : Inode) (d : Disk) → Owns ip d → Got ip d blocks (direct ip ndirect d)
unfolding direct
top_lem ip d o = elim (Bool-cases (ip.addrs ndirect == 0)) [
  | inr n ↦ inr (
    ip.addrs ndirect,
    ip,
    d,
    rw n refl,
    Grows-refl ip d o,
    own_top ip d blocks refl,
    ground arith,
  )
  | inl y ↦ elim (balloc_lem d o.map) [
    | inl (e, full) ↦ inl (rw (y, e) refl, (ip, d, Grows-refl ip d o, full))
    | inr (x, t, e, small, free, first, bits, zeros, others, sb) ↦
        let ip' : Inode = record ip { addrs = update ip.addrs ndirect x } in
        let slots = top_slots ip d o x t small free others zeros (ground arith) in
        inr (
          x,
          ip',
          t,
          rw (y, e) refl,
          claim-Grows ip d o ip' t blocks x (omega arith) (own_top ip d blocks refl ∙ ground arith)
              small free slots bits (λ i h. absurd (omega arith))
              (λ z u s m b. block_same ip d o x t small free others z u m) sb refl refl,
          slots blocks (omega arith) ∙ ground arith,
          x_nonzero ip d o x t small free others,
        )
  ]
]

indirect_lem :
    (ip : Inode) (k : ℕ) (d : Disk)
    → Owns ip d
    → k < nindirect
    → ip.addrs ndirect ≢ 0
    → Got ip d (k + ndirect) (indirect (ip.addrs ndirect) ip k d)
unfolding indirect
indirect_lem ip k d o hk n =
    let b = ip.addrs ndirect in
    let top = own_top ip d blocks refl in
    let owned : own ip d blocks ≢ 0 = λ e. n (sym top ∙ e) in
    let some_there : b == 0 ≡ false = ground arith in
    let mid : own ip d (k + ndirect) ≡ get_word (d.block b) k =
      own_mid ip d (k + ndirect) (omega arith) (omega arith)
      ∙ rw some_there (ap (get_word (d.block b)) (omega arith)) in
    elim (Bool-cases (get_word (d.block b) k == 0)) [
      | inr m ↦ inr (get_word (d.block b) k, ip, d, rw m refl, Grows-refl ip d o, mid, ground arith)
      | inl y ↦ elim (balloc_lem d o.map) [
        | inl (e, full) ↦ inl (rw (y, e) refl, (ip, d, Grows-refl ip d o, full))
        | inr (x, t, e, small, free, first, bits, zeros, others, sb) ↦
            let blk = put_word (t.block b) k x in
            let t' : Disk = log_write b blk t in
            let slots = word_slots ip d o x t small free others k hk n in
            let apart : b ≢ x = λ z.
              (let used = o.used blocks (omega arith) owned in
                let same = ap (in_use d) (top ∙ z) in cc) in
            inr (
              x,
              ip,
              t',
              rw (y, e) refl,
              claim-Grows ip d o ip t' (k + ndirect) x (omega arith) (mid ∙ ground arith) small free
                  slots
                  (λ z hz.
                    in_use-log_write t b z blk (λ q.
                      o.apart blocks z (omega arith) owned hz
                        (sym (ap (bblock z) sb) ∙ q ∙ sym top))
                    ∙ bits z hz)
                  (λ i h. ap (λ f. f i) (update_ne t.block b blk x apart ∙ zeros))
                  (λ z u s m ne.
                    update_ne t.block b blk z (λ q. ne (top ∙ q))
                    ∙ block_same ip d o x t small free others z u m)
                  sb refl refl,
              slots (k + ndirect) (omega arith) ∙ ground arith,
              x_nonzero ip d o x t small free others,
            )
      ]
    ]

pub Stuck-trans : {ip ip' : Inode} {d d' : Disk} → Grows ip d ip' d' → Stuck ip' d' → Stuck ip d
Stuck-trans g (ip'', d'', g', full) = (ip'', d'', Grows-trans g g', full)

pub bmap_lem :
    (ip : Inode) (bn : ℕ) (d : Disk) → Owns ip d → bn < blocks → Got ip d bn (bmap ip bn d)
unfolding bmap
bmap_lem ip bn d o h = elim (Bool-cases (ltb bn ndirect)) [
  | inl y ↦ rw y (direct_lem ip bn d o (ground arith))
  | inr n ↦
      let fits : ltb (bn - ndirect) nindirect ≡ true = ground arith in
      let place : bn - ndirect + ndirect ≡ bn = ground arith in
      elim (top_lem ip d o) [
        | inl (e, full) ↦ inl (rw (n, fits, e) refl, full)
        | inr (a, ip', d', e, g, at, nz) ↦
            let top : ip'.addrs ndirect ≡ a = sym (own_top ip' d' blocks refl) ∙ at in
            elim (indirect_lem ip' (bn - ndirect) d' g.owns (ground arith)
              (λ z. nz (sym top ∙ z))) [
                | inl (e', full) ↦ inl (rw (n, fits, e, sym top) e', Stuck-trans g full)
                | inr (c, ip'', d'', e', g', at', nz') ↦ inr (
                  c,
                  ip'',
                  d'',
                  rw (n, fits, e, sym top) e',
                  Grows-trans g g',
                  ap (own ip'' d'') (sym place) ∙ at',
                  nz',
                )
              ]
      ]
]
