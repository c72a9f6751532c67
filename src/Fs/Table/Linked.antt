-- ===== src/Fs/Table/Linked.antt =====
-- What ialloc and dirlink do to the references and the locks of the table.
use operating_systems.Prelude.{
  ℕ, zero, suc, ◌+◌, ◌-◌, ◌*◌, ◌/◌, ◌%◌, ◌^◌, ◌≤◌, ◌<◌, ◌≡◌, sym, ◌∙◌, subst, inl, inr, Bool, true,
  false, Option, none, some, List, arith, ltb, ◌==◌, if◌then◌else◌, Bool-cases, Option-cases,
  length,
}
use operating_systems.Fs.{log_write, Disk}
use operating_systems.Fs.Inode.{readi, writei, iblock, ipb, put_dinode, get_word, Inode}
use operating_systems.Fs.Table.{
  Table, Outcome, done, panics, iget, iput, dirlookup, dirent, de_inum,
}
use operating_systems.Fs.Table.Link.{
  ialloc_loop, ialloc, empty_loop, put_entry, link_new, dirlink, de_byte, get_total, blank,
}
use operating_systems.Fs.Table.Refs.{
  Ends, Ends-bind, Ends-map, Net, Net-refl, Less, iget_lem, iput_lem, with_inode, with_inode-Net,
  with_inode_size,
}
use operating_systems.Fs.Table.Lookup.{Net-trans, dirlookup_lem}
use operating_systems.Fs.Table.Sizes.{readi_size, OnSome}

ialloc_loop_lem :
    (left inum dev type : ℕ) (s : Table)
    → Ends (λ r. Net s r.1 (some r.0)) (ialloc_loop left inum dev type s)
unfolding ialloc_loop
ialloc_loop_lem zero inum dev type s = tt
ialloc_loop_lem (suc left) inum dev type s =
    let d = s.disk in
    let b = iblock inum d.sb in
    let t : Table = record s {
      disk = log_write b (put_dinode (d.block b) (inum % ipb) (blank type)) d;
    } in
    elim (Bool-cases (get_word (d.block b) (16 * (inum % ipb)) % 2 ^ 16 == 0)) [
      | inr n ↦ rw n (ialloc_loop_lem left (inum + 1) dev type s)
      | inl y ↦ rw y (
          Ends-map (λ r. Net t r.1 (some r.0)) (λ r. Net s r.1 (some r.0)) (iget dev inum t)
            (iget_lem dev inum t) (λ r n. record { refs = λ j. n.refs j; locks = λ j. n.locks j }))
    ]

-- ialloc gains a reference to the inode that it returns, and no other, and each lock has the
-- holder it had; it panics when no inode is free, on the disk or in the table.
pub ialloc_lem : (dev type : ℕ) (s : Table) → Ends (λ r. Net s r.1 (some r.0)) (ialloc dev type s)
unfolding ialloc
ialloc_lem dev type s = ialloc_loop_lem (s.disk.sb.ninodes - 1) 1 dev type s

empty_loop_lem :
    (fuel i off : ℕ) (s : Table)
    → off < (s.entry i).ip.size + dirent
    → (s.entry i).ip.size + dirent ≤ off + dirent * fuel
    → Ends (λ r. Net s r.1 none) (empty_loop fuel i off s)
unfolding empty_loop
empty_loop_lem zero i off s start enough = absurd (omega arith)
empty_loop_lem (suc fuel) i off s start enough = elim (Bool-cases (ltb off (s.entry i).ip.size)) [
  | inr over ↦ rw over (Net-refl s)
  | inl more ↦ elim (Option-cases (readi (λ p m. true) off dirent (s.entry i).ip s.disk)) [
    | inl e ↦ rw (more, e) tt
    | inr (r, e) ↦
        let size : r.2.size ≡ (s.entry i).ip.size =
          subst (OnSome (λ r. r.2.size ≡ (s.entry i).ip.size)) e
            (readi_size (λ p m. true) off dirent (s.entry i).ip s.disk) in
        let t = with_inode i s r.2 r.3 in
        let net = with_inode-Net i s r.2 r.3 in
        let here = with_inode_size i s r.2 r.3 ∙ size in
        elim (Bool-cases (length r.1 == dirent)) [
          | inr short ↦ rw (more, e, short) tt
          | inl full ↦ elim (Bool-cases (de_inum r.1 == 0)) [
            | inl hit ↦ rw (more, e, full, hit) net
            | inr miss ↦
                rw (more, e, full, miss)
                  (Ends-map (λ q. Net t q.1 none) (λ q. Net s q.1 none)
                    (empty_loop fuel i (off + dirent) t)
                    (empty_loop_lem fuel i (off + dirent) t (rw here (ground arith))
                      (rw here (omega arith)))
                    (λ q n. Net-trans s t q.1 none net n))
          ]
        ]
  ]
]

put_entry_lem :
    (i inum : ℕ) (name : List ℕ) (s : Table) (r : ℕ × Table)
    → Net s r.1 none
    → Ends (λ q. Net s q.1 none) (put_entry i inum name r)
unfolding put_entry
put_entry_lem i inum name s (off, t) a =
    let after : Option (Option ℕ × Inode × Disk) → Outcome (Bool × Table) = λ o. elim o [
      | none ↦ panics
      | some r ↦ if get_total r.0 == dirent then done (true, with_inode i t r.1 r.2) else panics
    ] in
    let wrote = writei (λ tot m. m) (de_byte inum name) off dirent (t.entry i).ip t.disk in
    elim (Option-cases wrote) [
      | inl e ↦ subst (λ o. Ends (λ q. Net s q.1 none) (after o)) (sym e) tt
      | inr (r, e) ↦
          subst (λ o. Ends (λ q. Net s q.1 none) (after o)) (sym e)
            (elim (Bool-cases (get_total r.0 == dirent)) [
              | inr short ↦ rw short tt
              | inl full ↦
                  rw full
                    (Net-trans s t (with_inode i t r.1 r.2) none a (with_inode-Net i t r.1 r.2))
            ])
    ]

link_new_lem :
    (i inum : ℕ) (name : List ℕ) (s : Table) (r : Option ℕ × Table)
    → Net s r.1 r.0
    → Ends (λ q. Net s q.1 none) (link_new i inum name r)
unfolding link_new
link_new_lem i inum name s (none, t) a =
    let fuel = (t.entry i).ip.size / dirent + 2 in
    Ends-bind (λ r. Net t r.1 none) (λ q. Net s q.1 none) (empty_loop fuel i 0 t)
      (put_entry i inum name) (empty_loop_lem fuel i 0 t (omega arith) (omega arith))
      (λ r b. put_entry_lem i inum name s r (Net-trans s t r.1 none a b))
link_new_lem i inum name s (some n, t) a =
    Ends-bind (λ u. Less t u n) (λ q. Net s q.1 none) (iput n t) (λ u. done (false, u))
      (iput_lem n t (let p = a.refs n in ground arith))
      (λ u e. record {
        refs = λ j. (let p = a.refs j in let y = e.refs j in omega arith);
        locks = λ j. e.locks j ∙ a.locks j;
      })

-- dirlink loses and gains no reference, also where the name is taken and it gives up the inode that
-- it looked up, and each lock has the holder it had; it returns, or it panics, or the process waits
-- for a lock, and its loops end on every directory.
pub dirlink_lem :
    (i : ℕ) (name : List ℕ) (inum : ℕ) (s : Table)
    → Ends (λ r. Net s r.1 none) (dirlink i name inum s)
unfolding dirlink
dirlink_lem i name inum s =
    Ends-bind (λ q. Net s q.1 q.0) (λ r. Net s r.1 none) (dirlookup i name s) (link_new i inum name)
      (dirlookup_lem i name s) (λ r a. link_new_lem i inum name s r a)
