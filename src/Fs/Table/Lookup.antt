-- ===== src/Fs/Table/Lookup.antt =====
-- dirlookup keeps account of references and locks.
use operating_systems.Prelude.{
  ℕ, zero, suc, ◌+◌, ◌*◌, ◌/◌, ◌≤◌, ◌<◌, ◌≡◌, ◌∙◌, subst, inl, inr, true, ◌&&◌, not, Option, none,
  some, List, arith, ltb, ◌==◌, Bool-cases, Option-cases, length, drop,
}
use operating_systems.Fs.Inode.{readi}
use operating_systems.Fs.Table.{
  Table, done, iget, lookup_loop, found, dirlookup, de_inum, dirent, namecmp, t_dir,
}
use operating_systems.Fs.Table.Refs.{
  Ends, Ends-bind, Ends-map, Net, Net-refl, iget_lem, with_inode, with_inode-Net, with_inode_size,
}
use operating_systems.Fs.Table.Sizes.{readi_size, OnSome}
use operating_systems.Path.{dirsiz}

pub Net-trans : (s t u : Table) (o : Option ℕ) → Net s t none → Net t u o → Net s u o
Net-trans s t u o a b = record {
  refs = λ j. (let x = a.refs j in let y = b.refs j in omega arith);
  locks = λ j. b.locks j ∙ a.locks j;
}

lookup_loop_lem :
    (fuel i off : ℕ) (name : List ℕ) (s : Table)
    → off < (s.entry i).ip.size + dirent
    → (s.entry i).ip.size + dirent ≤ off + dirent * fuel
    → Ends (λ r. Net s r.1 none) (lookup_loop fuel i off name s)
unfolding lookup_loop
lookup_loop_lem zero i off name s start enough = absurd (omega arith)
lookup_loop_lem (suc fuel) i off name s start enough =
    elim (Bool-cases (ltb off (s.entry i).ip.size)) [
      | inr over ↦ rw over (Net-refl s)
      | inl more ↦ elim (Option-cases (readi (λ p m. true) off dirent (s.entry i).ip s.disk)) [
        | inl e ↦ rw (more, e) tt
        | inr (r, e) ↦
            let size : r.2.size ≡ (s.entry i).ip.size =
              subst (OnSome (λ r. r.2.size ≡ (s.entry i).ip.size)) e
                (readi_size (λ p m. true) off dirent (s.entry i).ip s.disk) in
            let t = with_inode i s r.2 r.3 in
            let net = with_inode-Net i s r.2 r.3 in
            let here = with_inode_size i s r.2 r.3 ∙ size in
            elim (Bool-cases (length r.1 == dirent)) [
              | inr short ↦ rw (more, e, short) tt
              | inl full ↦
                  elim (Bool-cases (not (de_inum r.1 == 0) && namecmp dirsiz 0 name (drop 2 r.1))) [
                    | inl hit ↦ rw (more, e, full, hit) net
                    | inr miss ↦
                        rw (more, e, full, miss)
                          (Ends-map (λ q. Net t q.1 none) (λ q. Net s q.1 none)
                            (lookup_loop fuel i (off + dirent) name t)
                            (lookup_loop_lem fuel i (off + dirent) name t (rw here (ground arith))
                              (rw here (omega arith)))
                            (λ q n. Net-trans s t q.1 none net n))
                  ]
            ]
      ]
    ]

found_lem :
    (dev : ℕ) (s : Table) (r : Option ℕ × Table)
    → Net s r.1 none
    → Ends (λ q. Net s q.1 q.0) (found dev r)
unfolding found
found_lem dev s (none, t) n = n
found_lem dev s (some inum, t) n =
    Ends-bind (λ r. Net t r.1 (some r.0)) (λ q. Net s q.1 q.0) (iget dev inum t)
      (λ r. done (some r.0, r.1)) (iget_lem dev inum t) (λ r m. Net-trans s t r.1 (some r.0) n m)

pub dirlookup_lem :
    (i : ℕ) (name : List ℕ) (s : Table) → Ends (λ q. Net s q.1 q.0) (dirlookup i name s)
unfolding dirlookup
dirlookup_lem i name s =
    let fuel = (s.entry i).ip.size / dirent + 2 in
    elim (Bool-cases ((s.entry i).ip.type == t_dir)) [
      | inr n ↦ rw n tt
      | inl y ↦ rw y (
          Ends-bind (λ r. Net s r.1 none) (λ q. Net s q.1 q.0) (lookup_loop fuel i 0 name s)
            (found (s.entry i).ip.dev) (lookup_loop_lem fuel i 0 name s (omega arith) (omega arith))
            (λ r n. found_lem (s.entry i).ip.dev s r n))
    ]
