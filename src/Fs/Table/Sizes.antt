-- ===== src/Fs/Table/Sizes.antt =====
-- `readi` leaves the size of the inode.
use operating_systems.Prelude.{
  ℕ, zero, suc, ◌+◌, ◌-◌, ◌/◌, ◌%◌, ◌^◌, ◌≡◌, refl, subst, inl, inr, Bool, ◌||◌, Option, none, some,
  List, [], ◌++◌, ltb, ◌==◌, if◌then◌else◌, Bool-cases, Option-cases,
}
use operating_systems.Fs.{Disk, balloc, bsize}
use operating_systems.Fs.Inode.{
  Inode, direct, indirect, bmap, ndirect, nindirect, readi_loop, readi, get_word, room, slice,
}

-- What holdingsleep of the value, where there is one.
abbrev pub OnSome : {A : Type 0} → (A → Type 0) → Option A → Type 0
OnSome P none = Unit
OnSome P (some a) = P a

direct_size : (ip : Inode) (k : ℕ) (d : Disk) → OnSome (λ r. r.1.size ≡ ip.size) (direct ip k d)
unfolding direct
direct_size ip k d = elim (Bool-cases (ip.addrs k == 0)) [
  | inr n ↦ rw n refl
  | inl y ↦ elim (Option-cases (balloc d)) [ inl e ↦ rw (y, e) tt | inr (r, e) ↦ rw (y, e) refl ]
]

indirect_size :
    (b : ℕ) (ip : Inode) (k : ℕ) (d : Disk) → OnSome (λ r. r.1.size ≡ ip.size) (indirect b ip k d)
unfolding indirect
indirect_size b ip k d = elim (Bool-cases (get_word (d.block b) k == 0)) [
  | inr n ↦ rw n refl
  | inl y ↦ elim (Option-cases (balloc d)) [ inl e ↦ rw (y, e) tt | inr (r, e) ↦ rw (y, e) refl ]
]

bmap_size : (ip : Inode) (bn : ℕ) (d : Disk) → OnSome (λ r. r.1.size ≡ ip.size) (bmap ip bn d)
unfolding bmap
bmap_size ip bn d = elim (Bool-cases (ltb bn ndirect)) [
  | inl y ↦ rw y (direct_size ip bn d)
  | inr n ↦ elim (Bool-cases (ltb (bn - ndirect) nindirect)) [
    | inr m ↦ rw (n, m) tt
    | inl f ↦ elim (Option-cases (direct ip ndirect d)) [
      | inl e ↦ rw (n, f, e) tt
      | inr (r, e) ↦
          let first : r.1.size ≡ ip.size =
            subst (OnSome (λ r. r.1.size ≡ ip.size)) e (direct_size ip ndirect d) in
          rw (n, f, e)
            (subst (λ z. OnSome (λ q. q.1.size ≡ z) (indirect r.0 r.1 (bn - ndirect) r.2)) first
              (indirect_size r.0 r.1 (bn - ndirect) r.2))
    ]
  ]
]

readi_loop_size :
    (copyout : ℕ → ℕ → Bool) (fuel tot n off : ℕ) (bytes : List ℕ) (ip : Inode) (d : Disk)
    → OnSome (λ r. r.2.size ≡ ip.size) (readi_loop copyout fuel tot n off bytes ip d)
unfolding readi_loop
readi_loop_size copyout zero tot n off bytes ip d = tt
readi_loop_size copyout (suc fuel) tot n off bytes ip d = elim (Bool-cases (ltb tot n)) [
  | inr y ↦ rw y refl
  | inl more ↦ elim (Option-cases (bmap ip (off / bsize) d)) [
    | inl e ↦ rw (more, e) tt
    | inr (r, e) ↦
        let first : r.1.size ≡ ip.size =
          subst (OnSome (λ r. r.1.size ≡ ip.size)) e (bmap_size ip (off / bsize) d) in
        elim (Bool-cases (copyout tot (room tot n off))) [
          | inr refused ↦ rw (more, e, refused) first
          | inl copied ↦
              let m = room tot n off in
              rw (more, e, copied)
                (subst
                  (λ z.
                    OnSome (λ q. q.2.size ≡ z)
                      (readi_loop copyout fuel ((tot + m) % 2 ^ 32) n ((off + m) % 2 ^ 32)
                        (bytes ++ slice (r.2.block r.0) (off % bsize) m) r.1 r.2))
                  first
                  (readi_loop_size copyout fuel ((tot + m) % 2 ^ 32) n ((off + m) % 2 ^ 32)
                    (bytes ++ slice (r.2.block r.0) (off % bsize) m) r.1 r.2))
        ]
  ]
]

pub readi_size :
    (copyout : ℕ → ℕ → Bool) (off n : ℕ) (ip : Inode) (d : Disk)
    → OnSome (λ r. r.2.size ≡ ip.size) (readi copyout off n ip d)
unfolding readi
readi_size copyout off n ip d =
    elim (Bool-cases (ltb ip.size off || ltb ((off + n) % 2 ^ 32) off)) [
      | inl y ↦ rw y refl
      | inr m ↦
          let n' = if ltb ip.size ((off + n) % 2 ^ 32) then ip.size - off else n in
          rw m (readi_loop_size copyout (n' + 1) 0 n' off [] ip d)
    ]
