-- ===== src/Fs/Table/Refs.antt =====
-- What each operation does to the references and the locks of the table.
use operating_systems.Prelude.{
  ℕ, zero, suc, ◌+◌, ◌<◌, ◌≡◌, refl, sym, ap, ◌∙◌, subst, inl, inr, ◌&&◌, ◌||◌, not, Option, none,
  some, arith, ltb, ◌==◌, if◌then◌else◌, Bool-cases, Option-cases, update, update_self,
}
use operating_systems.Fs.{Disk}
use operating_systems.Fs.Inode.{itrunc, load_inode, Inode}
use operating_systems.Fs.Table.{
  Table, Outcome, done, waits, panics, no_fuel, ◌>>=◌, set_entry, search_table, iget_at, iget, idup,
  fill_inode, ilock, holdingsleep, iunlock, free_inode, drop_ref, iput, ninode, is_free,
}

-- An outcome that is done has the property; a process may wait or panic; no loop is out of fuel.
abbrev pub Ends : {A : Type 0} → (A → Type 0) → Outcome A → Type 0
Ends P (done a) = P a
Ends P waits = Unit
Ends P panics = Unit
Ends P no_fuel = ⊥

pub Ends-bind :
    {A B : Type 0} (P : A → Type 0) (Q : B → Type 0) (o : Outcome A) (f : A → Outcome B)
    → Ends P o
    → ((a : A) → P a → Ends Q (f a))
    → Ends Q (o >>= f)
Ends-bind P Q (done a) f h k = k a h
Ends-bind P Q waits f h k = tt
Ends-bind P Q panics f h k = tt
Ends-bind P Q no_fuel f h k = h

-- One for the inode that is referred to.
abbrev pub count : Option ℕ → ℕ → ℕ
count none j = 0
count (some i) j = if i == j then 1 else 0

-- From `s` to `t`, a reference to `o` is gained, and the locks are the same.
pub record Net (s t : Table) (o : Option ℕ) : Type 0 where
  pub refs : (j : ℕ) → (t.entry j).ref ≡ (s.entry j).ref + count o j
  pub locks : (j : ℕ) → (t.entry j).holder ≡ (s.entry j).holder

pub Net-refl : (s : Table) → Net s s none
Net-refl s = record { refs = λ j. omega arith; locks = λ j. refl }

pub Ends-map :
    {A : Type 0} (P Q : A → Type 0) (o : Outcome A) → Ends P o → ((a : A) → P a → Q a) → Ends Q o
Ends-map P Q (done a) h k = k a h
Ends-map P Q waits h k = tt
Ends-map P Q panics h k = tt
Ends-map P Q no_fuel h k = h

-- The search finds a free entry or one in use for the inode.
search_lem :
    (left i dev inum : ℕ) (empty : Option ℕ) (s : Table)
    → ((x : ℕ) → empty ≡ some x → (s.entry x).ref ≡ 0)
    → (x : ℕ) → (search_table left i dev inum empty s).1 ≡ some x
    → (s.entry x).ref ≡ 0
unfolding search_table
search_lem zero i dev inum empty s h x e = h x e
search_lem (suc left) i dev inum (some z) s h x e =
    elim (Bool-cases
      (ltb 0 (s.entry i).ref && (s.entry i).ip.dev == dev && (s.entry i).ip.inum == inum)) [
        | inl y ↦ h x (sym (rw y refl) ∙ e)
        | inr n ↦ search_lem left (i + 1) dev inum (some z) s h x (sym (rw n refl) ∙ e)
      ]
search_lem (suc left) i dev inum none s h x e =
    elim (Bool-cases
      (ltb 0 (s.entry i).ref && (s.entry i).ip.dev == dev && (s.entry i).ip.inum == inum)) [
        | inl y ↦ h x (sym (rw y refl) ∙ e)
        | inr n ↦ elim (Bool-cases ((s.entry i).ref == 0)) [
          | inl free ↦
              search_lem left (i + 1) dev inum (some i) s
                (λ z q.
                  (let same : i ≡ z = cc in subst (λ w. (s.entry w).ref ≡ 0) same (ground arith)))
                x (sym (rw (n, free) refl) ∙ e)
          | inr used ↦ search_lem left (i + 1) dev inum none s h x (sym (rw (n, used) refl) ∙ e)
        ]
      ]

iget_at_lem :
    (dev inum : ℕ) (s : Table) (r : Option ℕ × Option ℕ)
    → ((x : ℕ) → r.1 ≡ some x → (s.entry x).ref ≡ 0)
    → Ends (λ r. Net s r.1 (some r.0)) (iget_at dev inum s r)
unfolding iget_at
iget_at_lem dev inum s (some i, empty) h = record {
  refs = λ j. ground arith;
  locks = λ j. ground arith;
}
iget_at_lem dev inum s (none, none) h = tt
iget_at_lem dev inum s (none, some i) h =
    let free = h i refl in record { refs = λ j. ground arith; locks = λ j. ground arith }

pub iget_lem : (dev inum : ℕ) (s : Table) → Ends (λ r. Net s r.1 (some r.0)) (iget dev inum s)
unfolding iget
iget_lem dev inum s =
    iget_at_lem dev inum s (search_table ninode 0 dev inum none s)
      (search_lem ninode 0 dev inum none s (λ x q. absurd (let clash = q in cc)))

pub idup_lem : (i : ℕ) (s : Table) → Net s (idup i s).1 (some i)
unfolding idup
idup_lem i s = record { refs = λ j. ground arith; locks = λ j. ground arith }

-- The lock of an inode is taken, or given back; the references are the same.
pub record Locks (s t : Table) (i : ℕ) (p : Option ℕ) : Type 0 where
  pub refs : (j : ℕ) → (t.entry j).ref ≡ (s.entry j).ref
  pub locks : (j : ℕ) → (t.entry j).holder ≡ (if i == j then p else (s.entry j).holder)

fill_inode_lem : (i : ℕ) (s : Table) → Ends (λ t. Net s t none) (fill_inode i s)
unfolding fill_inode
fill_inode_lem i s = elim (Bool-cases (s.entry i).valid) [
  | inl y ↦ rw y (Net-refl s)
  | inr n ↦ elim (Bool-cases ((load_inode (s.entry i).ip s.disk).type == 0)) [
    | inl z ↦ rw (n, z) tt
    | inr z ↦ rw (n, z) (record { refs = λ j. ground arith; locks = λ j. ground arith })
  ]
]

pub record Took (s t : Table) (me i : ℕ) : Type 0 where
  pub locked : Locks s t i (some me)
  pub was_free : (s.entry i).holder ≡ none

abbrev taken : ℕ → ℕ → Table → Table
taken me i s = (let e = s.entry i in set_entry s i (record e { holder = some me }))

pub ilock_lem : (me i : ℕ) (s : Table) → Ends (λ t. Took s t me i) (ilock me i s)
unfolding ilock
ilock_lem me i s = elim (Bool-cases (ltb (s.entry i).ref 1)) [
  | inl y ↦ rw y tt
  | inr n ↦ elim (Option-cases (s.entry i).holder) [
    | inr (p, e) ↦ rw (n, e) tt
    | inl e ↦
        rw (n, e)
          (Ends-map (λ t. Net (taken me i s) t none) (λ t. Took s t me i)
            (fill_inode i (taken me i s)) (fill_inode_lem i (taken me i s))
            (λ t net. record {
              locked = record {
                refs = λ j. net.refs j ∙ ground arith;
                locks = λ j. net.locks j ∙ ground arith;
              };
              was_free = e;
            }))
  ]
]

pub iunlock_lem : (me i : ℕ) (s : Table) → Ends (λ t. Locks s t i none) (iunlock me i s)
unfolding iunlock
iunlock_lem me i s =
    elim (Bool-cases (not (holdingsleep me (s.entry i).holder) || ltb (s.entry i).ref 1)) [
      | inl y ↦ rw y tt
      | inr n ↦ rw n (record { refs = λ j. ground arith; locks = λ j. ground arith })
    ]

-- From `s` to `t` a reference to `i` is given up.
pub record Less (s t : Table) (i : ℕ) : Type 0 where
  pub refs : (j : ℕ) → (s.entry j).ref ≡ (t.entry j).ref + count (some i) j
  pub locks : (j : ℕ) → (t.entry j).holder ≡ (s.entry j).holder

free_inode_lem : (i : ℕ) (s : Table) → Ends (λ t. Net s t none) (free_inode i s)
unfolding free_inode
free_inode_lem i s = elim (Bool-cases (is_free (s.entry i).holder)) [
  | inr n ↦ rw n tt
  | inl y ↦ elim (Option-cases (itrunc (s.entry i).ip s.disk)) [
    | inl stop ↦ rw (y, stop) tt
    | inr (r, q) ↦ rw (y, q) (record { refs = λ j. ground arith; locks = λ j. ground arith })
  ]
]

drop_ref_lem : (i : ℕ) (s : Table) → 0 < (s.entry i).ref → Less s (drop_ref i s) i
unfolding drop_ref
drop_ref_lem i s h = record { refs = λ j. ground arith; locks = λ j. ground arith }

pub iput_lem : (i : ℕ) (s : Table) → 0 < (s.entry i).ref → Ends (λ t. Less s t i) (iput i s)
unfolding iput
iput_lem i s h =
    elim (Bool-cases ((s.entry i).ref == 1 && (s.entry i).valid && (s.entry i).ip.nlink == 0)) [
      | inr n ↦ rw n (drop_ref_lem i s h)
      | inl y ↦ rw y (
          Ends-bind (λ t. Net s t none) (λ t. Less s t i) (free_inode i s)
            (λ t. done (drop_ref i t)) (free_inode_lem i s)
            (λ t net.
              let less = drop_ref_lem i t (let same = net.refs i in omega arith) in
              record {
                refs = λ j. (let a = net.refs j in let b = less.refs j in omega arith);
                locks = λ j. less.locks j ∙ net.locks j;
              }))
    ]

-- An inode whose fields have changed, with its disk.
abbrev pub with_inode : ℕ → Table → Inode → Disk → Table
with_inode i s ip d =
    let e = s.entry i in record s { disk = d; entry = update s.entry i (record e { ip = ip }) }

pub with_inode-Net : (i : ℕ) (s : Table) (ip : Inode) (d : Disk) → Net s (with_inode i s ip d) none
with_inode-Net i s ip d = record { refs = λ j. ground arith; locks = λ j. ground arith }

pub with_inode_size :
    (i : ℕ) (s : Table) (ip : Inode) (d : Disk) → ((with_inode i s ip d).entry i).ip.size ≡ ip.size
with_inode_size i s ip d =
    (let e = s.entry i in ap (λ z. z.ip.size) (update_self s.entry i (record e { ip = ip })))
