-- ===== src/Fs/Table/Walk.antt =====
-- The walk along a path keeps account of references and locks.
use operating_systems.Prelude.{
  ℕ, zero, suc, ◌+◌, ◌<◌, ◌≡◌, sym, ap, ◌∙◌, subst, inl, inr, Bool, true, false, ◌&&◌, Option, none,
  some, List, ◌++◌, arith, ◌==◌, if◌then◌else◌, Bool-cases, Option-cases, length, length-append,
}
use operating_systems.Fs.Table.{
  Table, done, ◌>>=◌, iget, idup, ilock, iunlock, iput, iunlockput, dirlookup, Walked, step_in,
  walk_in, walk_end, namex_loop, namex, first_byte, t_dir, rootdev, rootino,
}
use operating_systems.Fs.Table.Refs.{
  Ends, Ends-bind, Ends-map, Net, Net-refl, Locks, Took, Less, iget_lem, idup_lem, ilock_lem,
  iunlock_lem, iput_lem,
}
use operating_systems.Path.{skipelem, slash, skipelem_lem}
use operating_systems.Fs.Table.Lookup.{dirlookup_lem}

unlocked_same :
    (me i j : ℕ) (s t l m : Table) (o : Option ℕ)
    → Net s t (some i)
    → Took t l me i
    → Net l m o
    → (if i == j then none else (m.entry j).holder) ≡ (s.entry j).holder
unlocked_same me i j s t l m o a b c = elim (Bool-cases (i == j)) [
  | inl y ↦
      let here : i ≡ j = ground arith in
      rw y (sym (sym (a.locks j) ∙ subst (λ z. (t.entry z).holder ≡ none) here b.was_free))
  | inr n ↦ rw n (c.locks j ∙ b.locked.locks j ∙ rw n (a.locks j))
]

-- A reference that `i` had is given up, under the lock that was taken for it.
unlocked_lem :
    (me i : ℕ) (s t l m : Table) (o : Option ℕ)
    → Net s t (some i)
    → Took t l me i
    → Net l m o
    → Ends (λ u. Net s u o) (iunlockput me i m)
unfolding iunlockput
unlocked_lem me i s t l m o a b c =
    Ends-bind (λ v. Locks m v i none) (λ u. Net s u o) (iunlock me i m) (iput i)
      (iunlock_lem me i m)
      (λ v d.
        Ends-map (λ u. Less v u i) (λ u. Net s u o) (iput i v)
          (iput_lem i v (
            let p = a.refs i in
            let q = b.locked.refs i in let r = c.refs i in let z = d.refs i in ground arith))
          (λ u e. record {
            refs = λ j.
                (let p = a.refs j in
                  let q = b.locked.refs j in
                  let r = c.refs j in let z = d.refs j in let y = e.refs j in omega arith);
            locks = λ j. e.locks j ∙ d.locks j ∙ unlocked_same me i j s t l m o a b c;
          }))

-- A path is longer than what is left of it.
skipelem_shorter :
    (path name name' rest : List ℕ)
    → skipelem path name ≡ some (name', rest)
    → length rest < length path
skipelem_shorter path name name' rest e = elim (skipelem_lem path name) [
  | inl (none_left, all) ↦ absurd (let clash = sym none_left ∙ e in cc)
  | inr (pre, x, sep, r, name'', e2, split, sl, pl, some_byte, ss, nf, gap, copied) ↦
      let both = sym e2 ∙ e in
      let same : r ≡ rest = cc in
      let whole : length path ≡ length pre + (length x + (length sep + length r)) =
        ap length split
        ∙ length-append pre (x ++ (sep ++ r))
        ∙ ap (λ n. length pre + n)
            (length-append x (sep ++ r) ∙ ap (λ n. length x + n) (length-append sep r)) in
      subst (λ z. length z < length path) same (omega arith)
]

abbrev Accounts : Table → Walked → Type 0
Accounts s w = Ends (λ q. Net s q.2 q.0) w

walk_end_lem :
    (parent : Bool) (i : ℕ) (name : List ℕ) (s t : Table)
    → Net s t (some i)
    → Accounts s (walk_end parent i name t)
unfolding walk_end
walk_end_lem false i name s t a = a
walk_end_lem true i name s t a =
    Ends-bind (λ u. Less t u i) (λ q. Net s q.2 q.0) (iput i t) (λ u. done (none, name, u))
      (iput_lem i t (let p = a.refs i in ground arith))
      (λ u e. record {
        refs = λ j. (let p = a.refs j in let y = e.refs j in omega arith);
        locks = λ j. e.locks j ∙ a.locks j;
      })

step_in_lem :
    (me i : ℕ) (name : List ℕ) (next : ℕ → Table → Walked) (s t l : Table) (q : Option ℕ × Table)
    → Net s t (some i)
    → Took t l me i
    → Net l q.1 q.0
    → ((n : ℕ) (u : Table) → Net s u (some n) → Accounts s (next n u))
    → Accounts s (step_in me i name next q)
unfolding step_in
step_in_lem me i name next s t l (none, m) a b c k =
    Ends-bind (λ u. Net s u none) (λ q. Net s q.2 q.0) (iunlockput me i m)
      (λ u. done (none, name, u)) (unlocked_lem me i s t l m none a b c) (λ u n. n)
step_in_lem me i name next s t l (some n, m) a b c k =
    Ends-bind (λ u. Net s u (some n)) (λ q. Net s q.2 q.0) (iunlockput me i m) (next n)
      (unlocked_lem me i s t l m (some n) a b c) (λ u z. k n u z)

give_up_lem :
    (me i : ℕ) (name : List ℕ) (s t l : Table)
    → Net s t (some i)
    → Took t l me i
    → Accounts s (iunlockput me i l >>= (λ u. done (none, name, u)))
give_up_lem me i name s t l a b =
    Ends-bind (λ u. Net s u none) (λ q. Net s q.2 q.0) (iunlockput me i l)
      (λ u. done (none, name, u)) (unlocked_lem me i s t l l none a b (Net-refl l)) (λ u n. n)

-- The parent is returned without its lock.
stop_lem :
    (me i : ℕ) (name : List ℕ) (s t l : Table)
    → Net s t (some i)
    → Took t l me i
    → Accounts s (iunlock me i l >>= (λ u. done (some i, name, u)))
stop_lem me i name s t l a b =
    Ends-bind (λ v. Locks l v i none) (λ q. Net s q.2 q.0) (iunlock me i l)
      (λ u. done (some i, name, u)) (iunlock_lem me i l)
      (λ v d. record {
        refs =
            λ j. (let p = a.refs j in let q = b.locked.refs j in let z = d.refs j in omega arith);
        locks = λ j. d.locks j ∙ unlocked_same me i j s t l l none a b (Net-refl l);
      })

walk_in_lem :
    (me : ℕ) (parent : Bool) (i : ℕ) (path name : List ℕ) (next : ℕ → Table → Walked)
    (s t l : Table)
    → Net s t (some i)
    → Took t l me i
    → ((n : ℕ) (u : Table) → Net s u (some n) → Accounts s (next n u))
    → Accounts s (walk_in me parent i path name next l)
unfolding walk_in
walk_in_lem me parent i path name next s t l a b k =
    elim (Bool-cases ((l.entry i).ip.type == t_dir)) [
      | inr n ↦ rw n (give_up_lem me i name s t l a b)
      | inl y ↦ elim (Bool-cases (parent && length path == 0)) [
        | inl stop ↦ rw (y, stop) (stop_lem me i name s t l a b)
        | inr on ↦
            rw (y, on)
              (Ends-bind (λ q. Net l q.1 q.0) (λ q. Net s q.2 q.0) (dirlookup i name l)
                (step_in me i name next) (dirlookup_lem i name l)
                (λ q c. step_in_lem me i name next s t l q a b c k))
      ]
    ]

idup_same : (i : ℕ) (s : Table) → Net s (idup i s).1 (some (idup i s).0)
unfolding idup
idup_same i s = idup_lem i s

namex_loop_lem :
    (fuel me : ℕ) (parent : Bool) (path name : List ℕ) (i : ℕ) (s t : Table)
    → Net s t (some i)
    → length path < fuel
    → Accounts s (namex_loop fuel me parent path name i t)
unfolding namex_loop
namex_loop_lem zero me parent path name i s t a h = absurd (omega arith)
namex_loop_lem (suc fuel) me parent path name i s t a h =
    let after : Option (List ℕ × List ℕ) → Walked = λ o. elim o [
      | none ↦ walk_end parent i name t
      | some r ↦ ilock me i t >>= walk_in me parent i r.1 r.0 (namex_loop fuel me parent r.1 r.0)
    ] in
    elim (Option-cases (skipelem path name)) [
      | inl e ↦ subst (λ o. Accounts s (after o)) (sym e) (walk_end_lem parent i name s t a)
      | inr (r, e) ↦
          let shorter = skipelem_shorter path name r.0 r.1 e in
          subst (λ o. Accounts s (after o)) (sym e)
            (Ends-bind (λ l. Took t l me i) (λ q. Net s q.2 q.0) (ilock me i t)
              (walk_in me parent i r.1 r.0 (namex_loop fuel me parent r.1 r.0)) (ilock_lem me i t)
              (λ l b.
                walk_in_lem me parent i r.1 r.0 (namex_loop fuel me parent r.1 r.0) s t l a b
                  (λ n u z. namex_loop_lem fuel me parent r.1 r.0 n s u z (omega arith))))
    ]

-- No walk along a path loses or gains a reference, but the one to the inode that it returns, and
-- each lock has the holder it had. The loops of the walk end on every table and path: the walk is
-- done, or it panics, or the process waits for a lock.
pub namex_lem :
    (me cwd : ℕ) (parent : Bool) (path name : List ℕ) (s : Table)
    → Ends (λ q. Net s q.2 q.0) (namex me cwd parent path name s)
unfolding namex
namex_lem me cwd parent path name s =
    let from = λ (r : ℕ × Table). namex_loop (length path + 1) me parent path name r.0 r.1 in
    let walks : (r : ℕ × Table) → Net s r.1 (some r.0) → Accounts s (from r) =
      λ r a. namex_loop_lem (length path + 1) me parent path name r.0 s r.1 a (omega arith) in
    elim (Bool-cases (first_byte path == slash)) [
      | inl y ↦ rw y (
          Ends-bind (λ r. Net s r.1 (some r.0)) (λ q. Net s q.2 q.0) (iget rootdev rootino s) from
            (iget_lem rootdev rootino s) walks)
      | inr n ↦ rw n (walks (idup cwd s) (idup_same cwd s))
    ]
