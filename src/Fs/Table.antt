-- ===== src/Fs/Table.antt =====
-- kernel/fs.c: the table of inodes and the walk along paths.
-- An inode is its place in the table. The lock of the table makes each part between `acquire` and
-- `release` one step; an inode's sleep lock is the process that holds it, or none. A process that
-- would sleep for a lock `waits`: other processes take no step here. Counts of references stay
-- below 2 ^ 31.
pub mod Refs
pub mod Sizes
pub mod Lookup
pub mod Walk
pub mod Link
pub mod Linked
mod Tests
use operating_systems.Prelude.{
  ℕ, zero, suc, ◌+◌, ◌-◌, ◌*◌, ◌/◌, Bool, true, false, ◌&&◌, ◌||◌, not, Option, none, some, List,
  [], ◌∷◌, ltb, ◌==◌, if◌then◌else◌, length, get_or, drop, replicate, update,
}
use operating_systems.Fs.{Disk}
use operating_systems.Fs.Inode.{Inode, iupdate, load_inode, readi, itrunc}
use operating_systems.Path.{skipelem, slash, dirsiz}

pub record Entry : Type 0 where
  pub ip : Inode
  pub ref : ℕ
  pub valid : Bool
  pub holder : Option ℕ

pub record Table : Type 0 where
  pub disk : Disk
  pub entry : ℕ → Entry

pub data Outcome (A : Type 0) : Type 0 where
  done : A → Outcome A
  waits panics no_fuel : Outcome A

infixl 5 ◌>>=◌
abbrev pub ◌>>=◌ : {A B : Type 0} → Outcome A → (A → Outcome B) → Outcome B
done a >>= f = f a
waits >>= f = waits
panics >>= f = panics
no_fuel >>= f = no_fuel

abbrev pub ninode : ℕ
ninode = 50

abbrev pub t_dir : ℕ
t_dir = 1

abbrev pub rootdev : ℕ
rootdev = 1

abbrev pub rootino : ℕ
rootino = 1

abbrev pub set_entry : Table → ℕ → Entry → Table
set_entry s i e = record s { entry = update s.entry i e }

-- The loop of `iget`, with `empty` the first free entry up to now.
unfoldable pub search_table : ℕ → ℕ → ℕ → ℕ → Option ℕ → Table → Option ℕ × Option ℕ
search_table zero i dev inum empty s = (none, empty)
search_table (suc left) i dev inum empty s =
    let e = s.entry i in
    let here : Option ℕ = elim empty [
      | none ↦ if e.ref == 0 then some i else none
      | some x ↦ some x
    ] in
    let rest = search_table left (i + 1) dev inum here s in
    if ltb 0 e.ref && e.ip.dev == dev && e.ip.inum == inum then (some i, empty) else rest

-- `iget` behind its loop.
unfoldable pub iget_at : ℕ → ℕ → Table → Option ℕ × Option ℕ → Outcome (ℕ × Table)
iget_at dev inum s (some i, empty) =
    (let e = s.entry i in done (i, set_entry s i (record e { ref = e.ref + 1 })))
iget_at dev inum s (none, none) = panics
iget_at dev inum s (none, some i) =
    let e = s.entry i in
    let ip = record e.ip { dev = dev; inum = inum } in
    done (i, set_entry s i (record e { ip = ip; ref = 1; valid = false }))

unfoldable pub iget : ℕ → ℕ → Table → Outcome (ℕ × Table)
iget dev inum s = iget_at dev inum s (search_table ninode 0 dev inum none s)

unfoldable pub idup : ℕ → Table → ℕ × Table
idup i s = (let e = s.entry i in (i, set_entry s i (record e { ref = e.ref + 1 })))

-- `ilock` with the lock: the inode is read from the disk if it has not been.
unfoldable pub fill_inode : ℕ → Table → Outcome Table
fill_inode i s =
    let e = s.entry i in
    let ip = load_inode e.ip s.disk in
    let filled = set_entry s i (record e { ip = ip; valid = true }) in
    if e.valid then done s else if ip.type == 0 then panics else done filled

unfoldable pub ilock : ℕ → ℕ → Table → Outcome Table
ilock me i s =
    let e = s.entry i in
    let locked : Outcome Table = elim e.holder [
      | some other ↦ waits
      | none ↦ fill_inode i (set_entry s i (record e { holder = some me }))
    ] in
    if ltb e.ref 1 then panics else locked

abbrev pub holdingsleep : ℕ → Option ℕ → Bool
holdingsleep me none = false
holdingsleep me (some p) = p == me

unfoldable pub iunlock : ℕ → ℕ → Table → Outcome Table
iunlock me i s =
    let e = s.entry i in
    if not (holdingsleep me e.holder) || ltb e.ref 1
    then panics
    else done (set_entry s i (record e { holder = none }))

-- The inode has no links and no other references: it is truncated and freed, under its lock.
abbrev pub is_free : Option ℕ → Bool
is_free none = true
is_free (some p) = false

unfoldable pub free_inode : ℕ → Table → Outcome Table
free_inode i s =
    let e = s.entry i in
    let freed : Outcome Table = elim (itrunc e.ip s.disk) [
      | none ↦ panics
      | some r ↦
          let ip = record r.0 { type = 0 } in
          done (record s {
            disk = iupdate ip r.1;
            entry = update s.entry i (record e { ip = ip; valid = false });
          })
    ] in
    if not (is_free e.holder) then waits else freed

unfoldable pub drop_ref : ℕ → Table → Table
drop_ref i s = (let e = s.entry i in set_entry s i (record e { ref = e.ref - 1 }))

unfoldable pub iput : ℕ → Table → Outcome Table
iput i s =
    let e = s.entry i in
    let freed = free_inode i s >>= (λ t. done (drop_ref i t)) in
    if e.ref == 1 && e.valid && e.ip.nlink == 0 then freed else done (drop_ref i s)

unfoldable pub iunlockput : ℕ → ℕ → Table → Outcome Table
iunlockput me i s = iunlock me i s >>= iput i

-- `namecmp(s, t) == 0`, over the `n` bytes from place `i` on.
unfoldable pub namecmp : ℕ → ℕ → List ℕ → List ℕ → Bool
namecmp zero i s t = true
namecmp (suc n) i s t =
    let a = get_or s i 0 in
    let rest = namecmp n (i + 1) s t in
    if not (a == get_or t i 0) then false else if a == 0 then true else rest

-- `sizeof(struct dirent)`, and its two fields.
abbrev pub dirent : ℕ
dirent = 16

abbrev pub de_inum : List ℕ → ℕ
de_inum de = get_or de 0 0 + get_or de 1 0 * 256

-- The loop of `dirlookup`: the number of the inode, if there is an entry.
unfoldable pub lookup_loop : ℕ → ℕ → ℕ → List ℕ → Table → Outcome (Option ℕ × Table)
lookup_loop zero i off name s = no_fuel
lookup_loop (suc fuel) i off name s =
    let e = s.entry i in
    let round : Outcome (Option ℕ × Table) = elim (readi (λ p m. true) off dirent e.ip s.disk) [
      | none ↦ panics
      | some r ↦
          let t = record s { disk = r.3; entry = update s.entry i (record e { ip = r.2 }) } in
          let rest = lookup_loop fuel i (off + dirent) name t in
          if not (length r.1 == dirent)
          then panics
          else if not (de_inum r.1 == 0) && namecmp dirsiz 0 name (drop 2 r.1)
          then done (some (de_inum r.1), t)
          else rest
    ] in
    if ltb off e.ip.size then round else done (none, s)

unfoldable pub found : ℕ → Option ℕ × Table → Outcome (Option ℕ × Table)
found dev (none, s) = done (none, s)
found dev (some inum, s) = iget dev inum s >>= (λ r. done (some r.0, r.1))

-- A round reads an entry of 16 bytes.
unfoldable pub dirlookup : ℕ → List ℕ → Table → Outcome (Option ℕ × Table)
dirlookup i name s =
    let e = s.entry i in
    let search = lookup_loop (e.ip.size / dirent + 2) i 0 name s in
    if not (e.ip.type == t_dir) then panics else (search >>= found e.ip.dev)

-- A round of the loop of `namex` at inode `i`, behind `skipelem` and `ilock`; `next` is the rest.
abbrev pub Walked : Type 0
Walked = Outcome (Option ℕ × List ℕ × Table)

unfoldable pub step_in : ℕ → ℕ → List ℕ → (ℕ → Table → Walked) → Option ℕ × Table → Walked
step_in me i name next (none, s) = iunlockput me i s >>= (λ t. done (none, name, t))
step_in me i name next (some n, s) = iunlockput me i s >>= next n

unfoldable pub walk_in : ℕ → Bool → ℕ → List ℕ → List ℕ → (ℕ → Table → Walked) → Table → Walked
walk_in me parent i path name next s =
    let search = dirlookup i name s >>= step_in me i name next in
    if not ((s.entry i).ip.type == t_dir)
    then (iunlockput me i s >>= (λ t. done (none, name, t)))
    else if parent && length path == 0
    then (iunlock me i s >>= (λ t. done (some i, name, t)))
    else search

unfoldable pub walk_end : Bool → ℕ → List ℕ → Table → Walked
walk_end parent i name s =
    if parent then (iput i s >>= (λ t. done (none, name, t))) else done (some i, name, s)

unfoldable pub namex_loop : ℕ → ℕ → Bool → List ℕ → List ℕ → ℕ → Table → Walked
namex_loop zero me parent path name i s = no_fuel
namex_loop (suc fuel) me parent path name i s = elim (skipelem path name) [
  | none ↦ walk_end parent i name s
  | some r ↦ ilock me i s >>= walk_in me parent i r.1 r.0 (namex_loop fuel me parent r.1 r.0)
]

abbrev pub first_byte : List ℕ → ℕ
first_byte [] = 0
first_byte (c ∷ path) = c

-- `cwd` is the current directory of the process.
unfoldable pub namex : ℕ → ℕ → Bool → List ℕ → List ℕ → Table → Walked
namex me cwd parent path name s =
    let from = λ (r : ℕ × Table). namex_loop (length path + 1) me parent path name r.0 r.1 in
    if first_byte path == slash then (iget rootdev rootino s >>= from) else from (idup cwd s)

unfoldable pub namei : ℕ → ℕ → List ℕ → Table → Walked
namei me cwd path s = namex me cwd false path (replicate dirsiz 0) s

unfoldable pub nameiparent : ℕ → ℕ → List ℕ → List ℕ → Table → Walked
nameiparent me cwd path name s = namex me cwd true path name s
