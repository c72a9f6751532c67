-- ===== src/Fs/Table/Link.antt =====
-- kernel/fs.c: ialloc and dirlink, which put inodes on the disk and entries in directories.
use operating_systems.Prelude.{
  ℕ, zero, suc, ◌+◌, ◌-◌, ◌*◌, ◌/◌, ◌%◌, ◌^◌, Bool, true, false, not, Option, none, some, List, [],
  ◌∷◌, ltb, ◌==◌, if◌then◌else◌, length, update,
}
use operating_systems.Fs.{log_write}
use operating_systems.Fs.Inode.{Inode, readi, writei, iblock, ipb, put_dinode, get_word}
use operating_systems.Fs.Table.{
  Table, Outcome, done, panics, no_fuel, ◌>>=◌, iget, iput, dirlookup, dirent, de_inum,
}

abbrev pub blank : ℕ → Inode
blank type = record {
  dev = 0;
  inum = 0;
  type = type;
  major = 0;
  minor = 0;
  nlink = 0;
  size = 0;
  addrs = λ k. 0;
}

-- The loop of `ialloc`, with `left` numbers to go.
unfoldable pub ialloc_loop : ℕ → ℕ → ℕ → ℕ → Table → Outcome (ℕ × Table)
ialloc_loop zero inum dev type s = panics
ialloc_loop (suc left) inum dev type s =
    let d = s.disk in
    let b = iblock inum d.sb in
    let slot = inum % ipb in
    let rest = ialloc_loop left (inum + 1) dev type s in
    let t = record s { disk = log_write b (put_dinode (d.block b) slot (blank type)) d } in
    let claimed = iget dev inum t in
    if get_word (d.block b) (16 * slot) % 2 ^ 16 == 0 then claimed else rest

unfoldable pub ialloc : ℕ → ℕ → Table → Outcome (ℕ × Table)
ialloc dev type s = ialloc_loop (s.disk.sb.ninodes - 1) 1 dev type s

-- The loop of `dirlink`: the offset of a free entry, or of the end.
unfoldable pub empty_loop : ℕ → ℕ → ℕ → Table → Outcome (ℕ × Table)
empty_loop zero i off s = no_fuel
empty_loop (suc fuel) i off s =
    let e = s.entry i in
    let round : Outcome (ℕ × Table) = elim (readi (λ p m. true) off dirent e.ip s.disk) [
      | none ↦ panics
      | some r ↦
          let t = record s { disk = r.3; entry = update s.entry i (record e { ip = r.2 }) } in
          let rest = empty_loop fuel i (off + dirent) t in
          if not (length r.1 == dirent)
          then panics
          else if de_inum r.1 == 0
          then done (off, t)
          else rest
    ] in
    if ltb off e.ip.size then round else done (off, s)

-- The bytes of the name field, by `strncpy`, and those of the entry.
unfoldable pub name_byte : List ℕ → ℕ → ℕ
name_byte [] k = 0
name_byte (c ∷ name) zero = c
name_byte (c ∷ name) (suc k) = (let rest = name_byte name k in if c == 0 then 0 else rest)

unfoldable pub de_byte : ℕ → List ℕ → ℕ → ℕ
de_byte inum name zero = inum % 256
de_byte inum name (suc zero) = inum / 256 % 256
de_byte inum name (suc (suc k)) = name_byte name k

-- The count that `writei` returns, and 0 for -1: neither is the size of an entry.
abbrev pub get_total : Option ℕ → ℕ
get_total none = 0
get_total (some n) = n

-- `dirlink` behind its loop.
unfoldable pub put_entry : ℕ → ℕ → List ℕ → ℕ × Table → Outcome (Bool × Table)
put_entry i inum name (off, s) =
    let e = s.entry i in
    elim (writei (λ tot m. m) (de_byte inum name) off dirent e.ip s.disk) [
      | none ↦ panics
      | some r ↦
          let t = record s { disk = r.2; entry = update s.entry i (record e { ip = r.1 }) } in
          if get_total r.0 == dirent then done (true, t) else panics
    ]

-- `dirlink` behind `dirlookup`: with an inode of the name, it is given up.
unfoldable pub link_new : ℕ → ℕ → List ℕ → Option ℕ × Table → Outcome (Bool × Table)
link_new i inum name (none, s) =
    empty_loop ((s.entry i).ip.size / dirent + 2) i 0 s >>= put_entry i inum name
link_new i inum name (some n, s) = iput n s >>= (λ t. done (false, t))

-- `false` is -1.
unfoldable pub dirlink : ℕ → List ℕ → ℕ → Table → Outcome (Bool × Table)
dirlink i name inum s = dirlookup i name s >>= link_new i inum name
