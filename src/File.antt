-- ===== src/File.antt =====
-- kernel/file.c: the table of open files and its counts of references.
-- A file is its index in the table; `none` is a panic, but for `filealloc`, where it is the null
-- pointer. The lock of the table makes each call one step; what a last `fileclose` does behind the
-- lock is its `Closing`. Pipes and inodes are named by numbers. Counts stay below 2 ^ 31.
pub mod Counts
pub mod References
mod Tests
use operating_systems.Prelude.{
  ℕ, suc, ◌+◌, ◌-◌, Bool, Option, none, some, List, [], ◌∷◌, map, ltb, ◌==◌, if◌then◌else◌,
  get_elem?, set,
}
use mathlib.Core.Option

pub data FileType : Type 0 where
  fd_none fd_pipe fd_inode fd_device : FileType

pub record File : Type 0 where
  pub kind : FileType
  pub ref : ℕ
  pub readable : Bool
  pub writable : Bool
  pub pipe : ℕ
  pub ip : ℕ
  pub off : ℕ
  pub major : ℕ

-- The loop of `filealloc`.
unfoldable pub filealloc : List File → Option (ℕ × List File)
filealloc [] = none
filealloc (f ∷ fs) =
    let rest = Option.map (λ (p : ℕ × List File). (suc p.0, f ∷ p.1)) (filealloc fs) in
    if f.ref == 0 then some (0, record f { ref = 1 } ∷ fs) else rest

unfoldable pub filedup : ℕ → List File → Option (List File)
filedup i table = elim (get_elem? table i) [
  | none ↦ none
  | some f ↦ if ltb f.ref 1 then none else some (set table i (record f { ref = f.ref + 1 }))
]

-- What `fileclose` does once the lock is released: nothing while the file is still open; the calls
-- of `pipeclose`, or of `iput` in a transaction; or nothing for a file without a type.
pub data Closing : Type 0 where
  still_open nothing : Closing
  closes_pipe : (pipe : ℕ) (writable : Bool) → Closing
  puts_inode : (ip : ℕ) → Closing

unfoldable pub closing : File → Closing
closing ff = elim ff.kind [
  | fd_none ↦ nothing
  | fd_pipe ↦ closes_pipe ff.pipe ff.writable
  | fd_inode ↦ puts_inode ff.ip
  | fd_device ↦ puts_inode ff.ip
]

unfoldable pub fileclose : ℕ → List File → Option (List File × Closing)
unfolding closing
fileclose i table = elim (get_elem? table i) [
  | none ↦ none
  | some f ↦
      let f1 = record f { ref = f.ref - 1 } in
      if ltb f.ref 1
      then none
      else if ltb 0 f1.ref
      then some (set table i f1, still_open)
      else some (set table i (record f1 { ref = 0; kind = fd_none }), closing f1)
]
