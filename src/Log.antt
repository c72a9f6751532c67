-- ===== src/Log.antt =====
-- kernel/log.c: the write-ahead log of the file system.
-- A block is its 256 words; the header block holds `n` in word 0 and `block[i]` in word i + 1.
-- `cache b` is what `bread` returns for block `b` of `log.dev`: the data of its buffer, or what the
-- disk holds if there is none (kernel/bio.c; a buffer that is recycled holds what the disk does, so
-- the next read brings the same data back). `pins b` counts the references that `bpin` took.
-- `past` lists the disks before each write, the last first: with `disk`, all that a crash can leave.
-- `log.lh` is the list of the first `n` entries of `block`. `start` and `size` are those of `log`.
pub mod Spec
pub mod Recover
pub mod Commit
pub mod Reserve
pub mod Ops
mod Tests
use operating_systems.Prelude.{
  ℕ, zero, suc, ◌+◌, ◌-◌, Bool, true, false, List, [], ◌∷◌, ltb, if◌then◌else◌, length, update,
}

abbrev pub Block : Type 0
Block = ℕ → ℕ

abbrev pub Disk : Type 0
Disk = ℕ → Block

pub record Log : Type 0 where
  pub disk : Disk
  pub cache : Disk
  pub past : List Disk
  pub pins : ℕ → ℕ
  pub outstanding : ℕ
  pub committing : Bool
  pub lh : List ℕ

-- `LOGSIZE` and `MAXOPBLOCKS` of kernel/param.h
abbrev pub logsize : ℕ
logsize = 30

abbrev pub maxopblocks : ℕ
maxopblocks = 10

-- A change of a buffer's data in memory.
unfoldable pub set_data : ℕ → Block → Log → Log
set_data b d s = record s { cache = update s.cache b d }

-- `bwrite` of the buffer of block `b`
unfoldable pub bwrite : ℕ → Log → Log
bwrite b s = record s { disk = update s.disk b (s.cache b); past = s.disk ∷ s.past }

bpin : ℕ → Log → Log
bpin b s = record s { pins = update s.pins b (s.pins b + 1) }

-- `refcnt--`: the buffer is pinned when this is called, so the count is not 0.
bunpin : ℕ → Log → Log
bunpin b s = record s { pins = update s.pins b (s.pins b - 1) }

-- The loop of `read_head`: `n` entries from `block[i]` on. The array in memory has `LOGSIZE` of them:
-- a larger `n` is outside the model.
unfoldable pub entries : ℕ → ℕ → Block → List ℕ
entries zero i hd = []
entries (suc n) i hd = hd (i + 1) ∷ entries n (i + 1) hd

-- The loop of `write_head`.
unfoldable pub set_entries : ℕ → List ℕ → Block → Block
set_entries i [] hd = hd
set_entries i (b ∷ bs) hd = set_entries (i + 1) bs (update hd (i + 1) b)

module _ (start : ℕ) where
  unfoldable pub read_head : Log → Log
  read_head s = let hd = s.cache start in record s { lh = entries (hd 0) 0 hd }

  unfoldable pub write_head : Log → Log
  unfolding set_data bwrite
  write_head s =
      bwrite start (set_data start (set_entries 0 s.lh (update (s.cache start) 0 (length s.lh))) s)

  -- The list is `lh.block[tail]` and what follows.
  unfoldable pub install_loop : Bool → ℕ → List ℕ → Log → Log
  unfolding set_data bwrite bunpin
  install_loop recovering tail [] s = s
  install_loop recovering tail (b ∷ bs) s =
      let s1 = bwrite b (set_data b (s.cache (start + tail + 1)) s) in
      let s2 = if recovering then s1 else bunpin b s1 in install_loop recovering (tail + 1) bs s2

  unfoldable pub install_trans : Bool → Log → Log
  unfolding install_loop
  install_trans recovering s = install_loop recovering 0 s.lh s

  unfoldable pub recover_from_log : Log → Log
  unfolding read_head install_trans write_head
  recover_from_log s =
      let s1 = install_trans true (read_head s) in write_head (record s1 { lh = [] })

  unfoldable pub write_loop : ℕ → List ℕ → Log → Log
  unfolding set_data bwrite
  write_loop tail [] s = s
  write_loop tail (b ∷ bs) s =
      let to = start + tail + 1 in write_loop (tail + 1) bs (bwrite to (set_data to (s.cache b) s))

  unfoldable pub write_log : Log → Log
  unfolding write_loop
  write_log s = write_loop 0 s.lh s

  unfoldable pub commit : Log → Log
  unfolding write_log write_head install_trans
  commit s =
      let s1 = install_trans false (write_head (write_log s)) in
      if ltb 0 (length s.lh) then write_head (record s1 { lh = [] }) else s

-- After a restart the memory is lost, and the disk is what it was.
abbrev pub boot : Disk → Log
boot d = record {
  disk = d;
  cache = d;
  past = [];
  pins = λ _. 0;
  outstanding = 0;
  committing = false;
  lh = [];
}
