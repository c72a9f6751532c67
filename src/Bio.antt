-- ===== src/Bio.antt =====
-- kernel/bio.c: the buffer cache.
-- A buffer is the number of its place in `bcache.buf`; `order` is the list through `next` from the head
-- on, the buffer used last at its front. The lock of the cache makes each part between `acquire` and
-- `release` one step. A buffer's sleep lock is the process that holds it, or none. `none` is a panic.
-- `disk d b` is block `b` of device `d`, as `virtio_disk_rw` reads and writes it.
pub mod Find
pub mod Current
pub mod Recycle
pub mod Read
pub mod Release
mod Tests
use operating_systems.Prelude.{
  ℕ, zero, suc, ◌+◌, ◌-◌, Bool, true, false, ◌&&◌, not, Option, none, some, List, [], ◌∷◌, ◌==◌,
  if◌then◌else◌, update,
}
use mathlib.Core.Option

abbrev pub Block : Type 0
Block = ℕ → ℕ

pub record Buf : Type 0 where
  pub dev : ℕ
  pub blockno : ℕ
  pub valid : Bool
  pub refcnt : ℕ
  pub content : Block
  pub holder : Option ℕ

pub record Cache : Type 0 where
  pub buf : ℕ → Buf
  pub order : List ℕ
  pub disk : ℕ → ℕ → Block

abbrev pub nbuf : ℕ
nbuf = 30

-- The loop of `binit`, with the buffers from `b` on still to be linked in at the head.
link_loop : ℕ → ℕ → List ℕ → List ℕ
link_loop zero b order = order
link_loop (suc left) b order = link_loop left (b + 1) (b ∷ order)

-- The memory of the kernel starts with zeros.
unfoldable pub binit : (ℕ → ℕ → Block) → Cache
unfolding link_loop
binit disk = record {
  buf = λ b. record {
    dev = 0;
    blockno = 0;
    valid = false;
    refcnt = 0;
    content = λ i. 0;
    holder = none;
  };
  order = link_loop nbuf 0 [];
  disk = disk;
}

abbrev pub set_buf : Cache → ℕ → Buf → Cache
set_buf s b x = record s { buf = update s.buf b x }

-- `b->dev == dev && b->blockno == blockno`
abbrev pub is_for : Buf → ℕ → ℕ → Bool
is_for x dev blockno = (x.dev == dev) && (x.blockno == blockno)

-- The first loop of `bget`.
unfoldable pub find : (ℕ → Buf) → ℕ → ℕ → List ℕ → Option ℕ
find buf dev blockno [] = none
find buf dev blockno (b ∷ order) =
    let rest = find buf dev blockno order in if is_for (buf b) dev blockno then some b else rest

-- The second loop of `bget`, which goes through the list from its end.
unfoldable pub find_unused : (ℕ → Buf) → List ℕ → Option ℕ
find_unused buf [] = none
find_unused buf (b ∷ order) = elim (find_unused buf order) [
  | some c ↦ some c
  | none ↦ if (buf b).refcnt == 0 then some b else none
]

-- `bget` up to the `release` of the cache's lock.
unfoldable pub bget : ℕ → ℕ → Cache → Option (ℕ × Cache)
bget dev blockno s = elim (find s.buf dev blockno s.order) [
  | some b ↦ some (b, set_buf s b (record (s.buf b) { refcnt = (s.buf b).refcnt + 1 }))
  | none ↦ elim (find_unused s.buf s.order) [
    | some b ↦ some (
      b,
      set_buf s b (record (s.buf b) { dev = dev; blockno = blockno; valid = false; refcnt = 1 }),
    )
    | none ↦ none
  ]
]

-- `acquiresleep`, where the buffer is not locked, for the process `pid`; `none` means that it waits.
abbrev pub lock_buf : ℕ → ℕ → Cache → Option Cache
lock_buf pid b s = elim (s.buf b).holder [
  | some other ↦ none
  | none ↦ some (set_buf s b (record (s.buf b) { holder = some pid }))
]

-- `bread` behind `bget`.
unfoldable pub fill : ℕ → Cache → Cache
fill b s =
    let x = s.buf b in
    if not x.valid
    then set_buf s b (record x { content = s.disk x.dev x.blockno; valid = true })
    else s

-- `bread` where nobody holds the buffer's lock.
unfoldable pub bread : ℕ → ℕ → ℕ → Cache → Option (ℕ × Cache)
bread pid dev blockno s = elim (bget dev blockno s) [
  | none ↦ none
  | some p ↦ elim (lock_buf pid p.0 p.1) [ none ↦ none | some t ↦ some (p.0, fill p.0 t) ]
]

holds : Option ℕ → ℕ → Bool
holds none pid = false
holds (some p) pid = p == pid

unfoldable pub bwrite : ℕ → ℕ → Cache → Option Cache
unfolding holds
bwrite pid b s =
    let x = s.buf b in
    if holds x.holder pid
    then some (record s { disk = update s.disk x.dev (update (s.disk x.dev) x.blockno x.content) })
    else none

-- The buffer leaves its place in the list.
unfoldable pub unlink : ℕ → List ℕ → List ℕ
unlink b [] = []
unlink b (x ∷ order) = let rest = unlink b order in if x == b then order else x ∷ rest

-- `refcnt--`: the caller has a reference, so the count is not 0.
unfoldable pub brelse : ℕ → ℕ → Cache → Option Cache
unfolding holds unlink
brelse pid b s =
    let x = s.buf b in
    let left = x.refcnt - 1 in
    let t = set_buf s b (record x { holder = none; refcnt = left }) in
    if not (holds x.holder pid)
    then none
    else if left == 0
    then some (record t { order = b ∷ unlink b s.order })
    else some t

unfoldable pub bpin : ℕ → Cache → Cache
bpin b s = set_buf s b (record (s.buf b) { refcnt = (s.buf b).refcnt + 1 })

unfoldable pub bunpin : ℕ → Cache → Cache
bunpin b s = set_buf s b (record (s.buf b) { refcnt = (s.buf b).refcnt - 1 })
