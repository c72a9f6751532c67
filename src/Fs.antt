-- ===== src/Fs.antt =====
-- kernel/fs.c, kernel/fs.h: the blocks of the file system, and their free map.
-- `block b` is what a reader of block `b` sees (Bio/Read); `log_write` with the buffer's new contents
-- is a write of that view, and `writes` has the blocks written, the last one first. One process works
-- on the blocks at a time. `none` is a panic.
pub mod Bits
pub mod Scan
pub mod Alloc
pub mod Inode
pub mod Owner
pub mod Claim
pub mod Words
pub mod Slots
pub mod Bmap
pub mod Slices
pub mod Read
pub mod Change
pub mod Write
pub mod Writei
pub mod Dinode
pub mod Freed
pub mod Trunc
pub mod Itrunc
pub mod Table
mod Tests
use operating_systems.Prelude.{
  ℕ, zero, suc, ◌+◌, ◌*◌, ◌/◌, ◌%◌, Bool, not, Option, none, some, List, ◌∷◌, ltb, ◌==◌,
  if◌then◌else◌, update,
}

pub record Super : Type 0 where
  pub magic : ℕ
  pub size : ℕ
  pub nblocks : ℕ
  pub ninodes : ℕ
  pub nlog : ℕ
  pub logstart : ℕ
  pub inodestart : ℕ
  pub bmapstart : ℕ

pub record Disk : Type 0 where
  pub sb : Super
  pub block : ℕ → ℕ → ℕ
  pub writes : List ℕ

abbrev pub bsize : ℕ
bsize = 1024

-- Bits of the free map in a block.
abbrev pub bpb : ℕ
bpb = bsize * 8

abbrev pub bblock : ℕ → Super → ℕ
bblock b sb = b / bpb + sb.bmapstart

abbrev pub log_write : ℕ → (ℕ → ℕ) → Disk → Disk
log_write b blk d = record d { block = update d.block b blk; writes = b ∷ d.writes }

abbrev pub bzero : ℕ → Disk → Disk
bzero b d = log_write b (λ i. 0) d

-- `(byte & (1 << k)) != 0`, `byte | (1 << k)` and `byte & ~(1 << k)`, a binary digit at a time.
unfoldable pub test_bit : ℕ → ℕ → Bool
test_bit zero byte = byte % 2 == 1
test_bit (suc k) byte = test_bit k (byte / 2)

unfoldable pub set_bit : ℕ → ℕ → ℕ
set_bit zero byte = byte / 2 * 2 + 1
set_bit (suc k) byte = set_bit k (byte / 2) * 2 + byte % 2

unfoldable pub clear_bit : ℕ → ℕ → ℕ
clear_bit zero byte = byte / 2 * 2
clear_bit (suc k) byte = clear_bit k (byte / 2) * 2 + byte % 2

-- The bit of block `b` of the disk in the free map.
unfoldable pub in_use : Disk → ℕ → Bool
in_use d b = test_bit (b % bpb % 8) (d.block (bblock b d.sb) (b % bpb / 8))

-- The inner loop of `balloc`: the first `bi` whose bit is clear, of those that are left.
unfoldable pub scan_map : ℕ → ℕ → ℕ → Disk → Option ℕ
scan_map zero b bi d = none
scan_map (suc left) b bi d =
    let rest = scan_map left b (bi + 1) d in
    if not (ltb (b + bi) d.sb.size)
    then none
    else if not (test_bit (bi % 8) (d.block (bblock b d.sb) (bi / 8)))
    then some bi
    else rest

-- The block is marked in use, and zeroed.
abbrev pub take_block : ℕ → ℕ → Disk → ℕ × Disk
take_block b bi d =
    let blk = d.block (bblock b d.sb) in
    let d = log_write (bblock b d.sb) (update blk (bi / 8) (set_bit (bi % 8) (blk (bi / 8)))) d in
    (b + bi, bzero (b + bi) d)

-- The outer loop, over the blocks of the free map.
unfoldable pub balloc_loop : ℕ → ℕ → Disk → Option (ℕ × Disk)
balloc_loop zero b d = none
balloc_loop (suc rounds) b d =
    let rest = balloc_loop rounds (b + bpb) d in
    let found : Option (ℕ × Disk) = elim (scan_map bpb b 0 d) [
      | none ↦ rest
      | some bi ↦ some (take_block b bi d)
    ] in
    if ltb b d.sb.size then found else none

-- The loop ends by its test within these rounds.
unfoldable pub balloc : Disk → Option (ℕ × Disk)
balloc d = balloc_loop (d.sb.size / bpb + 1) 0 d

unfoldable pub bfree : ℕ → Disk → Option Disk
bfree b d =
    let blk = d.block (bblock b d.sb) in
    let bi = b % bpb in
    let done =
      log_write (bblock b d.sb) (update blk (bi / 8) (clear_bit (bi % 8) (blk (bi / 8)))) d in
    if not (test_bit (bi % 8) (blk (bi / 8))) then none else some done
