-- ===== src/Fs/Inode.antt =====
-- kernel/fs.c: the contents of inodes, `bmap` to `writei`.
-- An inode stands here with its fields that are copied from the disk; its entry in the table is in
-- Fs/Table. `copyout` and `copyin` stand for `either_copyout` and `either_copyin`, on the bytes from
-- position `tot` on: whether the copy is done, and how many of the bytes have been copied.
use operating_systems.Prelude.{
  ℕ, zero, suc, ◌+◌, ◌-◌, ◌*◌, ◌/◌, ◌%◌, ◌^◌, min, Bool, ◌&&◌, ◌||◌, Option, none, some, List, [],
  ◌∷◌, ◌++◌, ltb, leb, ◌==◌, if◌then◌else◌, update,
}
use operating_systems.Fs.{Disk, Super, bsize, log_write, balloc, bfree}
use mathlib.Core.Option

pub record Inode : Type 0 where
  pub dev : ℕ
  pub inum : ℕ
  pub type : ℕ
  pub major : ℕ
  pub minor : ℕ
  pub nlink : ℕ
  pub size : ℕ
  pub addrs : ℕ → ℕ

abbrev pub ndirect : ℕ
ndirect = 12

abbrev pub nindirect : ℕ
nindirect = bsize / 4

abbrev pub maxfile : ℕ
maxfile = ndirect + nindirect

-- Inodes per block, and the block of an inode.
abbrev pub ipb : ℕ
ipb = bsize / 64

abbrev pub iblock : ℕ → Super → ℕ
iblock i sb = i / ipb + sb.inodestart

-- Byte `k` of a number, and the `uint` at place `i` of a block.
abbrev pub byte_of : ℕ → ℕ → ℕ
byte_of w zero = w % 256
byte_of w (suc k) = byte_of (w / 256) k

abbrev pub get_word : (ℕ → ℕ) → ℕ → ℕ
get_word blk i =
    blk (4 * i) + blk (4 * i + 1) * 256 + blk (4 * i + 2) * 256 ^ 2 + blk (4 * i + 3) * 256 ^ 3

abbrev pub put_word : (ℕ → ℕ) → ℕ → ℕ → ℕ → ℕ
put_word blk i w j = if j / 4 == i then byte_of w (j % 4) else blk j

-- The bytes of `struct dinode`: four shorts, the size and the addresses.
abbrev pub dinode_word : Inode → ℕ → ℕ
dinode_word ip zero = ip.type % 2 ^ 16 + ip.major % 2 ^ 16 * 2 ^ 16
dinode_word ip (suc zero) = ip.minor % 2 ^ 16 + ip.nlink % 2 ^ 16 * 2 ^ 16
dinode_word ip (suc (suc zero)) = ip.size
dinode_word ip (suc (suc (suc k))) = ip.addrs k

unfoldable pub put_dinode : (ℕ → ℕ) → ℕ → Inode → ℕ → ℕ
put_dinode blk slot ip j =
    if j / 64 == slot then byte_of (dinode_word ip (j % 64 / 4)) (j % 4) else blk j

unfoldable pub iupdate : Inode → Disk → Disk
iupdate ip d =
    let b = iblock ip.inum d.sb in log_write b (put_dinode (d.block b) (ip.inum % ipb) ip) d

-- What `ilock` reads from the disk.
unfoldable pub load_inode : Inode → Disk → Inode
load_inode ip d =
    let blk = d.block (iblock ip.inum d.sb) in
    let at = λ (k : ℕ). get_word blk (16 * (ip.inum % ipb) + k) in
    record ip {
      type = at 0 % 2 ^ 16;
      major = at 0 / 2 ^ 16;
      minor = at 1 % 2 ^ 16;
      nlink = at 1 / 2 ^ 16;
      size = at 2;
      addrs = λ k. at (k + 3);
    }

-- `if((addr = ip->addrs[k]) == 0) ip->addrs[k] = addr = balloc(ip->dev);`
unfoldable pub direct : Inode → ℕ → Disk → Option (ℕ × Inode × Disk)
direct ip k d =
    let new =
      Option.map (λ r. (r.0, record ip { addrs = update ip.addrs k r.0 }, r.1)) (balloc d) in
    if ip.addrs k == 0 then new else some (ip.addrs k, ip, d)

-- The entry at place `k` of the indirect block `b`.
unfoldable pub indirect : ℕ → Inode → ℕ → Disk → Option (ℕ × Inode × Disk)
indirect b ip k d =
    let new =
      Option.map (λ r. (r.0, ip, log_write b (put_word (r.1.block b) k r.0) r.1)) (balloc d) in
    if get_word (d.block b) k == 0 then new else some (get_word (d.block b) k, ip, d)

unfoldable pub bmap : Inode → ℕ → Disk → Option (ℕ × Inode × Disk)
bmap ip bn d =
    let far : Option (ℕ × Inode × Disk) = elim (direct ip ndirect d) [
      | none ↦ none
      | some r ↦ indirect r.0 r.1 (bn - ndirect) r.2
    ] in
    if ltb bn ndirect then direct ip bn d else if ltb (bn - ndirect) nindirect then far else none

-- The loop of `readi`, with the bytes copied up to now. `none` for the total is -1.
abbrev pub slice : (ℕ → ℕ) → ℕ → ℕ → List ℕ
slice blk o zero = []
slice blk o (suc m) = blk o ∷ slice blk (o + 1) m

abbrev pub room : ℕ → ℕ → ℕ → ℕ
room tot n off = min (n - tot) (bsize - off % bsize)

abbrev pub Read : Type 0
Read = Option ℕ × List ℕ × Inode × Disk

unfoldable pub readi_loop : (ℕ → ℕ → Bool) → ℕ → ℕ → ℕ → ℕ → List ℕ → Inode → Disk → Option Read
readi_loop copyout zero tot n off bytes ip d = none
readi_loop copyout (suc fuel) tot n off bytes ip d =
    let m = room tot n off in
    let round : Option Read = elim (bmap ip (off / bsize) d) [
      | none ↦ none
      | some r ↦
          let rest =
            readi_loop copyout fuel ((tot + m) % 2 ^ 32) n ((off + m) % 2 ^ 32)
              (bytes ++ slice (r.2.block r.0) (off % bsize) m) r.1 r.2 in
          if copyout tot m then rest else some (none, bytes, r.1, r.2)
    ] in
    if ltb tot n then round else some (some tot, bytes, ip, d)

-- A round copies a byte or more.
unfoldable pub readi : (ℕ → ℕ → Bool) → ℕ → ℕ → Inode → Disk → Option Read
readi copyout off n ip d =
    let n' = if ltb ip.size ((off + n) % 2 ^ 32) then ip.size - off else n in
    let run = readi_loop copyout (n' + 1) 0 n' off [] ip d in
    if ltb ip.size off || ltb ((off + n) % 2 ^ 32) off then some (some 0, [], ip, d) else run

-- The bytes from place `o` on are overwritten by `m` bytes.
abbrev pub splice : (ℕ → ℕ) → ℕ → ℕ → (ℕ → ℕ) → ℕ → ℕ
splice blk o m bytes j = if leb o j && ltb j (o + m) then bytes (j - o) else blk j

abbrev pub Write : Type 0
Write = Option ℕ × ℕ × Inode × Disk

-- The loop of `writei`: the total, the offset behind it. After a copy that stops early the buffer has
-- the bytes that were copied, and is not given to the log.
unfoldable pub writei_loop :
    (ℕ → ℕ → ℕ) → (ℕ → ℕ) → ℕ → ℕ → ℕ → ℕ → Inode → Disk → Option (ℕ × ℕ × Inode × Disk)
writei_loop copyin src zero tot n off ip d = none
writei_loop copyin src (suc fuel) tot n off ip d =
    let m = room tot n off in
    let c = min (copyin tot m) m in
    let round : Option (ℕ × ℕ × Inode × Disk) = elim (bmap ip (off / bsize) d) [
      | none ↦ none
      | some r ↦
          let blk = splice (r.2.block r.0) (off % bsize) c (λ i. src (tot + i)) in
          let rest =
            writei_loop copyin src fuel ((tot + m) % 2 ^ 32) n ((off + m) % 2 ^ 32) r.1
              (log_write r.0 blk r.2) in
          if c == m
          then rest
          else some (tot, off, r.1, record r.2 { block = update r.2.block r.0 blk })
    ] in
    if ltb tot n then round else some (tot, off, ip, d)

abbrev pub grown : ℕ → Inode → Inode
grown off ip = if ltb ip.size off then record ip { size = off } else ip

-- `none` for the total is -1.
unfoldable pub writei :
    (ℕ → ℕ → ℕ) → (ℕ → ℕ) → ℕ → ℕ → Inode → Disk → Option (Option ℕ × Inode × Disk)
writei copyin src off n ip d =
    let run : Option (Option ℕ × Inode × Disk) =
      Option.map (λ r. (let ip = grown r.1 r.2 in (some r.0, ip, iupdate ip r.3)))
        (writei_loop copyin src (n + 1) 0 n off ip d) in
    if ltb ip.size off || ltb ((off + n) % 2 ^ 32) off || ltb (maxfile * bsize) ((off + n) % 2 ^ 32)
    then some (none, ip, d)
    else run

-- The loops of `itrunc`: the direct blocks from `i` on, and the blocks of the indirect one.
unfoldable pub free_direct : ℕ → ℕ → Inode → Disk → Option (Inode × Disk)
free_direct zero i ip d = some (ip, d)
free_direct (suc left) i ip d =
    let keep = free_direct left (i + 1) ip d in
    let freed : Option (Inode × Disk) = elim (bfree (ip.addrs i) d) [
      | none ↦ none
      | some t ↦ free_direct left (i + 1) (record ip { addrs = update ip.addrs i 0 }) t
    ] in
    if ip.addrs i == 0 then keep else freed

unfoldable pub free_indirect : ℕ → ℕ → (ℕ → ℕ) → Disk → Option Disk
free_indirect zero j a d = some d
free_indirect (suc left) j a d =
    let keep = free_indirect left (j + 1) a d in
    let freed : Option Disk = elim (bfree (get_word a j) d) [
      | none ↦ none
      | some t ↦ free_indirect left (j + 1) a t
    ] in
    if get_word a j == 0 then keep else freed

-- The indirect block itself.
unfoldable pub free_block : Inode → Disk → Option (Inode × Disk)
free_block ip d =
    let b = ip.addrs ndirect in
    let freed : Option (Inode × Disk) = elim (free_indirect nindirect 0 (d.block b) d) [
      | none ↦ none
      | some t ↦ Option.map (λ u. (record ip { addrs = update ip.addrs ndirect 0 }, u)) (bfree b t)
    ] in
    if b == 0 then some (ip, d) else freed

unfoldable pub itrunc : Inode → Disk → Option (Inode × Disk)
itrunc ip d = elim (free_direct ndirect 0 ip d) [
  | none ↦ none
  | some r ↦
      Option.map (λ r. (let ip = record r.0 { size = 0 } in (ip, iupdate ip r.1)))
        (free_block r.0 r.1)
]
