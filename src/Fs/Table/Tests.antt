-- ===== src/Fs/Table/Tests.antt =====
-- A disk whose first inode, of the root, is a directory with an entry "a"
-- for itself; the table has the root once.
use operating_systems.Prelude.{true, false, none, [], ◌∷◌, ◌==◌, if◌then◌else◌}
use operating_systems.Fs.Table.Linked.{dirlink_lem}
use operating_systems.Fs.Table.Link.{dirlink}
use operating_systems.Fs.{Disk, Super}
use operating_systems.Fs.Inode.{Inode}
use operating_systems.Fs.Table.{Table, namex}
use operating_systems.Fs.Table.Refs.{Ends, Net}
use operating_systems.Fs.Table.Walk.{namex_lem}

abbrev sb : Super
sb = record {
  magic = 0x10203040;
  size = 64;
  nblocks = 60;
  ninodes = 16;
  nlog = 0;
  logstart = 2;
  inodestart = 2;
  bmapstart = 3;
}

-- Inode 1 has type 1 and size 16; its block 5 has the entry "a" for inode 1.
abbrev root : Inode
root = record {
  dev = 1;
  inum = 1;
  type = 1;
  major = 0;
  minor = 0;
  nlink = 1;
  size = 16;
  addrs = λ k. if k == 0 then 5 else 0;
}

abbrev disk : Disk
disk = record {
  sb = sb;
  block = λ b i. if b == 5 then (if i == 0 then 1 else if i == 2 then 97 else 0) else 0;
  writes = [];
}

abbrev table : Table
table = record {
  disk = disk;
  entry = λ i. record { ip = root; ref = if i == 0 then 1 else 0; valid = true; holder = none };
}

-- The path "/a/a".
namex_lem_example :
    Ends (λ q. Net table q.2 q.0) (namex 1 0 false (47 ∷ 97 ∷ 47 ∷ 97 ∷ []) [] table)
namex_lem_example = namex_lem 1 0 false (47 ∷ 97 ∷ 47 ∷ 97 ∷ []) [] table

-- A directory gets the entry "b" for inode 1.
dirlink_lem_example : Ends (λ r. Net table r.1 none) (dirlink 0 (98 ∷ []) 1 table)
dirlink_lem_example = dirlink_lem 0 (98 ∷ []) 1 table
