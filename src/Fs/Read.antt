-- ===== src/Fs/Read.antt =====
-- What `readi` gives.
use operating_systems.Prelude.{
  ℕ, ◌+◌, ◌-◌, ◌%◌, ◌^◌, ◌≤◌, ◌<◌, min, ◌≡◌, ◌⊎◌, Bool, false, ◌||◌, Option, none, some, List, ◌++◌,
  arith, ltb, leb, if◌then◌else◌,
}
use operating_systems.Fs.{Disk, bsize}
use operating_systems.Fs.Inode.{Inode, room, Read, slice}
use operating_systems.Fs.Owner.{content, Grows}
use operating_systems.Fs.Bmap.{Stuck}

-- The loop has copied the rest of the bytes of the contents, or the first of them up to a copy that
-- was refused.
abbrev pub ReadsOn : (ℕ → ℕ → Bool) → ℕ → ℕ → ℕ → List ℕ → Inode → Disk → Option Read → Type 0
ReadsOn copyout n left off bytes ip d r =
    ((r ≡ none) × Stuck ip d)
    ⊎ ((total : Option ℕ) × (k : ℕ) × (ip' : Inode) × (d' : Disk) × (r
          ≡ some (total, bytes ++ slice (content ip d) off k, ip', d'))
        × Grows ip d ip' d'
        × (((total ≡ none) × (k < left) × ((p : ℕ) × (m : ℕ) × (copyout p m ≡ false)))
            ⊎ ((total ≡ some n) × (k ≡ left))))

pub room_lem :
    (tot n off : ℕ)
    → tot < n
    → (0 < room tot n off) × (room tot n off ≤ n - tot) × (off % bsize + room tot n off ≤ bsize)
room_lem tot n off h = (omega arith, omega arith, omega arith)

abbrev EndsAt : Option ℕ → ℕ → ℕ → ℕ → (ℕ → ℕ → Bool) → Type 0
EndsAt total n left k copyout =
    ((total ≡ none) × (k < left) × ((p : ℕ) × (m : ℕ) × (copyout p m ≡ false)))
    ⊎ ((total ≡ some n) × (k ≡ left))

-- How many bytes `readi` is to copy.
abbrev pub readable : ℕ → ℕ → Inode → ℕ
readable off n ip = if ltb ip.size off || leb (2 ^ 32) (off + n) then 0 else min n (ip.size - off)
