-- ===== src/Vm.antt =====
-- kernel/vm.c: page tables, three levels of pages of 512 entries each.
-- `mem p i` is the 64-bit word at index `i` of the page at address `p`. The allocator is its free
-- pages in the order in which `kalloc` gives them (Kalloc/Free).
pub mod Tree
pub mod Grow
pub mod Walk
pub mod Leaf
pub mod Map
pub mod Mappages
pub mod Address
pub mod Space
mod Tests
use operating_systems.Prelude.{
  ℕ, zero, suc, ◌+◌, ◌-◌, ◌*◌, ◌/◌, ◌%◌, ◌^◌, Bool, true, false, ◌&&◌, not, Option, none, some,
  List, [], ◌∷◌, leb, ◌==◌, if◌then◌else◌, update,
}
use operating_systems.Kalloc.{pgsize}

pub record Vm : Type 0 where
  pub mem : ℕ → ℕ → ℕ
  pub free : List ℕ

-- `MAXVA`
abbrev pub maxva : ℕ
maxva = 2 ^ 38

-- `*pte & PTE_V`, `*pte & PTE_U`
abbrev pub is_valid : ℕ → Bool
is_valid pte = pte % 2 == 1

abbrev pub is_user : ℕ → Bool
is_user pte = pte / 16 % 2 == 1

-- `PA2PTE`, `PTE2PA`, on 64 bits
abbrev pub pa2pte : ℕ → ℕ
pa2pte pa = pa / 2 ^ 12 * 2 ^ 10

abbrev pub pte2pa : ℕ → ℕ
pte2pa pte = pte / 2 ^ 10 * 2 ^ 12 % 2 ^ 64

-- `PA2PTE(pa) | perm | PTE_V`; the permissions fit the ten bits below the address.
-- `PA2PTE(pa) | perm | PTE_V`, where `perm` has no bit above the ten lowest, as here `|` is a sum.
abbrev pub leaf_pte : ℕ → ℕ → ℕ
leaf_pte pa perm = pa2pte pa + (perm / 2 * 2 + 1)

-- `PX(level, va)`; there are three levels.
abbrev pub px : ℕ → ℕ → ℕ
px zero va = va / 2 ^ 12 % 512
px (suc zero) va = va / 2 ^ 21 % 512
px (suc (suc level)) va = va / 2 ^ 30 % 512

abbrev pub pgrounddown : ℕ → ℕ
pgrounddown a = a / pgsize * pgsize

abbrev pub set_word : (ℕ → ℕ → ℕ) → ℕ → ℕ → ℕ → ℕ → ℕ → ℕ
set_word mem p i w = update mem p (update (mem p) i w)

-- The page `q` is filled with zeros and entered at index `i` of the page `p`.
abbrev pub link : ℕ → ℕ → ℕ → List ℕ → Vm → Vm
link q p i free s = record {
  mem = set_word (update s.mem q (λ j. 0)) p i (pa2pte q + 1);
  free = free;
}

-- The loop of `walk` at `level`, in the page `table`: where the entry stands, or none for the null
-- pointer.
unfoldable pub walk_loop : ℕ → ℕ → ℕ → Bool → Vm → Option (ℕ × ℕ) × Vm
walk_loop zero table va alloc s = (some (table, px 0 va), s)
walk_loop (suc level) table va alloc s =
    let i = px (suc level) va in
    let pte = s.mem table i in
    let down = walk_loop level (pte2pa pte) va alloc s in
    let grown : Option (ℕ × ℕ) × Vm = elim s.free [
      | [] ↦ (none, s)
      | q ∷ free ↦ walk_loop level q va alloc (link q table i free s)
    ] in
    if is_valid pte then down else if not alloc then (none, s) else grown

-- `none` is the panic.
unfoldable pub walk : ℕ → ℕ → Bool → Vm → Option (Option (ℕ × ℕ) × Vm)
walk root va alloc s = if leb maxva va then none else some (walk_loop 2 root va alloc s)

-- `walkaddr` behind `walk`; 0 is the null pointer.
unfoldable pub user_addr : (ℕ → ℕ → ℕ) → Option (ℕ × ℕ) → ℕ
user_addr mem none = 0
user_addr mem (some (p, i)) =
    let pte = mem p i in if is_valid pte && is_user pte then pte2pa pte else 0

unfoldable pub walkaddr : ℕ → ℕ → Vm → ℕ
walkaddr root va s = if leb maxva va then 0 else user_addr s.mem (walk_loop 2 root va false s).0

-- How `mappages` ends: 0, -1, a panic, or the fuel has run out.
pub data Mapped : Type 0 where
  mapped fails : Vm → Mapped
  panics no_fuel : Mapped

-- A round of `mappages` behind `walk`, and `next` for the rounds that follow.
unfoldable pub map_at : ℕ → ℕ → (Vm → Mapped) → Option (ℕ × ℕ) × Vm → Mapped
map_at pa perm next (none, s) = fails s
map_at pa perm next (some (p, i), s) =
    if is_valid (s.mem p i)
    then panics
    else next (record s { mem = set_word s.mem p i (leaf_pte pa perm) })

unfoldable pub map_loop : ℕ → ℕ → ℕ → ℕ → ℕ → ℕ → Vm → Mapped
unfolding walk map_at
map_loop zero root a last pa perm s = no_fuel
map_loop (suc fuel) root a last pa perm s =
    let next = λ (t : Vm).
      let rest = map_loop fuel root ((a + pgsize) % 2 ^ 64) last ((pa + pgsize) % 2 ^ 64) perm t in
      if a == last then mapped t else rest in
    elim (walk root a true s) [ none ↦ panics | some r ↦ map_at pa perm next r ]

-- The sum is taken modulo 2 ^ 64.
unfoldable pub mappages : ℕ → ℕ → ℕ → ℕ → ℕ → ℕ → Vm → Mapped
mappages fuel root va size pa perm s =
    map_loop fuel root (pgrounddown va) (pgrounddown ((va + size + 2 ^ 64 - 1) % 2 ^ 64)) pa perm s
