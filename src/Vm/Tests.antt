-- ===== src/Vm/Tests.antt =====
-- A page table with no entry, and four free pages: two pages of a user are mapped.
use operating_systems.Prelude.{
  ℕ, ◌/◌, ◌^◌, ◌≤◌, ◌<◌, ◌≡◌, refl, sym, ◌∙◌, subst, ◌⊎◌, inl, inr, none, some, [], ◌∷◌, arith,
  ◌==◌, if◌then◌else◌, Bool-cases,
}
use operating_systems.Vm.{
  maxva, Vm, Mapped, mapped, fails, panics, no_fuel, mappages, map_loop, map_at, walk, walk_loop,
  walkaddr,
}
use operating_systems.Vm.Map.{Maps}
use operating_systems.Vm.Space.{uvmclear, uvmclear_lem}
use operating_systems.Kalloc.{pgsize}
use operating_systems.Vm.Tree.{lookup, Place, IsTree}
use operating_systems.Vm.Mappages.{MapEnds, mappages_lem}
use operating_systems.Vm.Address.{mappages-walkaddr}

abbrev root : ℕ
root = 2 ^ 31

abbrev empty : Vm
empty = record { mem = λ p i. 0; free = 2147487744 ∷ 2147491840 ∷ 2147495936 ∷ [] }

abbrev top_only : Place
top_only p = if root == p then some (2, 0) else none

low_lem : (p level pre : ℕ) → top_only p ≡ some (level, pre) → level ≤ 2
low_lem p level pre h = elim (Bool-cases (root == p)) [
  | inl y ↦
      let here : top_only p ≡ some (2, 0) = rw y refl in
      let both = sym here ∙ h in let two : 2 ≡ level = cc in omega arith
  | inr n ↦ let here : top_only p ≡ none = rw n refl in let clash = sym here ∙ h in absurd cc
]

empty-IsTree : IsTree empty root top_only
empty-IsTree = record {
  top = refl;
  child = λ p i level pre h lt v. absurd cc;
  low = λ p level pre h. low_lem p level pre h;
  apart = ((refl, refl, omega arith), ((refl, refl, omega arith), ((refl, refl, omega arith), tt)));
  once = (refl, (refl, (refl, tt)));
}

mappages_lem_example :
    MapEnds empty root 4096 1 2147549184 22 (mappages 4 root 4100 8000 2147549184 22 empty)
mappages_lem_example =
    mappages_lem 4 root 4100 8000 2147549184 22 empty top_only empty-IsTree (omega arith)
      (omega arith) (omega arith) (omega arith) (omega arith)

abbrev after : Mapped → Vm
after (mapped t) = t
after (fails t) = t
after panics = empty
after no_fuel = empty

abbrev two_mapped : Vm
two_mapped = after (mappages 4 root 4100 8000 2147549184 22 empty)

maps_two : mappages 4 root 4100 8000 2147549184 22 empty ≡ mapped two_mapped
unfolding mappages map_loop map_at walk walk_loop
maps_two = refl

mappages-walkaddr_example : walkaddr root 8200 two_mapped ≡ 2147553280
mappages-walkaddr_example =
    mappages-walkaddr 4 root 4100 8000 2147549184 22 empty top_only two_mapped 8200 empty-IsTree
      (omega arith) (omega arith) (omega arith) (omega arith) refl (omega arith) refl maps_two
      (omega arith)

two_mapped-Maps : Maps empty root 4096 2 2147549184 22 two_mapped
two_mapped-Maps = subst (MapEnds empty root 4096 1 2147549184 22) maps_two (
    mappages_lem 4 root 4100 8000 2147549184 22 empty top_only empty-IsTree (omega arith)
      (omega arith) (omega arith) (omega arith) (omega arith))

uvmclear_lem_example :
    ((uvmclear root 8200 two_mapped ≡ none) × (lookup two_mapped.mem 2 root 8200 ≡ 0))
    ⊎ ((t : Vm) × (uvmclear root 8200 two_mapped ≡ some t)
        × IsTree t root two_mapped-Maps.places
        × ((x : ℕ)
            → x < maxva
            → walkaddr root x t
              ≡ (if 8200 / pgsize == x / pgsize then 0 else walkaddr root x two_mapped)))
uvmclear_lem_example =
    uvmclear_lem root 8200 two_mapped two_mapped-Maps.places two_mapped-Maps.tree (omega arith)
