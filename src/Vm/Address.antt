-- ===== src/Vm/Address.antt =====
-- The addresses that `walkaddr` gives.
use operating_systems.Prelude.{
  ℕ, suc, ◌+◌, ◌-◌, ◌*◌, ◌/◌, ◌%◌, ◌^◌, ◌≤◌, ◌<◌, ◌≡◌, refl, sym, ap, ◌∙◌, subst, inl, inr, Bool,
  true, false, ◌&&◌, Option, none, some, arith, leb, if◌then◌else◌, Bool-cases,
}
use operating_systems.Kalloc.{pgsize}
use operating_systems.Vm.{
  Vm, mapped, maxva, is_valid, is_user, pte2pa, walk_loop, user_addr, walkaddr, mappages,
  pgrounddown,
}
use operating_systems.Vm.Tree.{Place, IsTree, lookup, walk_loop-lookup, word_at}
use operating_systems.Vm.Map.{Maps, in_pages, page_entry}
use operating_systems.Vm.Mappages.{MapEnds, mappages_lem}

-- The address for an entry.
abbrev pub user_page : ℕ → ℕ
user_page pte = if is_valid pte && is_user pte then pte2pa pte else 0

user_addr-word_at :
    (mem : ℕ → ℕ → ℕ) (o : Option (ℕ × ℕ)) → user_addr mem o ≡ user_page (word_at mem o)
unfolding user_addr
user_addr-word_at mem none = refl
user_addr-word_at mem (some (p, i)) = refl

pub walkaddr-lookup :
    (root va : ℕ) (s : Vm) → va < maxva → walkaddr root va s ≡ user_page (lookup s.mem 2 root va)
unfolding walkaddr
walkaddr-lookup root va s h =
    let low : leb maxva va ≡ false = ground arith in
    rw low (
      user_addr-word_at s.mem (walk_loop 2 root va false s).0
      ∙ ap user_page (walk_loop-lookup 2 root va s).1)

leaf_user :
    (pa perm : ℕ)
    → pa % pgsize ≡ 0
    → pa < 2 ^ 56
    → perm < 2 ^ 10
    → is_user perm ≡ true
    → user_page (page_entry pa perm) ≡ pa
leaf_user pa perm al small hp user = ground arith

Maps-walkaddr :
    (s t : Vm) (root a n pa perm va : ℕ)
    → Maps s root a n pa perm t
    → va < maxva
    → walkaddr root va t ≡ (
        if in_pages a n va
        then user_page (page_entry (pa + (va / pgsize - a / pgsize) * pgsize) perm)
        else walkaddr root va s)
Maps-walkaddr s t root a n pa perm va m h =
    walkaddr-lookup root va t h
    ∙ ap user_page (m.entries va (omega arith))
    ∙ elim (Bool-cases (in_pages a n va)) [
      | inl y ↦ rw y refl
      | inr o ↦ rw o (sym (walkaddr-lookup root va s h))
    ]

-- The pages of a range of bytes.
abbrev pub in_range : ℕ → ℕ → ℕ → Bool
in_range va size x = leb (va / pgsize) (x / pgsize) && leb (x / pgsize) ((va + size - 1) / pgsize)

in_pages-in_range :
    (va size x : ℕ)
    → 0 < size
    → in_pages (pgrounddown va) (suc ((va + size - 1) / pgsize - va / pgsize)) x
      ≡ in_range va size x
in_pages-in_range va size x h =
    let start : pgrounddown va / pgsize ≡ va / pgsize = omega arith in
    let order : va / pgsize ≤ (va + size - 1) / pgsize = omega arith in rw start (ground arith)

in_range_small :
    (va size x pa : ℕ)
    → 0 < size
    → in_range va size x ≡ true
    → (x / pgsize - va / pgsize) * pgsize ≤ size + pgsize
in_range_small va size x pa h r =
    let low : va / pgsize ≤ x / pgsize = ground arith in
    let high : x / pgsize ≤ (va + size - 1) / pgsize = ground arith in omega arith

-- When `mappages` of a range of at least one byte below `MAXVA` returns 0, with an aligned physical
-- address and permissions for the user, `walkaddr` of an address of the range's pages is the
-- physical page at its distance from the first, and of every other address below `MAXVA` it is
-- what it was.
pub mappages-walkaddr :
    (fuel root va size pa perm : ℕ) (s : Vm) (place : Place) (t : Vm) (x : ℕ)
    → IsTree s root place
    → 0 < size
    → va + size ≤ maxva
    → pa + size + pgsize < 2 ^ 56
    → size / pgsize + 2 ≤ fuel
    → pa % pgsize ≡ 0
    → perm < 2 ^ 10
    → is_user perm ≡ true
    → mappages fuel root va size pa perm s ≡ mapped t
    → x < maxva
    → walkaddr root x t
      ≡ (if in_range va size x then pa + (x / pgsize - va / pgsize) * pgsize else walkaddr root x s)
mappages-walkaddr fuel root va size pa perm s place t x tree sz hv hp hf al pl us e hx =
    let k = (va + size - 1) / pgsize - va / pgsize in
    let m : Maps s root (pgrounddown va) (suc k) pa perm t =
      subst (MapEnds s root (pgrounddown va) k pa perm) e
        (mappages_lem fuel root va size pa perm s place tree sz hv (omega arith) pl hf) in
    let at = Maps-walkaddr s t root (pgrounddown va) (suc k) pa perm x m hx in
    let start : pgrounddown va / pgsize ≡ va / pgsize = omega arith in
    let same : in_pages (pgrounddown va) (suc k) x ≡ in_range va size x =
      in_pages-in_range va size x sz in
    elim (Bool-cases (in_range va size x)) [
      | inl y ↦
          at
          ∙ rw (same, y, start)
              (leaf_user (pa + (x / pgsize - va / pgsize) * pgsize) perm (omega arith)
                (let far = in_range_small va size x pa sz y in omega arith) pl us)
      | inr n ↦ at ∙ rw (same, n) refl
    ]
