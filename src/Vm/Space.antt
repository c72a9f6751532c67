-- ===== src/Vm/Space.antt =====
-- kernel/vm.c: `uvmcreate` and `uvmclear`.
use operating_systems.Prelude.{
  ℕ, suc, ◌-◌, ◌*◌, ◌/◌, ◌%◌, ◌^◌, ◌<◌, ◌≡◌, refl, sym, ap, ap₂, ◌∙◌, subst, ◌⊎◌, inl, inr, true,
  false, Option, none, some, List, [], ◌∷◌, arith, ◌==◌, if◌then◌else◌, Bool-cases, update,
  update_self, All, has, List-cases,
}
use operating_systems.Vm.Address.{user_page, walkaddr-lookup}
use operating_systems.Vm.Leaf.{walk_at, lookup_hit, lookup_miss, written, written-IsTree}
use operating_systems.Kalloc.{pgsize}
use operating_systems.Vm.{walk_loop, walkaddr, maxva, Vm, is_valid, px, walk, set_word}
use operating_systems.Vm.Mappages.{walk-some}
use operating_systems.Vm.Tree.{word_at, walk_loop-lookup, Place, IsTree, lookup, Distinct}

-- A new page table, or the null pointer.
unfoldable pub uvmcreate : Vm → Option (ℕ × Vm)
uvmcreate s = elim s.free [
  | [] ↦ none
  | q ∷ free ↦ some (q, record { mem = update s.mem q (λ i. 0); free = free })
]

-- `*pte & ~PTE_U`
abbrev pub without_user : ℕ → ℕ
without_user pte = pte - pte / 16 % 2 * 16

-- `none` is a panic.
unfoldable pub clear_at : Option (ℕ × ℕ) × Vm → Option Vm
clear_at (none, s) = none
clear_at (some (p, i), s) = some (record s { mem = set_word s.mem p i (without_user (s.mem p i)) })

unfoldable pub uvmclear : ℕ → ℕ → Vm → Option Vm
uvmclear root va s = elim (walk root va false s) [ none ↦ none | some r ↦ clear_at r ]

-- The tree of one table.
abbrev pub only : ℕ → Place
only q p = if q == p then some (2, 0) else none

only-some : (q p level pre : ℕ) → only q p ≡ some (level, pre) → (q ≡ p) × (level ≡ 2)
only-some q p level pre h = elim (Bool-cases (q == p)) [
  | inl y ↦
      let here : only q p ≡ some (2, 0) = rw y refl in let both = sym here ∙ h in (ground arith, cc)
  | inr n ↦ let here : only q p ≡ none = rw n refl in let clash = sym here ∙ h in absurd cc
]

apart_only :
    (q : ℕ) (l : List ℕ)
    → has l q ≡ false
    → All (λ x. (x % pgsize ≡ 0) × (x < 2 ^ 64)) l
    → All (λ x. (only q x ≡ none) × (x % pgsize ≡ 0) × (x < 2 ^ 64)) l
apart_only q [] out all = tt
apart_only q (x ∷ l) out all =
    let other : q == x ≡ false = ground arith in
    ((rw other refl, all.0.0, all.0.1), apart_only q l (ground arith) all.1)

-- Over free pages that are aligned and differ, `uvmcreate` gives no table only when there is none;
-- else it takes the first, and from it the page table is a tree in which no address has an entry.
pub uvmcreate_lem :
    (s : Vm)
    → All (λ x. (x % pgsize ≡ 0) × (x < 2 ^ 64)) s.free
    → Distinct s.free
    → ((uvmcreate s ≡ none) × (s.free ≡ []))
      ⊎ ((q : ℕ) × (t : Vm) × (uvmcreate s ≡ some (q, t))
          × (s.free ≡ q ∷ t.free)
          × IsTree t q (only q)
          × ((va : ℕ) → lookup t.mem 2 q va ≡ 0))
unfolding uvmcreate lookup
uvmcreate_lem s al ds = elim (List-cases s.free) [
  | inl e ↦ inl (rw e refl, e)
  | inr (q, rest, e) ↦
      let t : Vm = record { mem = update s.mem q (λ i. 0); free = rest } in
      let zeros : (j : ℕ) → t.mem q j ≡ 0 = λ j. ap (λ f. f j) (update_self s.mem q (λ i. 0)) in
      let all = subst (λ l. All (λ x. (x % pgsize ≡ 0) × (x < 2 ^ 64)) l) e al in
      let dist : (has rest q ≡ false) × Distinct rest = subst Distinct e ds in
      let self : q == q ≡ true = ground arith in
      inr (
        q,
        t,
        rw e refl,
        e,
        record {
          top = rw self refl;
          child = λ p i level pre h lt v.
              let here = (only-some q p (suc level) pre h).0 in
              let clash =
                sym v ∙ ap (λ z. is_valid (t.mem z i)) (sym here) ∙ ap is_valid (zeros i) in
              absurd cc;
          low = λ p level pre h. (let two = (only-some q p level pre h).1 in omega arith);
          apart = apart_only q rest dist.0 all.1;
          once = dist.1;
        },
        λ va.
            (let gap : is_valid (t.mem q (px 2 va)) ≡ false = ap is_valid (zeros (px 2 va)) in
              rw gap refl),
      )
]

uvmclear-clear_at :
    (root va : ℕ) (s : Vm) (o : Option (ℕ × ℕ))
    → va < maxva
    → (walk_loop 2 root va false s).0 ≡ o
    → uvmclear root va s ≡ clear_at (o, s)
unfolding uvmclear
uvmclear-clear_at root va s o h e =
    let after : Option (Option (ℕ × ℕ) × Vm) → Option Vm =
      λ r. elim r [ none ↦ none | some x ↦ clear_at x ] in
    ap after (walk-some root va false s h)
    ∙ ap₂ (λ a b. clear_at (a, b)) e (walk_loop-lookup 2 root va s).0

user_page-without_user : (pte : ℕ) → user_page (without_user pte) ≡ 0
user_page-without_user pte = ground arith

-- Over a page table that is a tree, `uvmclear` of an address below `MAXVA` panics only if there is
-- no entry for it; else the table is a tree, `walkaddr` gives the null pointer for all addresses of
-- its page, and for every other address below `MAXVA` what it gave before.
pub uvmclear_lem :
    (root va : ℕ) (s : Vm) (place : Place)
    → IsTree s root place
    → va < maxva
    → ((uvmclear root va s ≡ none) × (lookup s.mem 2 root va ≡ 0))
      ⊎ ((t : Vm) × (uvmclear root va s ≡ some t)
          × IsTree t root place
          × ((x : ℕ)
              → x < maxva
              → walkaddr root x t ≡ (if va / pgsize == x / pgsize then 0 else walkaddr root x s)))
unfolding clear_at
uvmclear_lem root va s place t h =
    elim (walk_at 2 root va s root place t (t.top ∙ ap (λ m. some (2, m)) (omega arith))) [
      | inl e ↦ inl (
        uvmclear-clear_at root va s none h e,
        sym (walk_loop-lookup 2 root va s).1 ∙ ap (word_at s.mem) e,
      )
      | inr (p, e, at) ↦
          let i = px 0 va in
          let w = without_user (s.mem p i) in
          let after = written s root place t p (va / 2 ^ 21) i w at in
          inr (
            after,
            uvmclear-clear_at root va s (some (p, i)) h e,
            written-IsTree s root place t p (va / 2 ^ 21) i w at,
            λ x hx.
                walkaddr-lookup root x after hx ∙ elim (Bool-cases (va / pgsize == x / pgsize)) [
                  | inl y ↦
                      ap user_page
                        (lookup_hit s root place t p (va / 2 ^ 21) i w at va x e (ground arith))
                      ∙ user_page-without_user (s.mem p i)
                      ∙ rw y refl
                  | inr n ↦
                      ap user_page (
                        lookup_miss s root place t p (va / 2 ^ 21) i w at va x refl refl
                          (omega arith) (ground arith))
                      ∙ sym (walkaddr-lookup root x s hx)
                      ∙ rw n refl
                ],
          )
    ]
