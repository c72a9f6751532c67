-- ===== src/Vm/Mappages.antt =====
-- How `mappages` ends.
use operating_systems.Prelude.{
  ℕ, zero, suc, ◌+◌, ◌-◌, ◌*◌, ◌/◌, ◌%◌, ◌^◌, ◌≤◌, ◌<◌, ◌≡◌, refl, sym, ap, ◌∙◌, subst, ◌≢◌, inl,
  inr, Bool, true, false, Option, none, some, [], arith, leb, ◌==◌, if◌then◌else◌, Bool-cases,
}
use operating_systems.Kalloc.{pgsize}
use operating_systems.Vm.{
  pgrounddown, mappages, Vm, Mapped, mapped, fails, panics, no_fuel, maxva, leaf_pte, is_valid, px,
  walk, walk_loop, set_word, map_at, map_loop,
}
use operating_systems.Vm.Tree.{Place, IsTree, lookup}
use operating_systems.Vm.Walk.{walk_loop_lem}
use operating_systems.Vm.Map.{
  in_pages, Maps-other, entry_found, in_pages_rest, in_pages_after, in_pages_first, Maps, Maps-add,
  Maps-none, Maps-one, in_pages,
}

-- All `k + 1` pages from `a` on are mapped; or the first of them, until there is no page for a
-- table; or one was mapped before, and the code panics.
abbrev pub MapEnds : Vm → ℕ → ℕ → ℕ → ℕ → ℕ → Mapped → Type 0
MapEnds s root a k pa perm (mapped t) = Maps s root a (suc k) pa perm t
MapEnds s root a k pa perm (fails t) = (n : ℕ) × (n ≤ k) × Maps s root a n pa perm t × (t.free ≡ [])
MapEnds s root a k pa perm panics =
    (va : ℕ) × (va < 2 ^ 39)
    × (in_pages a (suc k) va ≡ true)
    × (is_valid (lookup s.mem 2 root va) ≡ true)
MapEnds s root a k pa perm no_fuel = ⊥

map_at-none :
    (pa perm : ℕ) (next : Vm → Mapped) (out : Option (ℕ × ℕ) × Vm)
    → out.0 ≡ none
    → map_at pa perm next out ≡ fails out.1
unfolding map_at
map_at-none pa perm next (none, s) h = refl
map_at-none pa perm next (some x, s) h = absurd cc

map_at-some :
    (pa perm p i : ℕ) (next : Vm → Mapped) (out : Option (ℕ × ℕ) × Vm)
    → out.0 ≡ some (p, i)
    → map_at pa perm next out ≡ (
        if is_valid (out.1.mem p i)
        then panics
        else next (record out.1 { mem = set_word out.1.mem p i (leaf_pte pa perm) }))
unfolding map_at
map_at-some pa perm p i next (none, s) h = absurd cc
map_at-some pa perm p i next (some (r, j), s) h =
    let first : r ≡ p = cc in let second : j ≡ i = cc in rw (first, second) refl

-- The rest of the loop behind a round.
abbrev rest : ℕ → ℕ → ℕ → ℕ → ℕ → ℕ → Vm → Mapped
rest fuel root a last pa perm t =
    let more = map_loop fuel root ((a + pgsize) % 2 ^ 64) last ((pa + pgsize) % 2 ^ 64) perm t in
    if a == last then mapped t else more

pub walk-some :
    (root va : ℕ) (alloc : Bool) (s : Vm)
    → va < maxva
    → walk root va alloc s ≡ some (walk_loop 2 root va alloc s)
unfolding walk
walk-some root va alloc s h = (let low : leb maxva va ≡ false = ground arith in rw low refl)

map_loop-suc :
    (fuel root a last pa perm : ℕ) (s : Vm)
    → a < maxva
    → map_loop (suc fuel) root a last pa perm s
      ≡ map_at pa perm (rest fuel root a last pa perm) (walk_loop 2 root a true s)
unfolding map_loop
map_loop-suc fuel root a last pa perm s h =
    let after : Option (Option (ℕ × ℕ) × Vm) → Mapped =
      λ o. elim o [ none ↦ panics | some r ↦ map_at pa perm (rest fuel root a last pa perm) r ] in
    ap after (walk-some root a true s h)

-- A round is followed by `k` more.
MapEnds-add :
    (s t : Vm) (root a k pa perm : ℕ) (r : Mapped)
    → Maps s root a 1 pa perm t
    → MapEnds t root (a + pgsize) k (pa + pgsize) perm r
    → MapEnds s root a (suc k) pa perm r
MapEnds-add s t root a k pa perm (mapped u) f g = Maps-add root a (suc k) pa perm f g
MapEnds-add s t root a k pa perm (fails u) f (n, le, g, full) =
    (suc n, omega arith, Maps-add root a n pa perm f g, full)
MapEnds-add s t root a k pa perm panics f (va, h, i, v) =
    (let far = in_pages_after a (suc k) va i in
      let ne : a / pgsize ≢ va / pgsize = λ e. absurd (omega arith) in
      (
        va,
        h,
        (in_pages_rest a (suc k) va ne).1 ∙ i,
        sym (ap is_valid (Maps-other root a pa perm va f h ne)) ∙ v,
      ))
MapEnds-add s t root a k pa perm no_fuel f g = g

rest_lem :
    (k fuel root a last pa perm : ℕ) (s t : Vm)
    → Maps s root a 1 pa perm t
    → last ≡ a + k * pgsize
    → last < maxva
    → pa + k * pgsize < 2 ^ 64
    → ((j : ℕ)
        → k ≡ suc j
        → MapEnds t root
            (a + pgsize)
            j
            (pa + pgsize)
            perm
            (map_loop fuel root (a + pgsize) last (pa + pgsize) perm t))
    → MapEnds s root a k pa perm (rest fuel root a last pa perm t)
rest_lem zero fuel root a last pa perm s t f el hl hp next =
    let done : a == last ≡ true = ground arith in rw done f
rest_lem (suc k) fuel root a last pa perm s t f el hl hp next =
    let more : a == last ≡ false = ground arith in
    let x : (a + pgsize) % 2 ^ 64 ≡ a + pgsize = omega arith in
    let y : (pa + pgsize) % 2 ^ 64 ≡ pa + pgsize = omega arith in
    rw (more, x, y)
      (MapEnds-add s t root a k pa perm (map_loop fuel root (a + pgsize) last (pa + pgsize) perm t)
        f (next k refl))

pub map_loop_lem :
    (k fuel root a last pa perm : ℕ) (s : Vm) (place : Place)
    → IsTree s root place
    → last ≡ a + k * pgsize
    → last < maxva
    → pa + k * pgsize < 2 ^ 64
    → k < fuel
    → MapEnds s root a k pa perm (map_loop fuel root a last pa perm s)
map_loop_lem k zero root a last pa perm s place t el hl hp hf = absurd (omega arith)
map_loop_lem k (suc fuel) root a last pa perm s place t el hl hp hf =
    let (later, ext, end) =
      walk_loop_lem 2 root a s root place t (t.top ∙ ap (λ m. some (2, m)) (omega arith)) in
    let out = walk_loop 2 root a true s in
    subst (MapEnds s root a k pa perm) (sym (map_loop-suc fuel root a last pa perm s (omega arith)))
      (elim end [
        | inr (e, full) ↦
            subst (MapEnds s root a k pa perm)
              (sym (map_at-none pa perm (rest fuel root a last pa perm) out e))
              (0, omega arith, Maps-none s root a pa perm out.1 place later t ext, full)
        | inl (p, e, at, found) ↦
            subst (MapEnds s root a k pa perm)
              (sym (map_at-some pa perm p (px 0 a) (rest fuel root a last pa perm) out e))
              (elim (Bool-cases (is_valid (out.1.mem p (px 0 a)))) [
                | inl y ↦ rw y (
                  a,
                  omega arith,
                  (in_pages_first a k a refl).1,
                  ap is_valid (sym (ext.same 2 root 0 a t.top) ∙ entry_found root a p out.1 found)
                      ∙ y,
                )
                | inr n ↦
                    let done =
                      Maps-one s root a pa perm p out.1 place later t ext (omega arith) at found
                        n in
                    rw n (
                      rest_lem k fuel root a last pa perm s
                        (record out.1 { mem = set_word out.1.mem p (px 0 a) (leaf_pte pa perm) })
                        done el hl hp
                        (λ j e.
                          map_loop_lem j fuel root (a + pgsize) last (pa + pgsize) perm
                            (record out.1 {
                              mem = set_word out.1.mem p (px 0 a) (leaf_pte pa perm);
                            })
                            done.places done.tree (omega arith) hl (omega arith) (omega arith)))
              ])
      ])

-- From a state whose page table is a tree, `mappages` of a range of at least one byte, all below
-- `MAXVA`, with physical addresses that stay a page below 2 ^ 64 and permissions of 10 bits, ends,
-- given a round for each page of the range: it returns 0 and has mapped all the pages, that had no
-- mapping, to the physical pages in turn, by valid entries with the permissions; or it returns -1, a first part of them is mapped in this way, and there is no
-- free page; or a page of the range was mapped before, and the code panics. No other entry has
-- changed, and the page table is a tree again.
pub mappages_lem :
    (fuel root va size pa perm : ℕ) (s : Vm) (place : Place)
    → IsTree s root place
    → 0 < size
    → va + size ≤ maxva
    → pa + size + pgsize ≤ 2 ^ 64
    → perm < 2 ^ 10
    → size / pgsize + 2 ≤ fuel
    → MapEnds s root
        (pgrounddown va)
        ((va + size - 1) / pgsize - va / pgsize)
        pa
        perm
        (mappages fuel root va size pa perm s)
unfolding mappages
mappages_lem fuel root va size pa perm s place t some_size hv hp small hf =
    map_loop_lem ((va + size - 1) / pgsize - va / pgsize) fuel root (pgrounddown va)
      (pgrounddown ((va + size + 2 ^ 64 - 1) % 2 ^ 64)) pa perm s place t (omega arith)
      (omega arith) (omega arith) (omega arith)
