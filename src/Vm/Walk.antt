-- ===== src/Vm/Walk.antt =====
-- What `walk` with `alloc` does.
use operating_systems.Prelude.{
  ℕ, zero, suc, ◌+◌, ◌*◌, ◌/◌, ◌^◌, ◌<◌, ◌≡◌, refl, sym, ap, ◌∙◌, subst, ◌⊎◌, inl, inr, Bool, true,
  false, Option, none, some, List, [], ◌∷◌, arith, Bool-cases, List-cases,
}
use operating_systems.Vm.{Vm, is_valid, pte2pa, pa2pte, px, walk_loop, link}
use operating_systems.Vm.Tree.{
  Place, IsTree, px_lt, prefix, prefix_step, Extends, Extends-refl, Extends-trans,
}
use operating_systems.Vm.Grow.{placed, grown-Extends, placed_new, word_new, leads}

-- The three ways of a round.
pub walk_down :
    (level r va : ℕ) (alloc : Bool) (s : Vm)
    → is_valid (s.mem r (px (suc level) va)) ≡ true
    → walk_loop (suc level) r va alloc s
      ≡ walk_loop level (pte2pa (s.mem r (px (suc level) va))) va alloc s
unfolding walk_loop
walk_down level r va alloc s y = rw y refl

walk_full :
    (level r va : ℕ) (s : Vm)
    → is_valid (s.mem r (px (suc level) va)) ≡ false
    → s.free ≡ []
    → walk_loop (suc level) r va true s ≡ (none, s)
unfolding walk_loop
walk_full level r va s n f = rw n (simp f refl)

walk_new :
    (level r va q : ℕ) (rest : List ℕ) (s : Vm)
    → is_valid (s.mem r (px (suc level) va)) ≡ false
    → s.free ≡ q ∷ rest
    → walk_loop (suc level) r va true s
      ≡ walk_loop level q va true (link q r (px (suc level) va) rest s)
unfolding walk_loop
walk_new level r va q rest s n f = rw (n, f) refl

-- The entry is found in a table of the lowest level, or there is no page left.
abbrev pub Ended : ℕ → ℕ → ℕ → Place → Option (ℕ × ℕ) × Vm → Type 0
Ended level r va later out =
    ((p : ℕ) × (out.0 ≡ some (p, px 0 va))
      × (later p ≡ some (0, va / 2 ^ 21))
      × ((walk_loop level r va false out.1).0 ≡ some (p, px 0 va)))
    ⊎ ((out.0 ≡ none) × (out.1.free ≡ []))

abbrev pub Walked : ℕ → ℕ → ℕ → Vm → ℕ → Place → Option (ℕ × ℕ) × Vm → Type 0
Walked level r va s root place out =
    (later : Place) × Extends s root place out.1 later × Ended level r va later out

Ended_down :
    (level r next va : ℕ) (later : Place) (out : Option (ℕ × ℕ) × Vm)
    → is_valid (out.1.mem r (px (suc level) va)) ≡ true
    → pte2pa (out.1.mem r (px (suc level) va)) ≡ next
    → Ended level next va later out
    → Ended (suc level) r va later out
Ended_down level r next va later out v n (inr h) = inr h
Ended_down level r next va later out v n (inl (p, found, at, again)) = inl (
  p,
  found,
  at,
  ap (λ w. w.0) (walk_down level r va false out.1 v)
      ∙ ap (λ x. (walk_loop level x va false out.1).0) n
      ∙ again,
)

pub place_step :
    (level va : ℕ)
    → level < 2
    → ◌≡◌ {A = Option (ℕ × ℕ)}
        (some (level, prefix (suc level) va * 512 + px (suc level) va))
        (some (level, prefix level va))
place_step level va h = ap (λ m. some (level, m)) (prefix_step level va h)

pub walk_loop_lem :
    (level r va : ℕ) (s : Vm) (root : ℕ) (place : Place)
    → IsTree s root place
    → place r ≡ some (level, prefix level va)
    → Walked level r va s root place (walk_loop level r va true s)
unfolding walk_loop
walk_loop_lem zero r va s root place t h =
    (place, Extends-refl s root place t, inl (r, refl, h, refl))
walk_loop_lem (suc level) r va s root place t h =
    let j = px (suc level) va in
    let pre = prefix (suc level) va in
    let fits : level < 2 = (let low = t.low r (suc level) pre h in omega arith) in
    let step = place_step level va fits in
    elim (Bool-cases (is_valid (s.mem r j))) [
      | inl y ↦
          let next = pte2pa (s.mem r j) in
          let (later, ext, end) =
            walk_loop_lem level next va s root place (t)
              (t.child r j level pre h (px_lt (suc level) va) y ∙ step) in
          let same = ext.word r j (suc level) pre h y in
          subst (Walked (suc level) r va s root place) (sym (walk_down level r va true s y)) (
            later,
            ext,
            Ended_down level r next va later (walk_loop level next va true s) (ap is_valid same ∙ y)
                (ap pte2pa same) end,
          )
      | inr n ↦ elim (List-cases s.free) [
        | inl none_left ↦
            subst (Walked (suc level) r va s root place) (sym (walk_full level r va s n none_left))
              (place, Extends-refl s root place t, inr (refl, none_left))
        | inr (q, rest, left) ↦
            let more = link q r j rest s in
            let inside = px_lt (suc level) va in
            let there = placed s root place t r level pre j q rest h inside n left in
            let first : Extends s root place more there =
              grown-Extends s root place t r level pre j q rest h inside n left in
            let entry : more.mem r j ≡ pa2pte q + 1 =
              word_new s root place t r level pre j q rest h inside n left in
            let to = leads s root place t r level pre j q rest h inside n left in
            let at : there q ≡ some (level, pre * 512 + j) =
              placed_new s root place t r level pre j q rest h inside n left in
            let (later, ext, end) =
              walk_loop_lem level q va more root there first.tree (at ∙ step) in
            let valid = ap is_valid entry ∙ to.0 in
            let same = ext.word r j (suc level) pre (first.kept r (suc level) pre h) valid in
            subst (Walked (suc level) r va s root place) (sym (walk_new level r va q rest s n left))
              (
                later,
                Extends-trans first ext,
                Ended_down level r q va later (walk_loop level q va true more)
                    (ap is_valid same ∙ valid) (ap pte2pa same ∙ ap pte2pa entry ∙ to.1) end,
              )
      ]
    ]
