-- ===== src/Vm/Grow.antt =====
-- A new table's page changes no entry.
use operating_systems.Prelude.{
  ℕ, zero, suc, ◌+◌, ◌*◌, ◌%◌, ◌^◌, ◌<◌, ◌≡◌, refl, sym, ap, ap₂, ◌∙◌, subst, ◌≢◌, ◌⊎◌, inl, inr,
  true, false, ◌&&◌, Option, none, some, List, [], ◌∷◌, arith, ◌==◌, Bool-cases, update,
  update_self, update_ne, All, has,
}
use operating_systems.Kalloc.{pgsize}
use operating_systems.Vm.{Vm, is_valid, pte2pa, pa2pte, px, link}
use operating_systems.Vm.Tree.{
  Extends, Place, IsTree, lookup, px_lt, Distinct, set_word_self, set_word_ne,
}

apart_update :
    (place : Place) (q : ℕ) (v : Option (ℕ × ℕ)) (l : List ℕ)
    → has l q ≡ false
    → All (λ x. (place x ≡ none) × (x % pgsize ≡ 0) × (x < 2 ^ 64)) l
    → All (λ x. (update place q v x ≡ none) × (x % pgsize ≡ 0) × (x < 2 ^ 64)) l
apart_update place q v [] out all = all
apart_update place q v (x ∷ l) out all = (
  (update_ne place q v x (ground arith) ∙ all.0.0, all.0.1, all.0.2),
  apart_update place q v l (ground arith) all.1,
)

module _ (s : Vm) (root : ℕ) (place : Place) (t : IsTree s root place) (p level pre i q : ℕ)
    (rest : List ℕ) (at : place p ≡ some (suc level, pre)) (inside : i < 512)
    (gap : is_valid (s.mem p i) ≡ false) (free : s.free ≡ q ∷ rest) where
  abbrev pub grown : Vm
  grown = link q p i rest s

  fresh : (place q ≡ none) × (q % pgsize ≡ 0) × (q < 2 ^ 64)
  fresh =
      (subst (λ l. All (λ q. (place q ≡ none) × (q % pgsize ≡ 0) × (q < 2 ^ 64)) l) free t.apart).0

  placed_other : (r : ℕ) (l m : ℕ) → place r ≡ some (l, m) → q ≢ r
  placed_other r l m h e = (let clash = sym fresh.0 ∙ ap place e ∙ h in cc)

  -- A word of a page that is not new, and not the new entry.
  word_same : (r j : ℕ) → q ≢ r → (p ≢ r) ⊎ (i ≢ j) → grown.mem r j ≡ s.mem r j
  word_same r j ne apart =
      set_word_ne (update s.mem q (λ j. 0)) p i (pa2pte q + 1) r j apart
      ∙ ap (λ f. f j) (update_ne s.mem q (λ j. 0) r ne)

  pub word_new : grown.mem p i ≡ pa2pte q + 1
  word_new = set_word_self (update s.mem q (λ j. 0)) p i (pa2pte q + 1)

  word_zero : (j : ℕ) → grown.mem q j ≡ 0
  word_zero j =
      set_word_ne (update s.mem q (λ j. 0)) p i (pa2pte q + 1) q j
        (inl (λ e. placed_other p (suc level) pre at (sym e)))
      ∙ ap (λ f. f j) (update_self s.mem q (λ j. 0))

  pub leads : (is_valid (pa2pte q + 1) ≡ true) × (pte2pa (pa2pte q + 1) ≡ q)
  leads = (ground (arith, fresh.1), omega (arith, fresh.1, fresh.2))

  -- There is nothing under the new page.
  lookup_new : (l va : ℕ) → lookup grown.mem l q va ≡ 0
  unfolding lookup
  lookup_new zero va = word_zero (px 0 va)
  lookup_new (suc l) va =
      (let none_there : is_valid (grown.mem q (px (suc l) va)) ≡ false =
          ap is_valid (word_zero (px (suc l) va)) in
        rw none_there refl)

  lookup_same :
      (l r m va : ℕ) → place r ≡ some (l, m) → lookup grown.mem l r va ≡ lookup s.mem l r va
  unfolding lookup
  lookup_same zero r m va h =
      word_same r (px 0 va) (placed_other r 0 m h)
        (inl (λ e. (let clash = sym at ∙ ap place e ∙ h in cc)))
  lookup_same (suc l) r m va h =
      let j = px (suc l) va in
      let kept : grown.mem r j ≡ s.mem r j
          → lookup grown.mem (suc l) r va ≡ lookup s.mem (suc l) r va =
        λ same. elim (Bool-cases (is_valid (s.mem r j))) [
          | inl y ↦
              rw (same, y)
                (lookup_same l (pte2pa (s.mem r j)) (m * 512 + j) va
                  (t.child r j l m h (px_lt (suc l) va) y))
          | inr n ↦ rw (same, n) refl
        ] in
      elim (Bool-cases (p == r)) [
        | inr n ↦ kept (word_same r j (placed_other r (suc l) m h) (inl (ground arith)))
        | inl y ↦ elim (Bool-cases (i == j)) [
          | inr n ↦ kept (word_same r j (placed_other r (suc l) m h) (inr (ground arith)))
          | inl e ↦
              let here : p ≡ r = ground arith in
              let there : i ≡ j = ground arith in
              let closed : is_valid (s.mem r j) ≡ false =
                subst (λ z. is_valid (s.mem z j) ≡ false) here
                  (subst (λ z. is_valid (s.mem p z) ≡ false) there gap) in
              let now : grown.mem r j ≡ pa2pte q + 1 =
                subst (λ z. grown.mem z j ≡ pa2pte q + 1) here
                  (subst (λ z. grown.mem p z ≡ pa2pte q + 1) there word_new) in
              rw (closed, now, leads.0, leads.1) (lookup_new l va)
        ]
      ]

  abbrev pub placed : Place
  placed = update place q (some (level, pre * 512 + i))

  placed_old : (r : ℕ) → q ≢ r → placed r ≡ place r
  placed_old r ne = update_ne place q (some (level, pre * 512 + i)) r ne

  pub placed_new : placed q ≡ some (level, pre * 512 + i)
  placed_new = update_self place q (some (level, pre * 512 + i))

  -- A place that was there is there.
  placed_kept : (r l m : ℕ) → place r ≡ some (l, m) → placed r ≡ some (l, m)
  placed_kept r l m h = placed_old r (placed_other r l m h) ∙ h

  -- A place of the grown tree is the new page's or was there.
  placed_cases :
      (r l m : ℕ) → placed r ≡ some (l, m) → ((q ≡ r) × (l ≡ level)) ⊎ (place r ≡ some (l, m))
  placed_cases r l m h = elim (Bool-cases (q == r)) [
    | inl y ↦ inl (ground arith, (let same = sym placed_new ∙ ap placed (ground arith) ∙ h in cc))
    | inr n ↦ inr (sym (placed_old r (ground arith)) ∙ h)
  ]

  child_of :
      (r j l m : ℕ)
      → placed r ≡ some (suc l, m)
      → j < 512
      → is_valid (grown.mem r j) ≡ true
      → placed (pte2pa (grown.mem r j)) ≡ some (l, m * 512 + j)
  child_of r j l m h lt v =
      let kept : q ≢ r
          → (p ≢ r) ⊎ (i ≢ j)
          → placed (pte2pa (grown.mem r j)) ≡ some (l, m * 512 + j) =
        λ ne other.
          let same = word_same r j ne other in
          ap (λ w. placed (pte2pa w)) same
          ∙ placed_kept (pte2pa (s.mem r j)) l (m * 512 + j)
              (t.child r j l m (sym (placed_old r ne) ∙ h) lt (sym (ap is_valid same) ∙ v)) in
      elim (Bool-cases (q == r)) [
        | inl y ↦
            let here : q ≡ r = ground arith in
            let clash =
              sym (ap is_valid (word_zero j)) ∙ ap (λ z. is_valid (grown.mem z j)) here ∙ v in
            absurd cc
        | inr n ↦ elim (Bool-cases (p == r)) [
          | inr o ↦ kept (ground arith) (inl (ground arith))
          | inl y ↦ elim (Bool-cases (i == j)) [
            | inr o ↦ kept (ground arith) (inr (ground arith))
            | inl e ↦
                let here : p ≡ r = ground arith in
                let there : i ≡ j = ground arith in
                let now : grown.mem r j ≡ pa2pte q + 1 =
                  subst (λ z. grown.mem z j ≡ pa2pte q + 1) here
                    (subst (λ z. grown.mem p z ≡ pa2pte q + 1) there word_new) in
                let was = sym at ∙ ap place here ∙ sym (placed_old r (ground arith)) ∙ h in
                let level_same : level ≡ l = cc in
                let pre_same : pre ≡ m = cc in
                ap (λ w. placed (pte2pa w)) now
                ∙ ap placed leads.1
                ∙ placed_new
                ∙ ap₂ (λ a b. some (a, b * 512 + i)) level_same pre_same
                ∙ ap (λ c. some (l, m * 512 + c)) there
          ]
        ]
      ]

  once_q : (has rest q ≡ false) × Distinct rest
  once_q = subst Distinct free t.once

  grown-IsTree : IsTree grown root placed
  grown-IsTree = record {
    top = placed_kept root 2 0 t.top;
    child = child_of;
    low = λ r l m h. elim (placed_cases r l m h) [
      | inl (e, same) ↦ (let old = t.low p (suc level) pre at in omega arith)
      | inr old ↦ t.low r l m old
    ];
    apart =
        apart_update place q (some (level, pre * 512 + i)) rest once_q.0
          (subst (λ l. All (λ q. (place q ≡ none) × (q % pgsize ≡ 0) × (q < 2 ^ 64)) l) free
            t.apart).1;
    once = once_q.1;
  }

  -- A valid entry of a table above the lowest level stays.
  word_kept :
      (r j l m : ℕ)
      → place r ≡ some (l, m)
      → is_valid (s.mem r j) ≡ true
      → grown.mem r j ≡ s.mem r j
  word_kept r j l m h v = elim (Bool-cases (p == r && i == j)) [
    | inr n ↦ word_same r j (placed_other r l m h) (ground arith)
    | inl y ↦
        let here : p ≡ r = ground arith in
        let there : i ≡ j = ground arith in
        let clash = sym gap ∙ ap₂ (λ a b. is_valid (s.mem a b)) here there ∙ v in absurd cc
  ]

  pub grown-Extends : Extends s root place grown placed
  grown-Extends = record {
    tree = grown-IsTree;
    kept = placed_kept;
    same = λ l r m va h. lookup_same l r m va h;
    word = word_kept;
  }
