-- ===== src/Vm/Tree.antt =====
-- Page tables as trees: which pages of memory are tables, at which level and for which addresses.
use operating_systems.Prelude.{
  ℕ, zero, suc, ◌+◌, ◌*◌, ◌/◌, ◌%◌, ◌^◌, ◌≤◌, ◌<◌, ◌≡◌, refl, ap, ◌∙◌, ◌≢◌, ◌⊎◌, inl, inr, true,
  false, Option, none, some, List, [], ◌∷◌, arith, if◌then◌else◌, Bool-cases, update, update_self,
  All, has,
}
use operating_systems.Kalloc.{pgsize}
use operating_systems.Vm.{set_word, Vm, is_valid, pte2pa, px, walk_loop}

-- The part of an address above the index of a level.
abbrev pub prefix : ℕ → ℕ → ℕ
prefix zero va = va / 2 ^ 21
prefix (suc zero) va = va / 2 ^ 30
prefix (suc (suc level)) va = va / 2 ^ 39

pub prefix_step :
    (level va : ℕ) → level < 2 → prefix (suc level) va * 512 + px (suc level) va ≡ prefix level va
prefix_step zero va h = omega arith
prefix_step (suc zero) va h = omega arith
prefix_step (suc (suc level)) va h = absurd (omega arith)

pub px_lt : (level va : ℕ) → px level va < 512
px_lt zero va = omega arith
px_lt (suc zero) va = omega arith
px_lt (suc (suc level)) va = omega arith

-- The place of a table's page in the tree: its level, and the prefix of the addresses that it is for.
abbrev pub Place : Type 0
Place = ℕ → Option (ℕ × ℕ)

abbrev pub Distinct : List ℕ → Type 0
Distinct [] = Unit
Distinct (x ∷ l) = (has l x ≡ false) × Distinct l

-- Every valid entry of a table above the lowest level leads to the table for that part of its
-- addresses; no free page is a table.
pub record IsTree (s : Vm) (root : ℕ) (place : Place) : Type 0 where
  pub top : place root ≡ some (2, 0)
  pub child :
      (p i level pre : ℕ)
      → place p ≡ some (suc level, pre)
      → i < 512
      → is_valid (s.mem p i) ≡ true
      → place (pte2pa (s.mem p i)) ≡ some (level, pre * 512 + i)
  pub low : (p level pre : ℕ) → place p ≡ some (level, pre) → level ≤ 2
  pub apart : All (λ q. (place q ≡ none) × (q % pgsize ≡ 0) × (q < 2 ^ 64)) s.free
  pub once : Distinct s.free

-- The entry for an address, from a table at a level on, and 0 where there is no table for it.
unfoldable pub lookup : (ℕ → ℕ → ℕ) → ℕ → ℕ → ℕ → ℕ
lookup mem zero p va = mem p (px 0 va)
lookup mem (suc level) p va =
    let pte = mem p (px (suc level) va) in
    let down = lookup mem level (pte2pa pte) va in if is_valid pte then down else 0

-- The entry at a place, 0 at none.
abbrev pub word_at : (ℕ → ℕ → ℕ) → Option (ℕ × ℕ) → ℕ
word_at mem none = 0
word_at mem (some (p, i)) = mem p i

-- `walk` without `alloc` changes nothing and finds that entry.
pub walk_loop-lookup :
    (level p va : ℕ) (s : Vm)
    → ((walk_loop level p va false s).1 ≡ s)
      × (word_at s.mem (walk_loop level p va false s).0 ≡ lookup s.mem level p va)
unfolding walk_loop lookup
walk_loop-lookup zero p va s = (refl, refl)
walk_loop-lookup (suc level) p va s = elim (Bool-cases (is_valid (s.mem p (px (suc level) va)))) [
  | inl y ↦ rw y (walk_loop-lookup level (pte2pa (s.mem p (px (suc level) va))) va s)
  | inr n ↦ rw n (refl, refl)
]

-- One word is written.
pub set_word_self : (mem : ℕ → ℕ → ℕ) (p i w : ℕ) → set_word mem p i w p i ≡ w
set_word_self mem p i w = rw (update_self mem p (update (mem p) i w)) (update_self (mem p) i w)

pub set_word_ne :
    (mem : ℕ → ℕ → ℕ) (p i w r j : ℕ) → (p ≢ r) ⊎ (i ≢ j) → set_word mem p i w r j ≡ mem r j
set_word_ne mem p i w r j h = ground arith

-- A later state with more tables, where every entry is what it was.
pub record Extends (s : Vm) (root : ℕ) (place : Place) (t : Vm) (later : Place) : Type 0 where
  pub tree : IsTree t root later
  pub kept : (r l m : ℕ) → place r ≡ some (l, m) → later r ≡ some (l, m)
  pub same : (l r m va : ℕ) → place r ≡ some (l, m) → lookup t.mem l r va ≡ lookup s.mem l r va
  pub word :
      (r j l m : ℕ) → place r ≡ some (l, m) → is_valid (s.mem r j) ≡ true → t.mem r j ≡ s.mem r j

pub Extends-refl :
    (s : Vm) (root : ℕ) (place : Place) → IsTree s root place → Extends s root place s place
Extends-refl s root place t = record {
  tree = t;
  kept = λ r l m h. h;
  same = λ l r m va h. refl;
  word = λ r j l m h v. refl;
}

pub Extends-trans :
    {s t u : Vm} {root : ℕ} {place later last : Place}
    → Extends s root place t later
    → Extends t root later u last
    → Extends s root place u last
Extends-trans e f = record {
  tree = f.tree;
  kept = λ r l m h. f.kept r l m (e.kept r l m h);
  same = λ l r m va h. f.same l r m va (e.kept r l m h) ∙ e.same l r m va h;
  word = λ r j l m h v.
      f.word r j l m (e.kept r l m h) (ap is_valid (e.word r j l m h v) ∙ v) ∙ e.word r j l m h v;
}
