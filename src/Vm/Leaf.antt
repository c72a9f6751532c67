-- ===== src/Vm/Leaf.antt =====
-- An entry of the lowest level is written: it is the entry of the addresses of one page.
use operating_systems.Prelude.{
  ℕ, zero, suc, ◌+◌, ◌*◌, ◌/◌, ◌^◌, ◌<◌, ◌≡◌, refl, sym, ap, ap₂, ◌∙◌, ◌≢◌, ◌⊎◌, inl, inr, false,
  Option, none, some, arith, ◌==◌, if◌then◌else◌, Bool-cases,
}
use operating_systems.Vm.{Vm, is_valid, pte2pa, px, walk_loop, set_word}
use operating_systems.Vm.Tree.{
  Place, IsTree, lookup, px_lt, prefix, set_word_self, set_word_ne, walk_loop-lookup, word_at,
}
use operating_systems.Vm.Walk.{place_step}

walk_gap :
    (level r va : ℕ) (s : Vm)
    → is_valid (s.mem r (px (suc level) va)) ≡ false
    → walk_loop (suc level) r va false s ≡ (none, s)
unfolding walk_loop
walk_gap level r va s n = rw n refl

px_page : (level va va' : ℕ) → va / 2 ^ 12 ≡ va' / 2 ^ 12 → px level va ≡ px level va'
px_page zero va va' e = omega arith
px_page (suc zero) va va' e = omega arith
px_page (suc (suc level)) va va' e = omega arith

-- The walk is the same for all addresses of a page.
walk_page :
    (level r va va' : ℕ) (s : Vm)
    → va / 2 ^ 12 ≡ va' / 2 ^ 12
    → walk_loop level r va false s ≡ walk_loop level r va' false s
unfolding walk_loop
walk_page zero r va va' s e = ap (λ i. (some (r, i), s)) (px_page zero va va' e)
walk_page (suc level) r va va' s e =
    let i = px_page (suc level) va va' e in
    ap₂ (λ j (down : Option (ℕ × ℕ) × Vm). if is_valid (s.mem r j) then down else (none, s)) i
      (ap (λ j. walk_loop level (pte2pa (s.mem r j)) va false s) i
        ∙ walk_page level (pte2pa (s.mem r (px (suc level) va'))) va va' s e)

pub lookup_page :
    (r va va' : ℕ) (s : Vm)
    → va / 2 ^ 12 ≡ va' / 2 ^ 12
    → lookup s.mem 2 r va ≡ lookup s.mem 2 r va'
lookup_page r va va' s e =
    sym (walk_loop-lookup 2 r va s).1
    ∙ ap (λ x. word_at s.mem x.0) (walk_page 2 r va va' s e)
    ∙ (walk_loop-lookup 2 r va' s).1

-- Where the walk for an address ends.
pub walk_at :
    (level r va : ℕ) (s : Vm) (root : ℕ) (place : Place)
    → IsTree s root place
    → place r ≡ some (level, prefix level va)
    → ((walk_loop level r va false s).0 ≡ none)
      ⊎ ((p : ℕ) × ((walk_loop level r va false s).0 ≡ some (p, px 0 va))
          × (place p ≡ some (0, va / 2 ^ 21)))
unfolding walk_loop
walk_at zero r va s root place t h = inr (r, refl, h)
walk_at (suc level) r va s root place t h =
    let j = px (suc level) va in
    let pre = prefix (suc level) va in
    let fits : level < 2 = (let low = t.low r (suc level) pre h in omega arith) in
    elim (Bool-cases (is_valid (s.mem r j))) [
      | inl y ↦ rw y (
          walk_at level (pte2pa (s.mem r j)) va s root place t
            (t.child r j level pre h (px_lt (suc level) va) y ∙ place_step level va fits))
      | inr n ↦ inl (ap (λ w. w.0) (walk_gap level r va s n))
    ]

module _ (s : Vm) (root : ℕ) (place : Place) (t : IsTree s root place) (p pre i w : ℕ)
    (at : place p ≡ some (0, pre)) where
  abbrev pub written : Vm
  written = record s { mem = set_word s.mem p i w }

  upper : (r j level m : ℕ) → place r ≡ some (suc level, m) → written.mem r j ≡ s.mem r j
  upper r j level m h =
      set_word_ne s.mem p i w r j (inl (λ e. (let clash = sym at ∙ ap place e ∙ h in cc)))

  pub written-IsTree : IsTree written root place
  written-IsTree = record {
    top = t.top;
    child = λ r j l m h lt v.
        let same = upper r j l m h in
        ap (λ x. place (pte2pa x)) same ∙ t.child r j l m h lt (sym (ap is_valid same) ∙ v);
    low = t.low;
    apart = t.apart;
    once = t.once;
  }

  walk_written :
      (level r m va : ℕ)
      → place r ≡ some (level, m)
      → (walk_loop level r va false written).0 ≡ (walk_loop level r va false s).0
  unfolding walk_loop
  walk_written zero r m va h = refl
  walk_written (suc level) r m va h =
      let j = px (suc level) va in
      let same = upper r j level m h in
      elim (Bool-cases (is_valid (s.mem r j))) [
        | inl y ↦
            rw (same, y)
              (walk_written level (pte2pa (s.mem r j)) (m * 512 + j) va
                (t.child r j level m h (px_lt (suc level) va) y))
        | inr n ↦ rw (same, n) refl
      ]

  lookup_written :
      (level r m va : ℕ)
      → place r ≡ some (level, m)
      → lookup written.mem level r va ≡ word_at written.mem (walk_loop level r va false s).0
  lookup_written level r m va h =
      sym (walk_loop-lookup level r va written).1
      ∙ ap (word_at written.mem) (walk_written level r m va h)

  -- The addresses of the page that the entry is for, and the others.
  pub lookup_hit :
      (va va' : ℕ)
      → (walk_loop 2 root va false s).0 ≡ some (p, i)
      → va / 2 ^ 12 ≡ va' / 2 ^ 12
      → lookup written.mem 2 root va' ≡ w
  lookup_hit va va' found e =
      lookup_written 2 root 0 va' t.top
      ∙ ap (λ x. word_at written.mem x.0) (sym (walk_page 2 root va va' s e))
      ∙ ap (word_at written.mem) found
      ∙ set_word_self s.mem p i w

  entry_apart :
      (r va va' : ℕ)
      → place r ≡ some (0, va' / 2 ^ 21)
      → pre ≡ va / 2 ^ 21
      → i ≡ px 0 va
      → va / 2 ^ 12 ≢ va' / 2 ^ 12
      → (p ≢ r) ⊎ (i ≢ px 0 va')
  entry_apart r va va' there pe ie ne = elim (Bool-cases (p == r)) [
    | inr n ↦ inl (ground arith)
    | inl y ↦
        let here : p ≡ r = ground arith in
        let both = sym at ∙ ap place here ∙ there in
        let same : pre ≡ va' / 2 ^ 21 = cc in inr (λ e. absurd (ne (omega arith)))
  ]

  pub lookup_miss :
      (va va' : ℕ)
      → pre ≡ va / 2 ^ 21
      → i ≡ px 0 va
      → va' < 2 ^ 39
      → va / 2 ^ 12 ≢ va' / 2 ^ 12
      → lookup written.mem 2 root va' ≡ lookup s.mem 2 root va'
  lookup_miss va va' pe ie small ne =
      let was = (walk_loop-lookup 2 root va' s).1 in
      let now = lookup_written 2 root 0 va' t.top in
      elim (walk_at 2 root va' s root place t (t.top ∙ ap (λ m. some (2, m)) (omega arith))) [
        | inl e ↦ now ∙ ap (word_at written.mem) e ∙ sym (ap (word_at s.mem) e) ∙ was
        | inr (r, e, there) ↦
            now
            ∙ ap (word_at written.mem) e
            ∙ set_word_ne s.mem p i w r (px 0 va') (entry_apart r va va' there pe ie ne)
            ∙ sym (ap (word_at s.mem) e)
            ∙ was
      ]
