-- ===== src/Vm/Map.antt =====
-- What `mappages` does to the entries of the addresses.
use operating_systems.Prelude.{
  ℕ, suc, ◌+◌, ◌-◌, ◌*◌, ◌/◌, ◌%◌, ◌^◌, ◌<◌, ◌≡◌, refl, sym, ap, ◌∙◌, ◌≢◌, inl, inr, Bool, true,
  false, ◌&&◌, some, arith, ltb, leb, ◌==◌, if◌then◌else◌, Bool-cases,
}
use operating_systems.Vm.{pgsize, Vm, leaf_pte, is_valid, px, walk_loop, set_word}
use operating_systems.Vm.Tree.{Place, IsTree, lookup, Extends, walk_loop-lookup, word_at}
use operating_systems.Vm.Leaf.{lookup_page, written-IsTree, lookup_hit, lookup_miss}

-- The address is in one of the `n` pages from `a` on.
abbrev pub in_pages : ℕ → ℕ → ℕ → Bool
in_pages a n va = leb (a / pgsize) (va / pgsize) && ltb (va / pgsize) (a / pgsize + n)

-- The entry of a page, as the bits of its address, the permissions and the valid bit, which is the
-- lowest.
abbrev pub page_entry : ℕ → ℕ → ℕ
page_entry pa perm = pa / 2 ^ 12 * 2 ^ 10 + (perm - perm % 2) + 1

leaf_pte-page_entry : (pa perm : ℕ) → leaf_pte pa perm ≡ page_entry pa perm
leaf_pte-page_entry pa perm = omega arith

-- The entry of an address after `n` pages from `a` on are mapped to the pages from `pa` on.
abbrev pub entry_after : Vm → ℕ → ℕ → ℕ → ℕ → ℕ → ℕ → ℕ
entry_after s root a n pa perm va =
    if in_pages a n va
    then page_entry (pa + (va / pgsize - a / pgsize) * pgsize) perm
    else lookup s.mem 2 root va

-- From `s` to `t`, the `n` pages from `a` on, which had no mapping, are mapped, and no other.
pub record Maps (s : Vm) (root a n pa perm : ℕ) (t : Vm) : Type 0 where
  pub places : Place
  pub tree : IsTree t root places
  pub entries : (va : ℕ) → va < 2 ^ 39 → lookup t.mem 2 root va ≡ entry_after s root a n pa perm va
  pub unmapped :
      (va : ℕ) → va < 2 ^ 39 → in_pages a n va ≡ true → is_valid (lookup s.mem 2 root va) ≡ false

-- The first of the pages, and the others.
pub in_pages_first :
    (a n va : ℕ)
    → a / pgsize ≡ va / pgsize
    → (in_pages a 1 va ≡ true)
      × (in_pages a (suc n) va ≡ true)
      × (in_pages (a + pgsize) n va ≡ false)
in_pages_first a n va e = (ground arith, ground arith, ground arith)

pub in_pages_rest :
    (a n va : ℕ)
    → a / pgsize ≢ va / pgsize
    → (in_pages a 1 va ≡ false) × (in_pages a (suc n) va ≡ in_pages (a + pgsize) n va)
in_pages_rest a n va e = (ground arith, ground arith)

in_pages_none : (a va : ℕ) → in_pages a 0 va ≡ false
in_pages_none a va = ground arith

in_pages_one : (a va : ℕ) → in_pages a 1 va ≡ true → a / pgsize ≡ va / pgsize
in_pages_one a va h = ground arith

hit_entry :
    (s : Vm) (root a pa perm va : ℕ)
    → a / pgsize ≡ va / pgsize
    → leaf_pte pa perm ≡ entry_after s root a 1 pa perm va
hit_entry s root a pa perm va e =
    leaf_pte-page_entry pa perm
    ∙ rw ((in_pages_first a 0 va e).0, sym e) (ap (λ x. page_entry x perm) (omega arith))

pub in_pages_after : (a n va : ℕ) → in_pages (a + pgsize) n va ≡ true → a / pgsize < va / pgsize
in_pages_after a n va h = ground arith

entry_next :
    (s t : Vm) (root a n pa perm va : ℕ)
    → lookup t.mem 2 root va ≡ entry_after s root a 1 pa perm va
    → entry_after t root (a + pgsize) n (pa + pgsize) perm va
      ≡ entry_after s root a (suc n) pa perm va
entry_next s t root a n pa perm va one = elim (Bool-cases (a / pgsize == va / pgsize)) [
  | inl y ↦ let (i, j, k) = in_pages_first a n va (ground arith) in rw (k, j, one, i) refl
  | inr o ↦
      let (i, j) = in_pages_rest a n va (ground arith) in
      elim (Bool-cases (in_pages (a + pgsize) n va)) [
        | inl y ↦
            let far = in_pages_after a n va y in
            rw (j, y) (ap (λ x. page_entry x perm) (omega arith))
        | inr m ↦ rw (j, m, one, i) refl
      ]
]

pub Maps-other :
    {s t : Vm} (root a pa perm va : ℕ)
    → Maps s root a 1 pa perm t
    → va < 2 ^ 39
    → a / pgsize ≢ va / pgsize
    → lookup t.mem 2 root va ≡ lookup s.mem 2 root va
Maps-other root a pa perm va f h ne = f.entries va h ∙ rw (in_pages_rest a 0 va ne).0 refl

pub Maps-add :
    {s t u : Vm} (root a n pa perm : ℕ)
    → Maps s root a 1 pa perm t
    → Maps t root (a + pgsize) n (pa + pgsize) perm u
    → Maps s root a (suc n) pa perm u
Maps-add {s} {t} root a n pa perm f g = record {
  places = g.places;
  tree = g.tree;
  entries = λ va h. g.entries va h ∙ entry_next s t root a n pa perm va (f.entries va h);
  unmapped = λ va h i. elim (Bool-cases (a / pgsize == va / pgsize)) [
    | inl y ↦ f.unmapped va h (in_pages_first a n va (ground arith)).0
    | inr o ↦
        let (p, q) = in_pages_rest a n va (ground arith) in
        let out = Maps-other root a pa perm va f h (ground arith) in
        sym (ap is_valid out) ∙ g.unmapped va h (sym q ∙ i)
  ];
}

-- No page is mapped.
pub Maps-none :
    (s : Vm) (root a pa perm : ℕ) (t : Vm) (place later : Place)
    → IsTree s root place
    → Extends s root place t later
    → Maps s root a 0 pa perm t
Maps-none s root a pa perm t place later tree e = record {
  places = later;
  tree = e.tree;
  entries = λ va h. e.same 2 root 0 va tree.top ∙ rw (in_pages_none a va) refl;
  unmapped = λ va h i. absurd (let no = in_pages_none a va in cc);
}

pub entry_found :
    (root a p : ℕ) (t : Vm)
    → (walk_loop 2 root a false t).0 ≡ some (p, px 0 a)
    → lookup t.mem 2 root a ≡ t.mem p (px 0 a)
entry_found root a p t found = sym (walk_loop-lookup 2 root a t).1 ∙ ap (word_at t.mem) found

-- The entry that a walk found is written.
pub Maps-one :
    (s : Vm) (root a pa perm p : ℕ) (t : Vm) (place later : Place)
    → IsTree s root place
    → Extends s root place t later
    → a < 2 ^ 39
    → later p ≡ some (0, a / 2 ^ 21)
    → (walk_loop 2 root a false t).0 ≡ some (p, px 0 a)
    → is_valid (t.mem p (px 0 a)) ≡ false
    → Maps s root a 1 pa perm (record t { mem = set_word t.mem p (px 0 a) (leaf_pte pa perm) })
Maps-one s root a pa perm p t place later tree e small at found gap =
    let w = leaf_pte pa perm in
    let same : (va : ℕ) → lookup t.mem 2 root va ≡ lookup s.mem 2 root va =
      λ va. e.same 2 root 0 va tree.top in
    let entry = entry_found root a p t found in
    record {
      places = later;
      tree = written-IsTree t root later e.tree p (a / 2 ^ 21) (px 0 a) w at;
      entries = λ va h. elim (Bool-cases (a / pgsize == va / pgsize)) [
        | inl y ↦
            lookup_hit t root later e.tree p (a / 2 ^ 21) (px 0 a) w at a va found (ground arith)
            ∙ hit_entry s root a pa perm va (ground arith)
        | inr n ↦
            lookup_miss t root later e.tree p (a / 2 ^ 21) (px 0 a) w at a va refl refl h
              (ground arith)
            ∙ same va
            ∙ rw (in_pages_rest a 0 va (ground arith)).0 refl
      ];
      unmapped = λ va h i.
          ap is_valid (sym (same va) ∙ sym (lookup_page root a va t (in_pages_one a va i)) ∙ entry)
          ∙ gap;
    }
