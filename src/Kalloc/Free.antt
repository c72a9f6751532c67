-- ===== src/Kalloc/Free.antt =====
-- The free list: which pages it holds, and what `kalloc` and `kfree` do to it.
use operating_systems.Prelude.{
  ℕ, ◌+◌, ◌%◌, ◌≤◌, ◌<◌, ◌≡◌, refl, ◌≢◌, ◌⊎◌, inl, inr, false, ◌||◌, not, none, some, List, [], ◌∷◌,
  arith, ltb, leb, ◌==◌, Bool-cases, update, update_self, All, has,
}
use native.Mathlib.Decide.{dec_lt}
use operating_systems.Kalloc.{pgsize, Kmem, fill, kalloc, kfree}

-- From `p` on, the words lead through the pages `l` to the null pointer.
abbrev pub Chain : (ℕ → ℕ) → ℕ → List ℕ → Type 0
Chain word p [] = p ≡ 0
Chain word p (x ∷ l) = (p ≡ x) × (x ≢ 0) × Chain word (word x) l

abbrev pub IsAligned : ℕ → Type 0
IsAligned x = x % pgsize ≡ 0

abbrev pub Distinct : List ℕ → Type 0
Distinct [] = Unit
Distinct (x ∷ l) = (has l x ≡ false) × Distinct l

split : (x y : ℕ) → IsAligned x → IsAligned y → x ≢ y → (y < x) ⊎ (x + pgsize ≤ y)
split x y ax ay ne = elim (dec_lt y x) [ yes h ↦ inl h | no h ↦ inr (omega arith) ]

-- A write to page `x` leaves the chain through other pages alone.
Chain-fill :
    (word word' : ℕ → ℕ) (x : ℕ) (p : ℕ) (l : List ℕ)
    → ((a : ℕ) → (a < x) ⊎ (x + pgsize ≤ a) → word' a ≡ word a)
    → IsAligned x
    → All IsAligned l
    → has l x ≡ false
    → Chain word p l
    → Chain word' p l
Chain-fill word word' x p [] same ax al n c = c
Chain-fill word word' x p (y ∷ l) same ax al n c =
    let apart = split x y ax al.0 (ground arith) in
    (
      c.0,
      c.1,
      rw (same y apart) (Chain-fill word word' x (word y) l same ax al.1 (ground arith) c.2),
    )

fill_outside :
    (pa c : ℕ) (word : ℕ → ℕ) (a : ℕ) → (a < pa) ⊎ (pa + pgsize ≤ a) → fill pa c word a ≡ word a
unfolding fill
fill_outside pa c word a out = ground arith

kalloc-nil : (s : Kmem) → s.freelist ≡ 0 → kalloc s ≡ (0, s)
unfolding kalloc
kalloc-nil s e = ground arith

kalloc-cons :
    (s : Kmem) (x : ℕ)
    → s.freelist ≡ x
    → x ≢ 0
    → kalloc s ≡ (x, record { word = fill x 5 s.word; freelist = s.word x })
unfolding kalloc
kalloc-cons s x e ne = rw e (ground arith)

-- `kalloc` takes the first page of the free list, and returns the null pointer exactly when there is
-- none. The rest of the list is as it was, though the page is filled with junk.
pub kalloc_lem :
    (s : Kmem) (l : List ℕ)
    → Chain s.word s.freelist l
    → All IsAligned l
    → Distinct l
    → ((l ≡ []) × (kalloc s ≡ (0, s)))
      ⊎ ((x : ℕ) × (rest : List ℕ) × (l ≡ x ∷ rest)
          × ((kalloc s).0 ≡ x)
          × (x ≢ 0)
          × Chain (kalloc s).1.word (kalloc s).1.freelist rest)
kalloc_lem s [] c al d = inl (refl, kalloc-nil s c)
kalloc_lem s (x ∷ l) c al d =
    let step = kalloc-cons s x c.0 c.1 in
    inr (
      x,
      l,
      refl,
      rw step refl,
      c.1,
      rw step (
          Chain-fill s.word (fill x 5 s.word) x (s.word x) l (fill_outside x 5 s.word) al.0 al.1 d.0
            c.2),
    )

module _ (kernel_end phystop : ℕ) where
  -- A page that `kfree` takes.
  abbrev pub IsPage : ℕ → Type 0
  IsPage pa = IsAligned pa × (kernel_end ≤ pa) × (pa < phystop)

  -- `kfree` of an address that is not on the free list already puts it at the front of the list and
  -- keeps the rest, if it is a page, and panics if not.
  pub kfree_lem :
      (pa : ℕ) (s : Kmem) (l : List ℕ)
      → 0 < kernel_end
      → Chain s.word s.freelist l
      → All IsAligned l
      → has l pa ≡ false
      → ((kfree kernel_end phystop pa s ≡ none) × ¬ (IsPage pa))
        ⊎ ((t : Kmem) × (kfree kernel_end phystop pa s ≡ some t)
            × IsPage pa
            × Chain t.word t.freelist (pa ∷ l))
  unfolding kfree
  kfree_lem pa s l e c al n =
      elim (Bool-cases (not (pa % pgsize == 0) || ltb pa kernel_end || leb phystop pa)) [
        | inl bad ↦ inl (rw bad refl, λ p. ground arith)
        | inr good ↦
            let page : IsPage pa = ground arith in
            inr (
              record { word = update (fill pa 1 s.word) pa s.freelist; freelist = pa },
              rw good refl,
              page,
              (
                refl,
                omega arith,
                rw (update_self (fill pa 1 s.word) pa s.freelist) (
                    Chain-fill s.word (update (fill pa 1 s.word) pa s.freelist) pa s.freelist l
                      (λ a out. ground (arith, fill_outside pa 1 s.word a)) page.0 al n c),
              ),
            )
      ]
