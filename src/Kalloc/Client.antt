-- ===== src/Kalloc/Client.antt =====
-- The allocator and those who hold its pages.
use operating_systems.Prelude.{
  ℕ, zero, suc, ◌<◌, ◌≡◌, refl, sym, ap, ◌∙◌, subst, ◌≢◌, inl, inr, true, false, some, List, [],
  ◌∷◌, arith, get_elem?, All, All-map, has,
}
use operating_systems.Kalloc.{Kmem, kalloc, kfree}
use operating_systems.Kalloc.Free.{Chain, IsAligned, Distinct, kalloc_lem, IsPage, kfree_lem}

-- The pages that have been handed out and not given back.
pub record Held : Type 0 where
  pub kmem : Kmem
  pub held : List ℕ

pub remove : List ℕ → ℕ → List ℕ
remove [] i = []
remove (x ∷ xs) zero = xs
remove (x ∷ xs) (suc i) = x ∷ remove xs i

-- A holder gives back only pages that are held, each once.
pub data Step (kernel_end phystop : ℕ) (s : Held) : Held → Type 0 where
  takes :
      {x : ℕ} {t : Kmem}
      → kalloc s.kmem ≡ (x, t)
      → x ≢ 0
      → Step kernel_end phystop s (record { kmem = t; held = x ∷ s.held })
  finds_none :
      {t : Kmem}
      → kalloc s.kmem ≡ (0, t)
      → Step kernel_end phystop s (record { kmem = t; held = s.held })
  gives :
      {t : Kmem} (i pa : ℕ)
      → get_elem? s.held i ≡ some pa
      → kfree kernel_end phystop pa s.kmem ≡ some t
      → Step kernel_end phystop s (record { kmem = t; held = remove s.held i })

pub data Reach (kernel_end phystop : ℕ) (s : Held) : Held → Type 0 where
  here : Reach kernel_end phystop s s
  later :
      {t u : Held}
      → Reach kernel_end phystop s t
      → Step kernel_end phystop t u
      → Reach kernel_end phystop s u

abbrev Misses : List ℕ → List ℕ → Type 0
Misses held l = All (λ y. has held y ≡ false) l

-- The free pages are `l`; no page is free twice, held twice, or both.
pub record IsValid (kernel_end phystop : ℕ) (s : Held) (l : List ℕ) : Type 0 where
  pub chain : Chain s.kmem.word s.kmem.freelist l
  pub free_once : Distinct l
  pub held_once : Distinct s.held
  pub apart : All (λ y. has s.held y ≡ false) l
  pub free_pages : All (IsPage kernel_end phystop) l
  pub held_pages : All (IsPage kernel_end phystop) s.held

has-get : (xs : List ℕ) (i p : ℕ) → get_elem? xs i ≡ some p → has xs p ≡ true
has-get [] i p e = cc
has-get (x ∷ xs) zero p e = ground arith
has-get (x ∷ xs) (suc i) p e = ground (arith, has-get xs i p e)

Misses-one : (held l : List ℕ) (p : ℕ) → Misses held l → has held p ≡ true → has l p ≡ false
Misses-one held [] p m h = refl
Misses-one held (y ∷ l) p m h = ground (arith, m.0, Misses-one held l p m.1 h)

Misses-cons : (held l : List ℕ) (x : ℕ) → Misses held l → has l x ≡ false → Misses (x ∷ held) l
Misses-cons held [] x m n = tt
Misses-cons held (y ∷ l) x m n = (ground (arith, m.0), Misses-cons held l x m.1 (ground arith))

has-remove : (xs : List ℕ) (i y : ℕ) → has xs y ≡ false → has (remove xs i) y ≡ false
unfolding remove
has-remove [] i y h = refl
has-remove (x ∷ xs) zero y h = ground arith
has-remove (x ∷ xs) (suc i) y h = ground (arith, has-remove xs i y)

Misses-remove : (held l : List ℕ) (i : ℕ) → Misses held l → Misses (remove held i) l
Misses-remove held [] i m = tt
Misses-remove held (y ∷ l) i m = (has-remove held i y m.0, Misses-remove held l i m.1)

Distinct-remove : (xs : List ℕ) (i : ℕ) → Distinct xs → Distinct (remove xs i)
unfolding remove
Distinct-remove [] i d = tt
Distinct-remove (x ∷ xs) zero d = d.1
Distinct-remove (x ∷ xs) (suc i) d = (has-remove xs i x d.0, Distinct-remove xs i d.1)

has-remove_self :
    (xs : List ℕ) (i p : ℕ) → Distinct xs → get_elem? xs i ≡ some p → has (remove xs i) p ≡ false
unfolding remove
has-remove_self [] i p d e = refl
has-remove_self (x ∷ xs) zero p d e = ground (arith, d.0)
has-remove_self (x ∷ xs) (suc i) p d e =
    ground (arith, d.0, has-get xs i p e, has-remove_self xs i p d.1 e)

module _ (kernel_end phystop : ℕ) (positive : 0 < kernel_end) where
  All-remove :
      (xs : List ℕ) (i : ℕ)
      → All (IsPage kernel_end phystop) xs
      → All (IsPage kernel_end phystop) (remove xs i)
  unfolding remove
  All-remove [] i h = tt
  All-remove (x ∷ xs) zero h = h.1
  All-remove (x ∷ xs) (suc i) h = (h.0, All-remove xs i h.1)

  All-get :
      (xs : List ℕ) (i p : ℕ)
      → All (IsPage kernel_end phystop) xs
      → get_elem? xs i ≡ some p
      → IsPage kernel_end phystop p
  All-get [] i p h e = absurd cc
  All-get (x ∷ xs) zero p h e = subst (IsPage kernel_end phystop) (ground arith) h.0
  All-get (x ∷ xs) (suc i) p h e = All-get xs i p h.1 e

  aligned : (l : List ℕ) → All (IsPage kernel_end phystop) l → All IsAligned l
  aligned l h = All-map (λ x p. p.0) l h

  taken :
      (s : Held) (x : ℕ) (rest : List ℕ) (t : Kmem)
      → IsValid kernel_end phystop s (x ∷ rest)
      → Chain t.word t.freelist rest
      → IsValid kernel_end phystop (record { kmem = t; held = x ∷ s.held }) rest
  taken s x rest t v chain = record {
    chain = chain;
    free_once = v.free_once.1;
    held_once = (v.apart.0, v.held_once);
    apart = Misses-cons s.held rest x v.apart.1 v.free_once.0;
    free_pages = v.free_pages.1;
    held_pages = (v.free_pages.0, v.held_pages);
  }

  takes-IsValid :
      (s : Held) (l : List ℕ) (x : ℕ) (t : Kmem)
      → kalloc s.kmem ≡ (x, t)
      → x ≢ 0
      → IsValid kernel_end phystop s l
      → (rest : List ℕ) × (l ≡ x ∷ rest)
        × IsValid kernel_end phystop (record { kmem = t; held = x ∷ s.held }) rest
  takes-IsValid s l x t e ne v =
      elim (kalloc_lem s.kmem l v.chain (aligned l v.free_pages) v.free_once) [
        | inl (nil, none_left) ↦ absurd (ne (ap (λ (r : ℕ × Kmem). r.0) (sym e ∙ none_left)))
        | inr (y, rest, split, first, nz, chain) ↦
            let same : l ≡ x ∷ rest =
              split ∙ ap (λ z. z ∷ rest) (sym first ∙ ap (λ (r : ℕ × Kmem). r.0) e) in
            (
              rest,
              same,
              taken s x rest t (subst (λ m. IsValid kernel_end phystop s m) same v)
                  (subst (λ (r : ℕ × Kmem). Chain r.1.word r.1.freelist rest) e chain),
            )
      ]

  gives-IsValid :
      (s : Held) (l : List ℕ) (i pa : ℕ) (t : Kmem)
      → get_elem? s.held i ≡ some pa
      → IsValid kernel_end phystop s l
      → IsPage kernel_end phystop pa
      → Chain t.word t.freelist (pa ∷ l)
      → IsValid kernel_end phystop (record { kmem = t; held = remove s.held i }) (pa ∷ l)
  gives-IsValid s l i pa t at v page chain = record {
    chain = chain;
    free_once = (Misses-one s.held l pa v.apart (has-get s.held i pa at), v.free_once);
    held_once = Distinct-remove s.held i v.held_once;
    apart = (has-remove_self s.held i pa v.held_once at, Misses-remove s.held l i v.apart);
    free_pages = (page, v.free_pages);
    held_pages = All-remove s.held i v.held_pages;
  }

  freed :
      (s : Held) (l : List ℕ) (i pa : ℕ)
      → get_elem? s.held i ≡ some pa
      → IsValid kernel_end phystop s l
      → (t : Kmem) × (kfree kernel_end phystop pa s.kmem ≡ some t)
        × IsPage kernel_end phystop pa
        × Chain t.word t.freelist (pa ∷ l)
  freed s l i pa at v =
      elim (kfree_lem kernel_end phystop pa s.kmem l positive v.chain (aligned l v.free_pages)
        (Misses-one s.held l pa v.apart (has-get s.held i pa at))) [
          | inl (e, bad) ↦ absurd (bad (All-get s.held i pa v.held_pages at))
          | inr ok ↦ ok
        ]

  Step-IsValid :
      {s t : Held} (l : List ℕ)
      → Step kernel_end phystop s t
      → IsValid kernel_end phystop s l
      → (l' : List ℕ) × IsValid kernel_end phystop t l'
  Step-IsValid {s} l (takes {x} {t} e ne) v = let r = takes-IsValid s l x t e ne v in (r.0, r.2)
  Step-IsValid {s} l (finds_none {t} e) v =
      elim (kalloc_lem s.kmem l v.chain (aligned l v.free_pages) v.free_once) [
        | inl (nil, none_left) ↦ (
          l,
          record {
            chain =
                subst (λ (m : Kmem). Chain m.word m.freelist l)
                  (ap (λ (r : ℕ × Kmem). r.1) (sym none_left ∙ e)) v.chain;
            free_once = v.free_once;
            held_once = v.held_once;
            apart = v.apart;
            free_pages = v.free_pages;
            held_pages = v.held_pages;
          },
        )
        | inr (y, rest, split, first, nz, chain) ↦
            absurd (nz (sym first ∙ ap (λ (r : ℕ × Kmem). r.0) e))
      ]
  Step-IsValid {s} l (gives {t} i pa at e) v =
      let f = freed s l i pa at v in
      let same : f.0 ≡ t = ground arith in
      (
        pa ∷ l,
        gives-IsValid s l i pa t at v f.2
            (subst (λ (m : Kmem). Chain m.word m.freelist (pa ∷ l)) same f.3),
      )

  Reach-IsValid :
      {s t : Held} (l : List ℕ)
      → Reach kernel_end phystop s t
      → IsValid kernel_end phystop s l
      → (l' : List ℕ) × IsValid kernel_end phystop t l'
  Reach-IsValid l here v = (l, v)
  Reach-IsValid l (later r step) v =
      let before = Reach-IsValid l r v in Step-IsValid before.0 step before.1

  -- However calls of `kalloc` and `kfree` follow each other, from a valid state and with each held
  -- page given back at most once: no page is handed out twice, every page handed out is a page of
  -- the range, `kfree` does not panic at one, and the next `kalloc` gives none that is held.
  pub held_pages_exclusive :
      {s t : Held} (l : List ℕ)
      → IsValid kernel_end phystop s l
      → Reach kernel_end phystop s t
      → Distinct t.held
        × All (IsPage kernel_end phystop) t.held
        × ((i pa : ℕ)
            → get_elem? t.held i ≡ some pa
            → (u : Kmem) × (kfree kernel_end phystop pa t.kmem ≡ some u))
        × ((x : ℕ) (u : Kmem) → kalloc t.kmem ≡ (x, u) → x ≢ 0 → has t.held x ≡ false)
  held_pages_exclusive {s} {t} l v r =
      let (l', w) = Reach-IsValid l r v in
      (
        w.held_once,
        w.held_pages,
        λ i pa at. let f = freed t l' i pa at w in (f.0, f.1),
        λ x u e ne. (takes-IsValid t l' x u e ne w).2.held_once.0,
      )
