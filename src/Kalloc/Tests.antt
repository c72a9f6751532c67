-- ===== src/Kalloc/Tests.antt =====
-- Runs of the allocator on a range of three pages.
use operating_systems.Prelude.{
  ℕ, ◌≡◌, refl, ◌≢◌, ◌⊎◌, false, none, some, List, [], ◌∷◌, arith, get_elem?, All, has,
}
use operating_systems.Kalloc.{Kmem, kalloc, kfree}
use operating_systems.Kalloc.Free.{Distinct, Chain, IsPage, kfree_lem}
use operating_systems.Kalloc.Client.{IsValid, Held, takes, here, later, held_pages_exclusive}

abbrev one_page : Kmem
one_page = record { word = λ a. 0; freelist = 8192 }

abbrev pages : List ℕ
pages = 8192 ∷ []

abbrev GoalKalloc : Type 0
GoalKalloc =
    ((pages ≡ []) × (kalloc one_page ≡ (0, one_page)))
    ⊎ ((x : ℕ) × (rest : List ℕ) × (pages ≡ x ∷ rest)
        × ((kalloc one_page).0 ≡ x)
        × (x ≢ 0)
        × Chain (kalloc one_page).1.word (kalloc one_page).1.freelist rest)

kfree_lem_example :
    ((kfree 4096 20480 12288 one_page ≡ none) × ¬ (IsPage 4096 20480 12288))
    ⊎ ((t : Kmem) × (kfree 4096 20480 12288 one_page ≡ some t)
        × IsPage 4096 20480 12288
        × Chain t.word t.freelist (12288 ∷ 8192 ∷ []))
kfree_lem_example =
    kfree_lem 4096 20480 12288 one_page (8192 ∷ []) (omega arith) (refl, omega arith, refl)
      (refl, tt) refl

abbrev fresh : Held
fresh = record { kmem = one_page; held = [] }

abbrev after : Held
after = record { kmem = (kalloc one_page).1; held = 8192 ∷ [] }

fresh-IsValid : IsValid 4096 20480 fresh (8192 ∷ [])
fresh-IsValid = record {
  chain = (refl, omega arith, refl);
  free_once = (refl, tt);
  held_once = tt;
  apart = (refl, tt);
  free_pages = ((refl, omega arith, omega arith), tt);
  held_pages = tt;
}

kalloc_first : kalloc one_page ≡ (8192, (kalloc one_page).1)
unfolding kalloc
kalloc_first = refl

held_pages_exclusive_example :
    Distinct after.held
    × All (IsPage 4096 20480) after.held
    × ((i pa : ℕ)
        → get_elem? after.held i ≡ some pa
        → (u : Kmem) × (kfree 4096 20480 pa after.kmem ≡ some u))
    × ((x : ℕ) (u : Kmem) → kalloc after.kmem ≡ (x, u) → x ≢ 0 → has after.held x ≡ false)
held_pages_exclusive_example =
    held_pages_exclusive 4096 20480 (omega arith) (8192 ∷ []) fresh-IsValid
      (later here (takes (kalloc_first) (omega arith)))
