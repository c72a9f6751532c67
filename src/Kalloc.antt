-- ===== src/Kalloc.antt =====
-- kernel/kalloc.c: the allocator of physical pages.
-- `word a` is the 64-bit word at address `a`; a free page's first word is its `next`, and the null
-- pointer is 0. The lock makes each call one step. `kernel_end` is the linker's `end`, and `phystop`
-- is PHYSTOP of kernel/memlayout.h.
pub mod Free
pub mod Client
mod Tests
use operating_systems.Prelude.{
  ℕ, zero, suc, ◌+◌, ◌-◌, ◌*◌, ◌/◌, ◌%◌, ◌&&◌, ◌||◌, not, Option, none, some, ltb, leb, ◌==◌,
  if◌then◌else◌, update,
}

abbrev pub pgsize : ℕ
pgsize = 4096

pub record Kmem : Type 0 where
  pub word : ℕ → ℕ
  pub freelist : ℕ

-- `memset(pa, c, PGSIZE)`, a word at a time: eight bytes `c`
unfoldable pub fill : ℕ → ℕ → (ℕ → ℕ) → ℕ → ℕ
fill pa c word a = if leb pa a && ltb a (pa + pgsize) then c * 0x0101010101010101 else word a

-- A null pointer is returned where the list is empty.
unfoldable pub kalloc : Kmem → ℕ × Kmem
kalloc s =
    if s.freelist == 0
    then (0, s)
    else (s.freelist, record { word = fill s.freelist 5 s.word; freelist = s.word s.freelist })

abbrev pub pgroundup : ℕ → ℕ
pgroundup sz = (sz + pgsize - 1) / pgsize * pgsize

module _ (kernel_end phystop : ℕ) where
  -- `none` is the panic.
  unfoldable pub kfree : ℕ → Kmem → Option Kmem
  kfree pa s =
      if not (pa % pgsize == 0) || ltb pa kernel_end || leb phystop pa
      then none
      else some (record { word = update (fill pa 1 s.word) pa s.freelist; freelist = pa })

  -- The loop of `freerange`, with at most `fuel` rounds.
  free_loop : ℕ → ℕ → ℕ → Kmem → Option Kmem
  free_loop zero p pa_end s = none
  free_loop (suc fuel) p pa_end s =
      let on = λ (t : Kmem). free_loop fuel (p + pgsize) pa_end t in
      if leb (p + pgsize) pa_end then elim (kfree p s) [ none ↦ none | some t ↦ on t ] else some s

  unfoldable pub freerange : ℕ → ℕ → ℕ → Kmem → Option Kmem
  unfolding free_loop
  freerange fuel pa_start pa_end s = free_loop fuel (pgroundup pa_start) pa_end s

  unfoldable pub kinit : ℕ → Kmem → Option Kmem
  kinit fuel s = freerange fuel kernel_end phystop (record s { freelist = 0 })
