-- ===== src/Bio/Tests.antt =====
-- A cache as `binit` leaves it, a block read from it, written and given back.
use operating_systems.Prelude.{ℕ, ◌+◌, ◌≡◌, refl, ◌≢◌, ◌⊎◌, true, none, some, [], ◌∷◌, arith}
use operating_systems.Bio.{Block, Buf, Cache, is_for, binit, bread, brelse}
use operating_systems.Bio.Current.{IsValid, SameBlocks}
use operating_systems.Bio.Read.{Refused, HasRead, bread_lem}
use operating_systems.Bio.Release.{MayRelease, ToFront, brelse_lem}

abbrev disk : ℕ → ℕ → Block
disk d b = λ i. d + b

abbrev fresh : Cache
fresh = binit disk

no_device : (y d n : ℕ) → d ≢ 0 → is_for (fresh.buf y) d n ≡ true → ⊥
unfolding binit
no_device y d n ne h = ground arith

fresh-IsValid : IsValid fresh
unfolding binit
fresh-IsValid = record {
  one_buffer = λ x y d b mx my ne ix iy. absurd (no_device x d b ne ix);
  clean = λ x mx free ok. cc;
  unlocked = λ x mx free. refl;
}

bread_lem_example :
    ((bread 1 1 5 fresh ≡ none) × Refused 1 5 fresh)
    ⊎ ((b : ℕ) × (t : Cache) × (bread 1 1 5 fresh ≡ some (b, t)) × HasRead fresh t 1 b 1 5)
bread_lem_example = bread_lem 1 1 5 fresh fresh-IsValid (omega arith)

-- A buffer that process 1 has changed and another process waits for.
abbrev changed : Buf
changed = record {
  dev = 1;
  blockno = 5;
  valid = true;
  refcnt = 2;
  content = λ j. 9;
  holder = some 1;
}

abbrev busy : Cache
busy = record { buf = λ i. changed; order = 1 ∷ []; disk = disk }

busy-IsValid : IsValid busy
busy-IsValid = record {
  one_buffer = λ x y d b mx my ne ix iy. ground arith;
  clean = λ x mx free ok. absurd (omega (arith, free));
  unlocked = λ x mx free. absurd (omega (arith, free));
}

busy-MayRelease : MayRelease busy 1 1
busy-MayRelease = record {
  listed = refl;
  locked = refl;
  counted = omega arith;
  written = λ e. absurd (omega (arith, e));
}

brelse_lem_example :
    (t : Cache) × (brelse 1 1 busy ≡ some t)
    × IsValid t
    × SameBlocks busy t
    × (t.buf 1 ≡ record changed { holder = none; refcnt = 1 })
    × ((y : ℕ) → 1 ≢ y → t.buf y ≡ changed)
    × ((busy.buf 1).refcnt ≡ 1 → ToFront 1 (1 ∷ []) t.order)
    × ((busy.buf 1).refcnt ≢ 1 → t.order ≡ 1 ∷ [])
brelse_lem_example = brelse_lem 1 1 busy busy-IsValid busy-MayRelease
