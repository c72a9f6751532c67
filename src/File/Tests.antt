-- ===== src/File/Tests.antt =====
-- A table of two files, and the theorem at a run over it.
use operating_systems.Prelude.{
  ℕ, zero, suc, ◌<◌, ◌≡◌, refl, ◌↔◌, false, none, some, List, [], ◌∷◌, get_elem?,
}
use operating_systems.File.{File, Closing, still_open, fd_none, filealloc, filedup, fileclose}
use operating_systems.File.Counts.{ref_at, Closes}
use operating_systems.File.References.{Files, held, here, later, opens, counts_exact}

abbrev unused : File
unused = record {
  kind = fd_none;
  ref = 0;
  readable = false;
  writable = false;
  pipe = 0;
  ip = 0;
  off = 0;
  major = 0;
}

abbrev opened : File
opened = record unused { ref = 1 }

abbrev fresh : Files
fresh = record { table = unused ∷ unused ∷ []; refs = [] }

abbrev one_open : Files
one_open = record { table = opened ∷ unused ∷ []; refs = 0 ∷ [] }

fresh-IsValid : (i : ℕ) → ref_at fresh.table i ≡ held fresh.refs i
fresh-IsValid zero = refl
fresh-IsValid (suc zero) = refl
fresh-IsValid (suc (suc i)) = refl

allocates : filealloc fresh.table ≡ some (0, one_open.table)
unfolding filealloc
allocates = refl

dup_panics : filedup 1 one_open.table ≡ none
unfolding filedup
dup_panics = refl

counts_exact_example :
    ((i : ℕ) → ref_at one_open.table i ≡ held one_open.refs i)
    × ((i : ℕ) → 0 < held one_open.refs i → (u : List File) × (filedup i one_open.table ≡ some u))
    × ((i : ℕ)
        → 0 < held one_open.refs i
        → (u : List File) × (c : Closing) × (fileclose i one_open.table ≡ some (u, c))
          × ((c ≡ still_open) ↔ (1 < held one_open.refs i))
          × ((f : File) × (get_elem? one_open.table i ≡ some f)
              × (held one_open.refs i ≡ 1 → Closes f c)))
    × ((i : ℕ) (u : List File) → filealloc one_open.table ≡ some (i, u) → held one_open.refs i ≡ 0)
counts_exact_example =
    counts_exact {s = fresh} fresh-IsValid (later here (opens 0 one_open.table allocates))
