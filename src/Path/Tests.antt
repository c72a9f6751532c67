-- ===== src/Path/Tests.antt =====
-- The path "//a/b".
use operating_systems.Prelude.{ℕ, ◌<◌, ◌≡◌, ◌⊎◌, none, some, List, [], ◌∷◌, ◌++◌, length}
use operating_systems.Path.{skipelem, skipelem_lem, HasElement, Slashes, Plain, NoSlashFirst, slash}

abbrev path : List ℕ
path = slash ∷ slash ∷ 97 ∷ slash ∷ 98 ∷ []

skipelem_lem_example :
    ((skipelem path (0 ∷ []) ≡ none) × Slashes path)
    ⊎ ((pre e sep rest name' : List ℕ) × (skipelem path (0 ∷ []) ≡ some (name', rest))
        × (path ≡ pre ++ (e ++ (sep ++ rest)))
        × Slashes pre
        × Plain e
        × (0 < length e)
        × Slashes sep
        × NoSlashFirst rest
        × ((0 < length sep) ⊎ (rest ≡ []))
        × HasElement e (0 ∷ []) name')
skipelem_lem_example = skipelem_lem path (0 ∷ [])
