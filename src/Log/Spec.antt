-- ===== src/Log/Spec.antt =====
-- What the log on a disk stands for: the contents that recovery gives to the blocks outside it.
use operating_systems.Prelude.{
  ℕ, ◌+◌, ◌≤◌, ◌<◌, ◌≡◌, refl, ◌∙◌, subst, ◌⊎◌, inl, inr, true, false, List, [], ◌∷◌, arith, ◌==◌,
  if◌then◌else◌, Bool-cases, length, update, All, has,
}
use native.Mathlib.Nat.{add_assoc, add-zero}
use operating_systems.Log.{Block, Disk, entries}

module _ (start : ℕ) where
  -- The list of blocks that the header on disk names.
  abbrev pub header : Disk → List ℕ
  header D = entries (D start 0) 0 (D start)

  -- Block `b` once the entries from `t` on are installed; a later entry wins.
  unfoldable pub installed : Disk → ℕ → List ℕ → Block → ℕ → Block
  installed D t [] v b = v
  installed D t (x ∷ xs) v b = installed D (t + 1) xs (if x == b then D (start + t + 1) else v) b

  abbrev pub recovered : Disk → ℕ → Block
  recovered D b = installed D 0 (header D) (D b) b

  -- The log entries from `t` on hold the contents `c` of the blocks `bs`.
  abbrev pub Logged : Disk → ℕ → List ℕ → Disk → Type 0
  Logged D t [] c = Unit
  Logged D t (x ∷ xs) c = (D (start + t + 1) ≡ c x) × Logged D (t + 1) xs c

  pub installed-Logged :
      (D : Disk) (c : Disk) (t : ℕ) (bs : List ℕ) (v : Block) (b : ℕ)
      → Logged D t bs c
      → installed D t bs v b ≡ (if has bs b then c b else v)
  unfolding installed
  installed-Logged D c t [] v b h = refl
  installed-Logged D c t (x ∷ xs) v b h =
      ground
        (arith, installed-Logged D c (t + 1) xs (if x == b then D (start + t + 1) else v) b h.1)

  pub installed-has :
      (D : Disk) (t : ℕ) (bs : List ℕ) (v w : Block) (b : ℕ)
      → has bs b ≡ true
      → installed D t bs v b ≡ installed D t bs w b
  unfolding installed
  installed-has D t [] v w b h = cc
  installed-has D t (x ∷ xs) v w b h = ground (arith, installed-has D (t + 1) xs v w b)

  pub installed_not :
      (D : Disk) (t : ℕ) (bs : List ℕ) (v : Block) (b : ℕ)
      → has bs b ≡ false
      → installed D t bs v b ≡ v
  unfolding installed
  installed_not D t [] v b h = refl
  installed_not D t (x ∷ xs) v b h = ground (arith, installed_not D (t + 1) xs v b)

module _ (start size : ℕ) where
  -- Outside the log area.
  abbrev pub IsHome : ℕ → Type 0
  IsHome b = (b < start) ⊎ (start + size ≤ b)

  -- A header that recovery can follow: it fits the log and names blocks outside it.
  abbrev pub IsSound : List ℕ → Type 0
  IsSound bs = All IsHome bs × (length bs + 1 ≤ size)

  -- Two disks with one log area.
  abbrev pub SameLog : Disk → Disk → Type 0
  SameLog D E = (i : ℕ) → i < size → E (start + i) ≡ D (start + i)

  -- A disk part of the way through the installation of `bs` on `D`.
  abbrev pub Partial : Disk → List ℕ → Disk → Type 0
  Partial D bs E = SameLog D E × ((b : ℕ) → IsHome b → has bs b ≡ false → E b ≡ D b)

  pub installed-SameLog :
      (D E : Disk) (t : ℕ) (bs : List ℕ) (v : Block) (b : ℕ)
      → SameLog D E
      → t + length bs + 1 ≤ size
      → installed start E t bs v b ≡ installed start D t bs v b
  unfolding installed
  installed-SameLog D E t [] v b h fits = refl
  installed-SameLog D E t (x ∷ xs) v b h fits = rw (
    installed-SameLog D E (t + 1) xs (if x == b then E (start + t + 1) else v) b h (omega arith),
    at,
  )
    where
      at : E (start + t + 1) ≡ D (start + t + 1)
      at = rw (add_assoc start t 1) (h (t + 1) (omega arith))

  pub SameLog-update : (D : Disk) (x : ℕ) (d : Block) → IsHome x → SameLog D (update D x d)
  SameLog-update D x d home i h = ground arith

  pub SameLog-start : (D E : Disk) → 0 < size → SameLog D E → E start ≡ D start
  SameLog-start D E h s = subst (λ k. E k ≡ D k) (add-zero start) (s 0 h)

  -- Recovery gives a disk in the middle of an installation the contents of the finished one.
  pub recovered-Partial :
      (D E : Disk)
      → IsSound (header start D)
      → Partial D (header start D) E
      → (b : ℕ) → IsHome b
      → recovered start E b ≡ recovered start D b
  recovered-Partial D E sound p b home =
      rw (SameLog-start D E (omega arith) p.0)
        (installed-SameLog D E 0 (header start D) (E b) b p.0 (omega arith) ∙ old)
    where
      old :
          installed start D 0 (header start D) (E b) b
          ≡ installed start D 0 (header start D) (D b) b
      old = elim (Bool-cases (has (header start D) b)) [
        | inl y ↦ installed-has start D 0 (header start D) (E b) (D b) b y
        | inr n ↦ rw (p.1 b home n)
      ]
