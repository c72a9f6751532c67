-- ===== src/Fs/Slices.antt =====
-- Runs of bytes.
use operating_systems.Prelude.{ℕ, zero, suc, ◌+◌, ◌<◌, ◌≡◌, refl, ap, ap₂, ◌∙◌, ◌∷◌, ◌++◌, arith}
use operating_systems.Fs.Inode.{slice}

pub slice_ext :
    (f g : ℕ → ℕ) (o p m : ℕ)
    → ((i : ℕ) → i < m → f (o + i) ≡ g (p + i))
    → slice f o m ≡ slice g p m
slice_ext f g o p zero h = refl
slice_ext f g o p (suc m) h =
    let first : f o ≡ g p = ap f (omega arith) ∙ h 0 (omega arith) ∙ ap g (omega arith) in
    let rest =
      slice_ext f g (o + 1) (p + 1) m
        (λ i hi. ap f (omega arith) ∙ h (i + 1) (omega arith) ∙ ap g (omega arith)) in
    ap₂ (λ x l. x ∷ l) first rest

pub slice_append : (f : ℕ → ℕ) (o m k : ℕ) → slice f o m ++ slice f (o + m) k ≡ slice f o (m + k)
slice_append f o zero k = ap₂ (λ a b. slice f a b) (omega arith) (omega arith)
slice_append f o (suc m) k =
    let shift : o + suc m ≡ o + 1 + m = omega arith in
    let sum : suc (m + k) ≡ suc m + k = omega arith in
    ap (λ l. f o ∷ l)
      (ap (λ a. slice f (o + 1) m ++ slice f a k) shift ∙ slice_append f (o + 1) m k)
    ∙ ap (slice f o) sum
