-- ===== src/Ulib/Search.antt =====
-- What `strcmp` and `strchr` compute of strings.
use operating_systems.Prelude.{
  ℕ, zero, suc, ◌+◌, ◌<◌, ◌≡◌, subst, ◌↔◌, inl, inr, false, some, List, [], ◌∷◌, ◌++◌, arith, ◌==◌,
  Bool-cases, length, has,
}
use operating_systems.Prelude.Int.{sub_ℕ, ℤ, pos}
use operating_systems.KString.{Mem}
use operating_systems.KString.Compare.{HasString}
use operating_systems.Ulib.{strcmp, strchr}

-- `strcmp` ends on two strings, and is 0 exactly when they are equal.
pub strcmp_lem :
    (m : Mem) (p q : ℕ) (xs ys : List ℕ) (fuel : ℕ)
    → HasString m p xs
    → HasString m q ys
    → length xs < fuel
    → (r : ℤ) × (strcmp fuel p q m ≡ some r) × ((r ≡ pos 0) ↔ (xs ≡ ys))
unfolding strcmp
strcmp_lem m p q xs ys zero h k f = elim f [ ]
strcmp_lem m p q [] [] (suc fuel) h k f = (sub_ℕ (m p) (m q), ground arith, ground arith)
strcmp_lem m p q [] (y ∷ ys) (suc fuel) h k f = (sub_ℕ (m p) (m q), ground arith, ground arith)
strcmp_lem m p q (x ∷ xs) [] (suc fuel) h k f = (sub_ℕ (m p) (m q), ground arith, ground arith)
strcmp_lem m p q (x ∷ xs) (y ∷ ys) (suc fuel) h k f = elim (Bool-cases (x == y)) [
  | inl same ↦
      let (r, e, iff) = strcmp_lem m (p + 1) (q + 1) xs ys fuel h.2 k.2 (omega (arith, f)) in
      (r, ground (arith, h.0, h.1, k.0), (λ z. ground (arith, iff.0 z), λ z. iff.1 (ground arith)))
  | inr differ ↦ (sub_ℕ (m p) (m q), ground (arith, h.0, k.0), ground (arith, h.0, k.0))
]

strchr_absent :
    (m : Mem) (c fuel : ℕ) (xs : List ℕ) (s : ℕ)
    → HasString m s xs
    → length xs < fuel
    → has xs c ≡ false
    → strchr fuel s c m ≡ some 0
unfolding strchr
strchr_absent m c zero xs s h f n = elim f [ ]
strchr_absent m c (suc fuel) [] s h f n = ground arith
strchr_absent m c (suc fuel) (x ∷ xs) s h f n =
    ground (arith, h.0, h.1, strchr_absent m c fuel xs (s + 1) h.2)

strchr_first :
    (m : Mem) (c fuel : ℕ) (before after : List ℕ) (s : ℕ)
    → HasString m s (before ++ (c ∷ after))
    → length (before ++ (c ∷ after)) < fuel
    → has before c ≡ false
    → strchr fuel s c m ≡ some (s + length before)
unfolding strchr
strchr_first m c zero before after s h f n = elim f [ ]
strchr_first m c (suc fuel) [] after s h f n = ground (arith, h.0, h.1)
strchr_first m c (suc fuel) (b ∷ before) after s h f n =
    ground (arith, h.0, h.1, strchr_first m c fuel before after (s + 1) h.2)

-- `strchr` ends on a string: with the null pointer if the character does not occur, and else with the
-- address of its first occurrence.
pub strchr_lem :
    (m : Mem) (s c : ℕ) (xs : List ℕ) (fuel : ℕ)
    → HasString m s xs
    → length xs < fuel
    → (has xs c ≡ false → strchr fuel s c m ≡ some 0)
      × ((before after : List ℕ)
          → xs ≡ before ++ (c ∷ after)
          → has before c ≡ false
          → strchr fuel s c m ≡ some (s + length before))
strchr_lem m s c xs fuel h f = (
  strchr_absent m c fuel xs s h f,
  λ before after e n.
      strchr_first m c fuel before after s (subst (λ l. HasString m s l) e h)
        (subst (λ l. length l < fuel) e f) n,
)
