-- ===== src/Ulib/Atoi.antt =====
-- `atoi` reads back what `printint` prints.
use operating_systems.Prelude.{
  ℕ, zero, suc, ◌+◌, ◌-◌, ◌*◌, ◌%◌, ◌^◌, ◌≤◌, ◌<◌, ◌≡◌, refl, sym, ap, ◌∙◌, subst, true, false,
  some, List, [], ◌∷◌, map, arith, if◌then◌else◌, length, All,
}
use operating_systems.KString.{Mem}
use operating_systems.KString.Compare.{HasString}
use operating_systems.Printint.{digit_char, printint, is_neg}
use operating_systems.Printint.Digits.{printed, horner, printint_digits}
use operating_systems.Ulib.{atoi_loop, atoi}

digit_char_lem : (d : ℕ) → d < 10 → digit_char d ≡ b'0' + d
digit_char_lem zero h = refl
digit_char_lem (suc zero) h = refl
digit_char_lem (suc (suc zero)) h = refl
digit_char_lem (suc (suc (suc zero))) h = refl
digit_char_lem (suc (suc (suc (suc zero)))) h = refl
digit_char_lem (suc (suc (suc (suc (suc zero))))) h = refl
digit_char_lem (suc (suc (suc (suc (suc (suc zero)))))) h = refl
digit_char_lem (suc (suc (suc (suc (suc (suc (suc zero))))))) h = refl
digit_char_lem (suc (suc (suc (suc (suc (suc (suc (suc zero)))))))) h = refl
digit_char_lem (suc (suc (suc (suc (suc (suc (suc (suc (suc zero))))))))) h = refl
digit_char_lem (suc (suc (suc (suc (suc (suc (suc (suc (suc (suc d)))))))))) h =
    absurd (omega arith)

le-horner : (n : ℕ) (ds : List ℕ) → n ≤ horner 10 n ds
le-horner n [] = omega arith
le-horner n (d ∷ ds) = omega (arith, le-horner (n * 10 + d) ds)

atoi_loop_lem :
    (ds : List ℕ) (fuel n s : ℕ) (m : Mem)
    → All (λ d. d < 10) ds
    → HasString m s (map digit_char ds)
    → length ds < fuel
    → horner 10 n ds < 2 ^ 32
    → atoi_loop fuel n s m ≡ some (horner 10 n ds)
unfolding atoi_loop
atoi_loop_lem ds zero n s m all h f lt = elim f [ ]
atoi_loop_lem [] (suc fuel) n s m all h f lt = ground arith
atoi_loop_lem (d ∷ ds) (suc fuel) n s m all h f lt =
    let here = digit_char_lem d all.0 in
    let bound = le-horner (n * 10 + d) ds in
    let fits : (n * 10 + m s - b'0') % 2 ^ 32 ≡ n * 10 + d = omega (arith, h.0, here, bound, lt) in
    rw fits
      (ground (arith, h.0, here, all.0, atoi_loop_lem ds fuel (n * 10 + d) (s + 1) m all.1 h.2))

same_output : (a b : List ℕ) → some a ≡ some b → a ≡ b
same_output a b e = cc

-- A number that an `int` holds, printed in decimal by the kernel's `printint` and stored as a string,
-- is read back by `atoi`.
pub atoi-printint :
    (x s fuel : ℕ) (m : Mem) (out : List ℕ)
    → x < 2 ^ 31
    → printint x 10 true ≡ some out
    → HasString m s out
    → 10 < fuel
    → atoi fuel s m ≡ some x
unfolding atoi
atoi-printint x s fuel m out lt p h f =
    let (ds, ran, stands, each, fits, pos) =
      printint_digits x 10 true (omega arith) (omega arith) in
    let nonneg : is_neg x ≡ false = ground arith in
    let same : out ≡ map digit_char ds =
      same_output out (map digit_char ds) (sym p ∙ ran ∙ ap (λ b. some (printed b ds)) nonneg) in
    let total : horner 10 0 ds ≡ x = stands ∙ ap (λ b. if b then 2 ^ 32 - x else x) nonneg in
    atoi_loop_lem ds fuel 0 s m each (subst (λ cs. HasString m s cs) same h)
      (omega (arith, fits, f)) (omega (arith, total, lt))
    ∙ ap some total
