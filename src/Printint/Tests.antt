-- ===== src/Printint/Tests.antt =====
-- Numbers printed, and the theorem at one of them.
use operating_systems.Prelude.{
  ℕ, ◌-◌, ◌^◌, ◌≤◌, ◌<◌, ◌≡◌, refl, true, ◌&&◌, some, List, [], ◌∷◌, arith, if◌then◌else◌, length,
  All,
}
use operating_systems.Printint.{printint, is_neg, digit_loop}
use operating_systems.Printint.Digits.{text, horner, printint_lem}

printint_run : printint 405 10 true ≡ some (b'4' ∷ b'0' ∷ b'5' ∷ [])
unfolding printint digit_loop
printint_run = refl

-- -255 in hexadecimal, as the kernel's `%x` prints it
printint_negative : printint (2 ^ 32 - 255) 16 true ≡ some (b'-' ∷ b'f' ∷ b'f' ∷ [])
unfolding printint digit_loop
printint_negative = refl

printint_lem_example :
    (ds : List ℕ) × (printint (2 ^ 32 - 255) 16 true
      ≡ some (text (true && is_neg (2 ^ 32 - 255)) ds))
    × (horner 16 0 ds
        ≡ (if true && is_neg (2 ^ 32 - 255) then 2 ^ 32 - (2 ^ 32 - 255) else 2 ^ 32 - 255))
    × All (λ d. d < 16) ds
    × (length ds ≤ 10)
    × (0 < length ds)
printint_lem_example = printint_lem (2 ^ 32 - 255) 16 true (omega arith) (omega arith) (omega arith)
