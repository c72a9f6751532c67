-- ===== src/Ulib/Tests.antt =====
-- The user library on a small memory, and the theorems at it.
use operating_systems.Prelude.{ℕ, ◌≡◌, refl, some, List, [], ◌∷◌, arith, ◌==◌, if◌then◌else◌}
use mathlib.Core.Option
use operating_systems.KString.{Mem}
use operating_systems.Printint.{printint, digit_loop}
use operating_systems.Ulib.{strcpy, gets, atoi}
use operating_systems.Ulib.Atoi.{atoi-printint}

-- "405" at 10, "4" at 20, zeros elsewhere.
abbrev mem : Mem
mem a =
    if a == 10
    then b'4'
    else if a == 11
    then b'0'
    else if a == 12
    then b'5'
    else if a == 20
    then b'4'
    else 0

abbrev number : List ℕ
number = b'4' ∷ b'0' ∷ b'5' ∷ []

atoi_run : atoi 9 10 mem ≡ some 405
unfolding atoi
atoi_run = refl

gets_run : (gets 30 10 (b'a' ∷ 10 ∷ b'b' ∷ []) mem).1 ≡ b'b' ∷ []
unfolding gets
gets_run = refl

strcpy_run : Option.map (λ (m : Mem). m 32) (strcpy 9 30 10 mem) ≡ some b'5'
unfolding strcpy
strcpy_run = refl

atoi-printint_example : atoi 11 10 mem ≡ some 405
unfolding printint digit_loop
atoi-printint_example =
    atoi-printint 405 10 11 mem number (omega arith) refl (omega arith) (omega arith)
