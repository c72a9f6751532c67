-- ===== src/KString/Tests.antt =====
-- The string functions on a small memory, and the theorems at it.
use operating_systems.Prelude.{
  ℕ, ◌+◌, ◌≡◌, refl, ◌↔◌, inr, some, List, [], ◌∷◌, arith, ◌==◌, if◌then◌else◌, take,
}
use operating_systems.Prelude.Int.{pos}
use operating_systems.KString.{copy_down, copy_up, Mem, memmove, strncmp, strncpy, strlen}
use operating_systems.KString.Move.{overlay, memmove_lem}
use operating_systems.KString.Compare.{HasString, strlen_lem}
use operating_systems.KString.Copy.{strncmp-strncpy}

-- "abc" at 10, "ab" at 20, zeros elsewhere.
abbrev mem : Mem
mem a =
    if a == 10
    then b'a'
    else if a == 11
    then b'b'
    else if a == 12
    then b'c'
    else if a == 20
    then b'a'
    else if a == 21
    then b'b'
    else 0

abbrev abc : List ℕ
abc = b'a' ∷ b'b' ∷ b'c' ∷ []

abbrev ab : List ℕ
ab = b'a' ∷ b'b' ∷ []

mem-abc : HasString mem 10 abc
mem-abc = omega arith

strlen_run : strlen 9 10 mem ≡ some 3
unfolding strlen
strlen_run = refl

memmove_run : memmove 11 10 3 mem 13 ≡ b'c'
unfolding memmove copy_down copy_up
memmove_run = refl

-- The blocks overlap.
memmove_lem_example : memmove 11 10 3 mem ≡ overlay 11 3 (λ k. mem (10 + k)) mem
memmove_lem_example = memmove_lem 11 10 3 mem

strlen_lem_example : strlen 4 10 mem ≡ some 3
strlen_lem_example = strlen_lem mem 10 abc 4 mem-abc (omega arith)

written-ab : HasString (strncpy 30 10 2 mem) 20 ab
unfolding strncpy
written-ab = omega arith

strncmp-strncpy_example : (strncmp 20 30 2 (strncpy 30 10 2 mem) ≡ pos 0) ↔ (take 2 ab ≡ take 2 abc)
strncmp-strncpy_example =
    strncmp-strncpy 30 10 20 2 mem abc ab mem-abc (inr (omega arith)) written-ab
