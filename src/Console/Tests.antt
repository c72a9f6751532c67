-- ===== src/Console/Tests.antt =====
-- A short line typed and read, and the theorems at it.
use operating_systems.Prelude.{
  ◌+◌, ◌≡◌, refl, true, false, none, some, [], ◌∷◌, arith, ◌==◌, if◌then◌else◌, replicate,
}
use mathlib.Core.Option
use operating_systems.Console.{
  consputc, Cons, Handled, returns, newline, consoleintr, consoleread, consolewrite, store,
  write_loop,
}
use operating_systems.Console.Ring.{IsValid}
use operating_systems.Console.Line.{view, typed}
use operating_systems.Console.Intr.{consoleintr_lem}
use operating_systems.Console.Read.{IsPass, consoleread_lem}

abbrev empty : Cons
empty = record { buf = replicate 128 0; r = 0; w = 0; e = 0 }

empty-IsValid : IsValid empty
empty-IsValid = record {
  ring = refl;
  r_fits = omega arith;
  w_fits = omega arith;
  e_fits = omega arith;
  bounded = omega arith;
  ordered = omega arith;
  one_line = λ i lo hi e. omega arith;
}

-- "a", and then the line is ended.
abbrev one_line : Cons
one_line = record { buf = b'a' ∷ newline ∷ replicate 126 0; r = 0; w = 2; e = 2 }

one_line-IsValid : IsValid one_line
one_line-IsValid = record {
  ring = refl;
  r_fits = omega arith;
  w_fits = omega arith;
  e_fits = omega arith;
  bounded = omega arith;
  ordered = omega arith;
  one_line = λ i lo hi e. omega arith;
}

typed_a : Option.map (λ (h : Handled). h.echo) (consoleintr 129 b'a' empty) ≡ some (b'a' ∷ [])
unfolding consoleintr store consputc
typed_a = refl

read_a : (consoleread (λ k c. true) false 10 10 one_line).1 ≡ returns 2
unfolding consoleread
read_a = refl

written : consolewrite (λ i. if i == 2 then none else some (b'a' + i)) 5 ≡ (b'a' ∷ b'b' ∷ [], 2)
unfolding consolewrite write_loop
written = refl

consoleintr_lem_example :
    (h : Handled) × (consoleintr 129 b'a' one_line ≡ some h)
    × IsValid h.cons
    × (view h.cons ≡ typed b'a' (view one_line))
    × (h.wakes ≡ false → h.cons.w ≡ one_line.w)
consoleintr_lem_example = consoleintr_lem 129 b'a' one_line one_line-IsValid (omega arith)

consoleread_lem_example :
    IsPass (λ k c. true) false 10 10 one_line (consoleread (λ k c. true) false 10 10 one_line)
consoleread_lem_example = consoleread_lem (λ k c. true) false 10 10 one_line one_line-IsValid
