-- ===== src/Grep/Tests.antt =====
-- The matcher on a few texts, and the theorems at them.
use operating_systems.Prelude.{ℕ, ◌≡◌, refl, ◌↔◌, true, false, List, [], ◌∷◌}
use operating_systems.Grep.{matchhere, matches}
use operating_systems.Grep.Language.{Meant, matches_iff}

-- "^b*c$" and "bbc"
abbrev expression : List ℕ
expression = b'^' ∷ b'b' ∷ b'*' ∷ b'c' ∷ b'$' ∷ []

abbrev text : List ℕ
text = b'b' ∷ b'b' ∷ b'c' ∷ []

matches_run : matches expression text ≡ true
unfolding matches matchhere
matches_run = refl

matches_run_not : matches expression (b'a' ∷ text) ≡ false
unfolding matches matchhere
matches_run_not = refl

matches_iff_example : (matches expression text ≡ true) ↔ Meant expression text
matches_iff_example = matches_iff expression text
