-- ===== src/Grep.antt =====
-- user/grep.c: the regular expression matcher. A C string is the list of its characters before the 0,
-- so `*text == '\0'` is an empty list, and `re[1]`, which is read only after `re[0]`, is the head of
-- the tail or the final 0.
pub mod Language
mod Tests
use operating_systems.Prelude.{ℕ, Bool, true, false, ◌||◌, List, [], ◌∷◌, ◌==◌, if◌then◌else◌}

abbrev pub star_char : ℕ
star_char = b'*'

abbrev pub dot_char : ℕ
dot_char = b'.'

abbrev pub dollar_char : ℕ
dollar_char = b'$'

abbrev pub caret_char : ℕ
caret_char = b'^'

-- `here` is `matchhere` at `re`.
unfoldable pub matchstar : (List ℕ → Bool) → ℕ → List ℕ → Bool
matchstar here c [] = here []
matchstar here c (t ∷ text) =
    let rest = matchstar here c text in
    if here (t ∷ text) then true else if (t == c) || (c == dot_char) then rest else false

-- `*text != '\0' && (re[0] == '.' || re[0] == *text)`, and then `matchhere(re+1, text+1)`
match_char : (List ℕ → Bool) → ℕ → List ℕ → Bool
match_char here c [] = false
match_char here c (t ∷ text) = if (c == dot_char) || (c == t) then here text else false

is_nil : List ℕ → Bool
is_nil [] = true
is_nil (t ∷ text) = false

unfoldable pub matchhere : List ℕ → List ℕ → Bool
unfolding match_char is_nil matchstar
matchhere [] text = true
matchhere (c ∷ []) text = if c == dollar_char then is_nil text else match_char (λ text. true) c text
matchhere (c ∷ d ∷ re) text =
    let starred = matchstar (matchhere re) c text in
    let plain = match_char (matchhere (d ∷ re)) c text in if d == star_char then starred else plain

-- The `do` loop of `match`.
match_loop : List ℕ → List ℕ → Bool
match_loop re [] = matchhere re []
match_loop re (t ∷ text) =
    let rest = match_loop re text in if matchhere re (t ∷ text) then true else rest

unfoldable pub matches : List ℕ → List ℕ → Bool
unfolding match_loop
matches [] text = match_loop [] text
matches (c ∷ re) text = if c == caret_char then matchhere re text else match_loop (c ∷ re) text
