-- ===== src/Grep/Language.antt =====
-- The language of a regular expression, and that the matcher decides it.
use operating_systems.Prelude.{
  ℕ, ◌≡◌, refl, ap, ◌↔◌, ◌⊎◌, inl, inr, Bool, true, List, [], ◌∷◌, ◌++◌, append_assoc, arith, ◌==◌,
  if◌then◌else◌, Bool-cases, All,
}
use operating_systems.Grep.{
  is_nil, match_loop, star_char, dot_char, dollar_char, caret_char, matchstar, match_char,
  matchhere, matches,
}

-- One piece of an expression: one character, any number of them, or the end of the text.
pub data Piece : Type 0 where
  one many : (c : ℕ) → Piece
  end : Piece

pub pieces : List ℕ → List Piece
pieces [] = []
pieces (c ∷ []) = if c == dollar_char then end ∷ [] else one c ∷ []
pieces (c ∷ d ∷ re) =
    let rest = pieces re in
    let more = pieces (d ∷ re) in if d == star_char then many c ∷ rest else one c ∷ more

-- Character `t` fits `c`.
abbrev pub Fits : ℕ → ℕ → Type 0
Fits c t = (c ≡ dot_char) ⊎ (c ≡ t)

-- The pieces stand for the text `w`, with the text `rest` behind it.
pub data Denotes : List Piece → List ℕ → List ℕ → Type 0 where
  nothing : {rest : List ℕ} → Denotes [] [] rest
  single :
      {ps : List Piece} {w rest : List ℕ} (c t : ℕ)
      → Fits c t
      → Denotes ps w rest
      → Denotes (one c ∷ ps) (t ∷ w) rest
  repeat :
      {ps : List Piece} {w rest : List ℕ} (c : ℕ) (run : List ℕ)
      → All (Fits c) run
      → Denotes ps w rest
      → Denotes (many c ∷ ps) (run ++ w) rest
  stop :
      {ps : List Piece} {w rest : List ℕ}
      → rest ≡ []
      → Denotes ps w rest
      → Denotes (end ∷ ps) w rest

-- The expression matches a prefix of the text.
abbrev pub Prefix : List Piece → List ℕ → Type 0
Prefix ps text = (w rest : List ℕ) × (text ≡ w ++ rest) × Denotes ps w rest

matchstar_sound :
    (here : List ℕ → Bool) (ps : List Piece) (c : ℕ) (text : List ℕ)
    → ((t : List ℕ) → here t ≡ true → Prefix ps t)
    → matchstar here c text ≡ true
    → Prefix (many c ∷ ps) text
unfolding matchstar
matchstar_sound here ps c [] f h = let (w, rest, e, d) = f [] h in (w, rest, e, repeat c [] tt d)
matchstar_sound here ps c (t ∷ text) f h = elim (Bool-cases (here (t ∷ text))) [
  | inl now ↦ let (w, rest, e, d) = f (t ∷ text) now in (w, rest, e, repeat c [] tt d)
  | inr later ↦ more (ground arith) (matchstar_sound here ps c text f (ground arith))
]
  where
    more : Fits c t → Prefix (many c ∷ ps) text → Prefix (many c ∷ ps) (t ∷ text)
    more fits (w, rest, e, repeat c' run all d) =
        (t ∷ (run ++ _), rest, ap (λ x. t ∷ x) e, repeat c (t ∷ run) (fits, all) d)

match_char_sound :
    (here : List ℕ → Bool) (ps : List Piece) (c : ℕ) (text : List ℕ)
    → ((t : List ℕ) → here t ≡ true → Prefix ps t)
    → match_char here c text ≡ true
    → Prefix (one c ∷ ps) text
unfolding match_char
match_char_sound here ps c [] f h = cc
match_char_sound here ps c (t ∷ text) f h =
    let (w, rest, e, d) = f text (ground arith) in
    (t ∷ w, rest, ap (λ x. t ∷ x) e, single c t (ground arith) d)

is_nil-eq : (text : List ℕ) → is_nil text ≡ true → text ≡ []
unfolding is_nil
is_nil-eq [] h = refl
is_nil-eq (t ∷ text) h = cc

matchhere_sound : (re text : List ℕ) → matchhere re text ≡ true → Prefix (pieces re) text
unfolding matchhere pieces
matchhere_sound [] text h = ([], text, refl, nothing)
matchhere_sound (c ∷ []) text h = elim (Bool-cases (c == dollar_char)) [
  | inl y ↦ rw y ([], [], is_nil-eq text (rw y at h), stop refl nothing)
  | inr n ↦
      rw n (match_char_sound (λ text. true) [] c text (λ t k. ([], t, refl, nothing)) (rw n at h))
]
matchhere_sound (c ∷ d ∷ re) text h = elim (Bool-cases (d == star_char)) [
  | inl y ↦
      rw y (matchstar_sound (matchhere re) (pieces re) c text (matchhere_sound re) (rw y at h))
  | inr n ↦ rw n (
      match_char_sound (matchhere (d ∷ re)) (pieces (d ∷ re)) c text (matchhere_sound (d ∷ re))
        (rw n at h))
]

-- The other way round.
matchstar_complete :
    (here : List ℕ → Bool) (c : ℕ) (run text : List ℕ)
    → All (Fits c) run
    → here text ≡ true
    → matchstar here c (run ++ text) ≡ true
unfolding matchstar
matchstar_complete here c [] [] all h = h
matchstar_complete here c [] (t ∷ text) all h = rw h
matchstar_complete here c (r ∷ run) text all h =
    let rest = matchstar_complete here c run text all.1 h in
    elim (Bool-cases (here (r ∷ (run ++ text)))) [
      | inl y ↦ rw y
      | inr n ↦ rw (n, rest) (ground (arith, all.0))
    ]

complete_star :
    (here : List ℕ → Bool) (ps : List Piece) (c : ℕ) (text : List ℕ)
    → ((t : List ℕ) → Prefix ps t → here t ≡ true)
    → Prefix (many c ∷ ps) text
    → matchstar here c text ≡ true
complete_star here ps c text f (w, rest, e, repeat {w = v} c' run all d) =
    rw (e, append_assoc run v rest)
      (matchstar_complete here c run (v ++ rest) all (f (v ++ rest) (v, rest, refl, d)))

complete_char :
    (here : List ℕ → Bool) (ps : List Piece) (c : ℕ) (text : List ℕ)
    → ((t : List ℕ) → Prefix ps t → here t ≡ true)
    → Prefix (one c ∷ ps) text
    → match_char here c text ≡ true
complete_char here ps c text f (w, rest, e, single {w = v} c' t fits d) =
    rw e (unfold match_char in ground (arith, f (v ++ rest) (v, rest, refl, d)))

complete_end : (text : List ℕ) → Prefix (end ∷ []) text → is_nil text ≡ true
complete_end text (w, rest, e, stop nil nothing) = rw (e, nil) (unfold is_nil in refl)

matchhere_complete : (re text : List ℕ) → Prefix (pieces re) text → matchhere re text ≡ true
unfolding matchhere pieces
matchhere_complete [] text p = refl
matchhere_complete (c ∷ []) text p = elim (Bool-cases (c == dollar_char)) [
  | inl y ↦ rw y (complete_end text (rw y at p))
  | inr n ↦ rw n (complete_char (λ text. true) [] c text (λ t k. refl) (rw n at p))
]
matchhere_complete (c ∷ d ∷ re) text p = elim (Bool-cases (d == star_char)) [
  | inl y ↦
      rw y (complete_star (matchhere re) (pieces re) c text (matchhere_complete re) (rw y at p))
  | inr n ↦ rw n (
      complete_char (matchhere (d ∷ re)) (pieces (d ∷ re)) c text (matchhere_complete (d ∷ re))
        (rw n at p))
]

-- `matchhere` answers yes exactly where the expression denotes a prefix of the text. It always ends.
pub matchhere_iff : (re text : List ℕ) → (matchhere re text ≡ true) ↔ Prefix (pieces re) text
matchhere_iff re text = (matchhere_sound re text, matchhere_complete re text)

-- What `match` looks for: a match at the start of the text behind `^`, and anywhere otherwise.
abbrev pub Occurs : List ℕ → List ℕ → Type 0
Occurs re text = (before after : List ℕ) × (text ≡ before ++ after) × Prefix (pieces re) after

abbrev pub Meant : List ℕ → List ℕ → Type 0
Meant [] text = Occurs [] text
Meant (c ∷ re) text = if c == caret_char then Prefix (pieces re) text else Occurs (c ∷ re) text

loop_sound : (re text : List ℕ) → match_loop re text ≡ true → Occurs re text
unfolding match_loop
loop_sound re [] h = ([], [], refl, matchhere_sound re [] h)
loop_sound re (t ∷ text) h = elim (Bool-cases (matchhere re (t ∷ text))) [
  | inl y ↦ ([], t ∷ text, refl, matchhere_sound re (t ∷ text) y)
  | inr n ↦
      let (before, after, e, p) = loop_sound re text (rw n at h) in
      (t ∷ before, after, ap (λ x. t ∷ x) e, p)
]

loop_complete :
    (re before after : List ℕ) → matchhere re after ≡ true → match_loop re (before ++ after) ≡ true
unfolding match_loop
loop_complete re [] [] h = h
loop_complete re [] (t ∷ after) h = rw h
loop_complete re (b ∷ before) after h = elim (Bool-cases (matchhere re (b ∷ (before ++ after)))) [
  | inl y ↦ rw y
  | inr n ↦ rw n (loop_complete re before after h)
]

loop_iff : (re text : List ℕ) → (match_loop re text ≡ true) ↔ Occurs re text
loop_iff re text = (
  loop_sound re text,
  λ (before, after, e, p). rw e (loop_complete re before after (matchhere_complete re after p)),
)

-- `match` answers yes exactly where the text holds what the expression means: an expression behind
-- `^` at the start of the text, any other somewhere in it. It always ends.
pub matches_iff : (re text : List ℕ) → (matches re text ≡ true) ↔ Meant re text
unfolding matches
matches_iff [] text = loop_iff [] text
matches_iff (c ∷ re) text = elim (Bool-cases (c == caret_char)) [
  | inl y ↦ rw y (matchhere_iff re text)
  | inr n ↦ rw n (loop_iff (c ∷ re) text)
]
