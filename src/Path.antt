-- ===== src/Path.antt =====
-- kernel/fs.c: `skipelem`, the next element of a path. A path is its bytes before the terminating
-- zero; `name` is the buffer of `DIRSIZ` bytes.
mod Tests
use operating_systems.Prelude.{
  ℕ, suc, ◌+◌, ◌-◌, ◌≤◌, ◌<◌, ◌≡◌, refl, sym, ap, ◌∙◌, subst, ◌⊎◌, inl, inr, true, false, Option,
  none, some, List, [], ◌∷◌, ◌++◌, append-nil, arith, leb, ◌==◌, if◌then◌else◌, Bool-cases, length,
  get_elem?, take, drop, length-take, All, List-cases, get_elem?-take, get_elem?-append_left,
  get_elem?-append_right, get_elem?-drop,
}

-- DIRSIZ
abbrev pub dirsiz : ℕ
dirsiz = 14

abbrev pub slash : ℕ
slash = 47

-- `while(*path == '/') path++;`
unfoldable pub strip : List ℕ → List ℕ
strip [] = []
strip (c ∷ path) = let rest = strip path in if c == slash then rest else c ∷ path

-- The bytes up to the next slash, and those from it on.
unfoldable pub element : List ℕ → List ℕ
element [] = []
element (c ∷ path) = let rest = element path in if c == slash then [] else c ∷ rest

unfoldable pub after_element : List ℕ → List ℕ
after_element [] = []
after_element (c ∷ path) = let rest = after_element path in if c == slash then c ∷ path else rest

-- The element is copied; the terminating zero is written where there is room.
abbrev pub copy_name : List ℕ → List ℕ → List ℕ
copy_name e name =
    if leb dirsiz (length e) then take dirsiz e else e ++ (0 ∷ drop (length e + 1) name)

-- `none` is the null pointer.
unfoldable pub skip_from : List ℕ → List ℕ → Option (List ℕ × List ℕ)
skip_from [] name = none
skip_from (c ∷ path) name =
    some (copy_name (element (c ∷ path)) name, strip (after_element (c ∷ path)))

unfoldable pub skipelem : List ℕ → List ℕ → Option (List ℕ × List ℕ)
skipelem path name = skip_from (strip path) name

-- The list has no slash; it has only slashes; it does not begin with one.
abbrev pub Plain : List ℕ → Type 0
Plain l = All (λ c. c == slash ≡ false) l

abbrev pub Slashes : List ℕ → Type 0
Slashes l = All (λ c. c == slash ≡ true) l

abbrev pub NoSlashFirst : List ℕ → Type 0
NoSlashFirst [] = Unit
NoSlashFirst (c ∷ l) = c == slash ≡ false

strip_lem :
    (l : List ℕ) → (pre : List ℕ) × Slashes pre × (l ≡ pre ++ strip l) × NoSlashFirst (strip l)
unfolding strip
strip_lem [] = ([], tt, refl, tt)
strip_lem (c ∷ l) = elim (Bool-cases (c == slash)) [
  | inl y ↦
      let (pre, all, e, front) = strip_lem l in
      (c ∷ pre, (y, all), rw y (ap (λ r. c ∷ r) e), rw y front)
  | inr n ↦ ([], tt, rw n refl, rw n n)
]

element_lem : (l : List ℕ) → Plain (element l) × (l ≡ element l ++ after_element l)
unfolding element after_element
element_lem [] = (tt, refl)
element_lem (c ∷ l) = elim (Bool-cases (c == slash)) [
  | inl y ↦ (rw y tt, rw y refl)
  | inr n ↦ let (p, e) = element_lem l in (rw n (n, p), rw n (ap (λ r. c ∷ r) e))
]

after_element-NoGap :
    (l : List ℕ) (sep rest : List ℕ)
    → after_element l ≡ sep ++ rest
    → NoSlashFirst rest
    → (0 < length sep) ⊎ (rest ≡ [])
unfolding after_element
after_element-NoGap [] [] [] e front = inr refl
after_element-NoGap [] [] (r ∷ rest) e front = absurd cc
after_element-NoGap l (s ∷ sep) rest e front = inl (omega arith)
after_element-NoGap (c ∷ l) [] rest e front = elim (Bool-cases (c == slash)) [
  | inl y ↦
      let whole : after_element (c ∷ l) ≡ c ∷ l = rw y refl in
      let first : c ∷ l ≡ rest = sym whole ∙ e in
      let clash : c == slash ≡ false = subst NoSlashFirst (sym first) front in absurd (cc)
  | inr n ↦ after_element-NoGap l [] rest (sym (rw n refl) ∙ e) front
]

-- The buffer `name` after the element `e` has been copied to it, as `name'`: at most 14 bytes of the
-- element, and, where it is shorter, a zero behind it and what was there before.
pub record HasElement (e name name' : List ℕ) : Type 0 where
  pub bytes : (k : ℕ) → k < length e → k < 14 → get_elem? name' k ≡ get_elem? e k
  pub ends : length e < 14 → get_elem? name' (length e) ≡ some 0
  pub behind : length e < 14 → (k : ℕ) → length e < k → get_elem? name' k ≡ get_elem? name k
  pub full : 14 ≤ length e → length name' ≡ 14

copy_name-HasElement : (e name : List ℕ) → HasElement e name (copy_name e name)
copy_name-HasElement e name = elim (Bool-cases (leb dirsiz (length e))) [
  | inl y ↦ rw y (record {
    bytes = λ k h l. get_elem?-take 14 e k l;
    ends = λ h. absurd (ground arith);
    behind = λ h k l. absurd (ground arith);
    full = λ h. length-take 14 e ∙ omega arith;
  })
  | inr n ↦
      let tail = drop (length e + 1) name in
      rw n (record {
        bytes = λ k h l. get_elem?-append_left e (0 ∷ tail) k h;
        ends = λ h.
            ap (λ k. get_elem? (e ++ (0 ∷ tail)) k) (omega arith)
            ∙ get_elem?-append_right e (0 ∷ tail) 0;
        behind = λ h k l.
            ap (λ k. get_elem? (e ++ (0 ∷ tail)) k) (omega arith)
            ∙ get_elem?-append_right e (0 ∷ tail) (suc (k - (length e + 1)))
            ∙ get_elem?-drop (length e + 1) name (k - (length e + 1))
            ∙ ap (λ k. get_elem? name k) (omega arith);
        full = λ h. absurd (ground arith);
      })
]

-- `skipelem` gives the null pointer for a path of slashes only. Else the path is slashes, an
-- element that is not empty and has no slash, slashes, of which there is one unless the path ends
-- there, and the path that it gives, which does not begin with a slash; the name is the element: its
-- first 14 bytes, or all of it and a zero, with the bytes behind the zero as they were.
pub skipelem_lem :
    (path name : List ℕ)
    → ((skipelem path name ≡ none) × Slashes path)
      ⊎ ((pre e sep rest name' : List ℕ) × (skipelem path name ≡ some (name', rest))
          × (path ≡ pre ++ (e ++ (sep ++ rest)))
          × Slashes pre
          × Plain e
          × (0 < length e)
          × Slashes sep
          × NoSlashFirst rest
          × ((0 < length sep) ⊎ (rest ≡ []))
          × HasElement e name name')
unfolding skipelem skip_from element
skipelem_lem path name =
    let (pre, all, e, front) = strip_lem path in
    elim (List-cases (strip path)) [
      | inl gone ↦
          inl (rw gone refl, subst Slashes (sym (e ∙ ap (λ r. pre ++ r) gone ∙ append-nil pre)) all)
      | inr (c, l, here) ↦
          let (plain, split) = element_lem (c ∷ l) in
          let (sep, ss, e2, no2) = strip_lem (after_element (c ∷ l)) in
          let first : c == slash ≡ false = subst NoSlashFirst here front in
          inr (
            pre,
            element (c ∷ l),
            sep,
            strip (after_element (c ∷ l)),
            copy_name (element (c ∷ l)) name,
            rw here refl,
            e ∙ ap (λ r. pre ++ r) (here ∙ split ∙ ap (λ r. element (c ∷ l) ++ r) e2),
            all,
            plain,
            rw first (omega arith),
            ss,
            no2,
            after_element-NoGap (c ∷ l) sep (strip (after_element (c ∷ l))) e2 no2,
            copy_name-HasElement (element (c ∷ l)) name,
          )
    ]
