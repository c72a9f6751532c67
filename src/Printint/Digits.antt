-- ===== src/Printint/Digits.antt =====
-- The digits that `printint` prints stand for its number.
use operating_systems.Prelude.{
  ℕ, zero, suc, ◌+◌, ◌-◌, ◌*◌, ◌/◌, ◌%◌, ◌^◌, ◌≤◌, ◌<◌, ◌≡◌, refl, ap, ap₂, ◌∙◌, ◌≢◌, inl, inr,
  Bool, true, false, ◌&&◌, some, List, [], ◌∷◌, ◌++◌, map, arith, ltb, ◌==◌, if◌then◌else◌,
  Bool-cases, length, length-append, All,
}
use mathlib.Core.List.{reverse-append, map-append, reverse, reverse-cons}
use native.Mathlib.Nat.{div-lt_iff_lt-mul, pow-suc, div-add-mod, mod-lt}
use operating_systems.Printint.{digit_char, digit_loop, is_neg, negated, printint}

-- The number that digits stand for, lowest first.
abbrev pub value : ℕ → List ℕ → ℕ
value base [] = 0
value base (d ∷ ds) = d + base * value base ds

-- The same, read from the highest on, with what has been read before.
abbrev pub horner : ℕ → ℕ → List ℕ → ℕ
horner base n [] = n
horner base n (d ∷ ds) = horner base (n * base + d) ds

horner-append :
    (base n : ℕ) (ds : List ℕ) (d : ℕ)
    → horner base n (ds ++ (d ∷ [])) ≡ horner base n ds * base + d
horner-append base n [] d = refl
horner-append base n (e ∷ ds) d = horner-append base (n * base + e) ds d

pub horner-reverse : (base : ℕ) (ds : List ℕ) → horner base 0 (reverse ds) ≡ value base ds
horner-reverse base [] = refl
horner-reverse base (d ∷ ds) =
    rw (reverse-cons, horner-append, horner-reverse base ds) (omega arith)

smaller : (room x base : ℕ) → 10 ≤ base → x < 10 ^ suc room → x / base < 10 ^ room
smaller room x base h lt = (div-lt_iff_lt-mul (omega arith)).1 (below (10 ^ room) (pow-suc 10 room))
  where
    below : (p : ℕ) → 10 ^ suc room ≡ p * 10 → x < p * base
    below p e = grind arith

-- The digits of `x`, at most `k` of them, which the loop finds.
record DigitsOf (base k room x : ℕ) (ds : List ℕ) : Type 0 where
  ran : digit_loop room x base ≡ some (map digit_char ds)
  stands : value base ds ≡ x
  each : All (λ d. d < base) ds
  fits : length ds ≤ k
  some_digit : 0 < length ds

digit_loop-done :
    (room x base : ℕ)
    → (x / base == 0) ≡ true
    → digit_loop (suc room) x base ≡ some (digit_char (x % base) ∷ [])
unfolding digit_loop
digit_loop-done room x base e = rw e

digit_loop-more :
    (room x base : ℕ) (cs : List ℕ)
    → (x / base == 0) ≡ false
    → digit_loop room (x / base) base ≡ some cs
    → digit_loop (suc room) x base ≡ some (digit_char (x % base) ∷ cs)
unfolding digit_loop
digit_loop-more room x base cs e h = rw (e, h)

room_left : (k q : ℕ) → q < 10 ^ k → q ≢ 0 → 0 < k
room_left zero q h ne = absurd (omega arith)
room_left (suc k) q h ne = omega arith

digit_loop-DigitsOf :
    (k room x base : ℕ)
    → 0 < k
    → k ≤ room
    → 10 ≤ base
    → x < 10 ^ k
    → (ds : List ℕ) × DigitsOf base k room x ds
digit_loop-DigitsOf zero room x base p r h lt = elim p [ ]
digit_loop-DigitsOf (suc k) zero x base p r h lt = elim r [ ]
digit_loop-DigitsOf (suc k) (suc room) x base p r h lt = elim (Bool-cases (x / base == 0)) [
  | inl last ↦
      let e : x / base ≡ 0 = ground arith in
      (
        (x % base) ∷ [],
        record {
          ran = digit_loop-done room x base last;
          stands = omega (arith, div-add-mod x base, ap (λ (q : ℕ). base * q) e);
          each = (mod-lt x (omega arith), tt);
          fits = omega arith;
          some_digit = omega arith;
        },
      )
  | inr more ↦
      let below = smaller k x base h lt in
      let (ds, d) =
        digit_loop-DigitsOf k room (x / base) base (room_left k (x / base) below (ground arith))
          (omega (arith, r)) h below in
      (
        (x % base) ∷ ds,
        record {
          ran = digit_loop-more room x base (map digit_char ds) more d.ran;
          stands = ap (λ v. x % base + base * v) d.stands ∙ omega (arith, div-add-mod x base);
          each = (mod-lt x (omega (arith, h)), d.each);
          fits = omega (arith, d.fits);
          some_digit = omega arith;
        },
      )
]

map-reverse : (ds : List ℕ) → map digit_char (reverse ds) ≡ reverse (map digit_char ds)
map-reverse [] = refl
map-reverse (d ∷ ds) =
    rw (reverse-cons d ds, reverse-cons (digit_char d) (map digit_char ds), map-append)
      (ap (λ cs. cs ++ (digit_char d ∷ [])) (map-reverse ds))

All-append :
    (b : ℕ) (xs ys : List ℕ)
    → All (λ d. d < b) xs
    → All (λ d. d < b) ys
    → All (λ d. d < b) (xs ++ ys)
All-append b [] ys h k = k
All-append b (x ∷ xs) ys h k = (h.0, All-append b xs ys h.1 k)

All-reverse : (b : ℕ) (xs : List ℕ) → All (λ d. d < b) xs → All (λ d. d < b) (reverse xs)
All-reverse b [] h = tt
All-reverse b (x ∷ xs) h =
    rw (reverse-cons x xs) (All-append b (reverse xs) (x ∷ []) (All-reverse b xs h.1) (h.0, tt))

length-reverse : (xs : List ℕ) → length (reverse xs) ≡ length xs
length-reverse [] = refl
length-reverse (x ∷ xs) = rw (reverse-cons x xs, length-append) (omega (arith, length-reverse xs))

-- What is printed of a number's digits.
record Printed (base x : ℕ) (ds : List ℕ) : Type 0 where
  stands : horner base 0 ds ≡ x
  each : All (λ d. d < base) ds
  fits : length ds ≤ 10
  some_digit : 0 < length ds

reverse-Printed :
    (base x : ℕ) (ds : List ℕ) → DigitsOf base 10 16 x ds → Printed base x (reverse ds)
reverse-Printed base x ds d = record {
  stands = horner-reverse base ds ∙ d.stands;
  each = All-reverse base ds d.each;
  fits = rw (length-reverse ds) d.fits;
  some_digit = rw (length-reverse ds) d.some_digit;
}

-- The digits that are printed, highest first, behind a sign where there is one.
abbrev pub printed : Bool → List ℕ → List ℕ
printed neg ds = if neg then b'-' ∷ map digit_char ds else map digit_char ds

-- `printint` by the digits that it finds.
pub printint_digits :
    (xx base : ℕ) (sign : Bool)
    → xx < 2 ^ 32
    → 10 ≤ base
    → (ds : List ℕ) × (printint xx base sign ≡ some (printed (sign && is_neg xx) ds))
      × (horner base 0 ds ≡ (if sign && is_neg xx then 2 ^ 32 - xx else xx))
      × All (λ d. d < base) ds
      × (length ds ≤ 10)
      × (0 < length ds)
unfolding printint
printint_digits xx base sign lt h = elim (Bool-cases (sign && is_neg xx)) [
  | inl y ↦
      let (ds, d) =
        digit_loop-DigitsOf 10 16 (negated xx) base (omega arith) (omega arith) h (omega arith) in
      let p = reverse-Printed base (negated xx) ds d in
      rw y (
        reverse ds,
        rw (d.ran, reverse-append, map-reverse) refl,
        p.stands ∙ magnitude (ground arith),
        p.each,
        p.fits,
        p.some_digit,
      )
  | inr n ↦
      let (ds, d) = digit_loop-DigitsOf 10 16 xx base (omega arith) (omega arith) h (omega arith) in
      let p = reverse-Printed base xx ds d in
      rw n (reverse ds, rw (d.ran, map-reverse) refl, p.stands, p.each, p.fits, p.some_digit)
]
  where
    magnitude : 2 ^ 31 ≤ xx → negated xx ≡ 2 ^ 32 - xx
    magnitude big = omega arith

-- The character of a digit below 16: `0` to `9`, then `a` to `f`.
abbrev pub ascii : ℕ → ℕ
ascii d = if ltb d 10 then 48 + d else 87 + d

-- The characters of a number, highest digit first, behind a minus sign where there is one.
abbrev pub text : Bool → List ℕ → List ℕ
text neg ds = if neg then 45 ∷ map ascii ds else map ascii ds

digit_char-ascii : (d : ℕ) → d < 16 → digit_char d ≡ ascii d
digit_char-ascii d h = ground arith

map-ascii :
    (base : ℕ) (ds : List ℕ) → base ≤ 16 → All (λ d. d < base) ds → map digit_char ds ≡ map ascii ds
map-ascii base [] h all = refl
map-ascii base (d ∷ ds) h all =
    ap₂ ◌∷◌ (digit_char-ascii d (omega (arith, all.0))) (map-ascii base ds h all.1)

printed-text :
    (neg : Bool) (base : ℕ) (ds : List ℕ)
    → base ≤ 16
    → All (λ d. d < base) ds
    → printed neg ds ≡ text neg ds
printed-text true base ds h all = ap (λ cs. 45 ∷ cs) (map-ascii base ds h all)
printed-text false base ds h all = map-ascii base ds h all

-- `printint` in a base from 10 to 16 never writes past its 16 characters, and prints the digits of
-- the number, as `0` to `9` and `a` to `f`, behind a `-` where it is negative and is printed as
-- signed.
pub printint_lem :
    (xx base : ℕ) (sign : Bool)
    → xx < 2 ^ 32
    → 10 ≤ base
    → base ≤ 16
    → (ds : List ℕ) × (printint xx base sign ≡ some (text (sign && is_neg xx) ds))
      × (horner base 0 ds ≡ (if sign && is_neg xx then 2 ^ 32 - xx else xx))
      × All (λ d. d < base) ds
      × (length ds ≤ 10)
      × (0 < length ds)
printint_lem xx base sign lt h small =
    let (ds, run, stands, each, fits, pos) = printint_digits xx base sign lt h in
    (
      ds,
      run ∙ ap some (printed-text (sign && is_neg xx) base ds small each),
      stands,
      each,
      fits,
      pos,
    )
