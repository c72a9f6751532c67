-- ===== src/Printint.antt =====
-- `printint` and `printptr` of kernel/printf.c: the characters that go to `consputc`.
-- An `int` is its 32-bit pattern, a number below 2 ^ 32.
pub mod Digits
mod Tests
use operating_systems.Prelude.{
  ℕ, zero, suc, ◌-◌, ◌*◌, ◌/◌, ◌%◌, ◌^◌, Bool, ◌&&◌, Option, none, some, List, [], ◌∷◌, ◌++◌, map,
  leb, ◌==◌, if◌then◌else◌, get_or,
}
use mathlib.Core.List.{reverse}
use mathlib.Core.Option

-- `digits`
abbrev pub digits : List ℕ
digits =
    b'0' ∷ b'1' ∷ b'2' ∷ b'3' ∷ b'4' ∷ b'5' ∷ b'6' ∷ b'7' ∷ b'8' ∷ b'9' ∷ b'a' ∷ b'b' ∷ b'c' ∷ b'd'
    ∷ b'e' ∷ b'f' ∷ []

-- `digits[d]`, for a base of at most 16.
abbrev pub digit_char : ℕ → ℕ
digit_char d = get_or digits d 0

-- The `do` loop that fills `buf`, lowest digit first, from `x` on. The fuel is the room in `buf`;
-- `none` means that the loop would write past it.
unfoldable pub digit_loop : ℕ → ℕ → ℕ → Option (List ℕ)
digit_loop zero x base = none
digit_loop (suc room) x base =
    let c = digit_char (x % base) in
    let rest = Option.map (λ cs. c ∷ cs) (digit_loop room (x / base) base) in
    if x / base == 0 then some (c ∷ []) else rest

-- `xx < 0`
abbrev pub is_neg : ℕ → Bool
is_neg xx = leb (2 ^ 31) xx

-- `-xx` as a `uint`
abbrev pub negated : ℕ → ℕ
negated xx = (2 ^ 32 - xx) % 2 ^ 32

-- `buf` has 16 places; the last loop sends them from the highest down.
unfoldable pub printint : ℕ → ℕ → Bool → Option (List ℕ)
printint xx base sign =
    let neg = sign && is_neg xx in
    let x = if neg then negated xx else xx in
    Option.map (λ cs. reverse (if neg then cs ++ (b'-' ∷ []) else cs)) (digit_loop 16 x base)

-- The loop of `printptr`: 16 rounds, each the top four bits of `x` and then `x <<= 4`.
ptr_loop : ℕ → ℕ → List ℕ
ptr_loop zero x = []
ptr_loop (suc n) x = digit_char (x / 2 ^ 60) ∷ ptr_loop n (x * 16 % 2 ^ 64)

unfoldable pub printptr : ℕ → List ℕ
unfolding ptr_loop
printptr x = b'0' ∷ b'x' ∷ ptr_loop 16 x
