-- ===== src/Console.antt =====
-- kernel/console.c: the line discipline of the console, over a ring of `INPUT_BUF` characters.
-- A pass of `consoleread` is what it does with the lock held, from its start or from its return from
-- `sleep` to the next `sleep` or `release`. `copyout k c` tells whether `either_copyout` of `c` as
-- the `k`-th character succeeds, `copyin i` is what `either_copyin` reads at `src + i`.
pub mod Ring
pub mod Line
pub mod Intr
pub mod Read
mod Tests
use operating_systems.Prelude.{
  ℕ, zero, suc, ◌+◌, ◌-◌, ◌%◌, ◌^◌, Bool, true, false, ◌&&◌, ◌||◌, not, Option, none, some, List,
  [], ◌∷◌, ◌++◌, map, ltb, ◌==◌, if◌then◌else◌, set, get_or,
}
use mathlib.Core.Option

abbrev pub input_buf : ℕ
input_buf = 128

-- `BACKSPACE`, and the control characters of the code by `C(x)`
abbrev pub backspace : ℕ
backspace = 0x100

abbrev pub control : ℕ → ℕ
control x = x - b'@'

abbrev pub newline : ℕ
newline = 10

abbrev pub carriage_return : ℕ
carriage_return = 13

-- What goes to `uartputc_sync`.
unfoldable pub consputc : ℕ → List ℕ
consputc c = if c == backspace then 8 ∷ b' ' ∷ 8 ∷ [] else c ∷ []

pub record Cons : Type 0 where
  pub buf : List ℕ
  pub r : ℕ
  pub w : ℕ
  pub e : ℕ

-- `uint` arithmetic
abbrev pub plus : ℕ → ℕ → ℕ
plus a b = (a + b) % 2 ^ 32

abbrev pub minus : ℕ → ℕ → ℕ
minus a b = (a + 2 ^ 32 - b) % 2 ^ 32

-- The characters that go to `uartputc`, and the count that is returned.
unfoldable pub write_loop : (ℕ → Option ℕ) → ℕ → ℕ → List ℕ × ℕ
write_loop copyin zero i = ([], i)
write_loop copyin (suc left) i =
    let (out, k) = write_loop copyin left (i + 1) in
    elim (copyin i) [ none ↦ ([], i) | some c ↦ (c ∷ out, k) ]

unfoldable pub consolewrite : (ℕ → Option ℕ) → ℕ → List ℕ × ℕ
unfolding write_loop
consolewrite copyin n = write_loop copyin n 0

-- Why a pass of `consoleread` ends: it sleeps with `n` characters wanted, or returns.
pub data Outcome : Type 0 where
  sleeps : (n : ℕ) → Outcome
  returns : (count : ℕ) → Outcome
  fails : Outcome

-- `n` characters are wanted still, of `target`.
unfoldable pub consoleread : (ℕ → ℕ → Bool) → Bool → ℕ → ℕ → Cons → Cons × Outcome
consoleread copyout killed target zero s = (s, returns target)
consoleread copyout killed target (suc n) s =
    let c = get_or s.buf (s.r % input_buf) 0 in
    let s1 = record s { r = plus s.r 1 } in
    let rest = consoleread copyout killed target n s1 in
    if s.r == s.w
    then (s, if killed then fails else sleeps (suc n))
    else if c == control b'D'
    then (
      if ltb (suc n) target then record s1 { r = minus s1.r 1 } else s1,
      returns (target - suc n),
    )
    else if not (copyout (target - suc n) c)
    then (s1, returns (target - suc n))
    else if c == newline
    then (s1, returns (target - n))
    else rest

pub record Handled : Type 0 where
  pub cons : Cons
  pub echo : List ℕ
  pub wakes : Bool

-- The loop of control-U, with at most `fuel` rounds.
unfoldable pub kill_loop : ℕ → Cons → Option (Cons × List ℕ)
unfolding consputc
kill_loop zero s = none
kill_loop (suc fuel) s =
    let rest = kill_loop fuel (record s { e = minus s.e 1 }) in
    if not (s.e == s.w) && not (get_or s.buf (minus s.e 1 % input_buf) 0 == newline)
    then Option.map (λ (p : Cons × List ℕ). (p.0, consputc backspace ++ p.1)) rest
    else some (s, [])

-- The last case of the `switch`: a character `c` that is not 0 and has room, `\r` replaced.
unfoldable pub store : ℕ → Cons → Handled
unfolding consputc
store c s =
    let s1 = record s { buf = set s.buf (s.e % input_buf) c; e = plus s.e 1 } in
    if (c == newline) || (c == control b'D') || (s1.e == plus s.r input_buf)
    then record { cons = record s1 { w = s1.e }; echo = consputc c; wakes = true }
    else record { cons = s1; echo = consputc c; wakes = false }

-- Control-P prints the process list, which leaves the console's state alone.
unfoldable pub consoleintr : ℕ → ℕ → Cons → Option Handled
unfolding kill_loop store consputc
consoleintr fuel c s =
    let same : Handled = record { cons = s; echo = []; wakes = false } in
    if c == control b'P'
    then some same
    else if c == control b'U'
    then Option.map (λ (p : Cons × List ℕ). record { cons = p.0; echo = p.1; wakes = false })
        (kill_loop fuel s)
    else if (c == control b'H') || (c == 0x7f)
    then some (
        if not (s.e == s.w)
        then record {
          cons = record s { e = minus s.e 1 };
          echo = consputc backspace;
          wakes = false;
        }
        else same)
    else if not (c == 0) && ltb (minus s.e s.r) input_buf
    then some (store (if c == carriage_return then newline else c) s)
    else some same
