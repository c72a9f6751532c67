-- ===== src/Ulib.antt =====
-- user/ulib.c: the library of the user programs, over memory as a function from addresses, as in
-- KString. A loop that runs to the 0 of a string takes fuel; `none` means that the fuel ran out.
pub mod Move
pub mod Atoi
pub mod Search
mod Tests
use operating_systems.Prelude.{
  ℕ, zero, suc, ◌+◌, ◌-◌, ◌*◌, ◌%◌, ◌^◌, ◌&&◌, ◌||◌, not, Option, none, some, List, [], ◌∷◌, ltb,
  leb, ◌==◌, if◌then◌else◌, update,
}
use operating_systems.Prelude.Int.{ℤ, sub_ℕ}
use operating_systems.KString.{Mem}

unfoldable pub strcpy : ℕ → ℕ → ℕ → Mem → Option Mem
strcpy zero s t m = none
strcpy (suc fuel) s t m =
    let rest = strcpy fuel (s + 1) (t + 1) (update m s (m t)) in
    if m t == 0 then some (update m s (m t)) else rest

unfoldable pub strcmp : ℕ → ℕ → ℕ → Mem → Option ℤ
strcmp zero p q m = none
strcmp (suc fuel) p q m =
    let rest = strcmp fuel (p + 1) (q + 1) m in
    if not (m p == 0) && (m p == m q) then rest else some (sub_ℕ (m p) (m q))

-- The address of the character, or the null pointer.
unfoldable pub strchr : ℕ → ℕ → ℕ → Mem → Option ℕ
strchr zero s c m = none
strchr (suc fuel) s c m =
    let rest = strchr fuel (s + 1) c m in
    if m s == 0 then some 0 else if m s == c then some s else rest

-- The loop of `gets`, with `left` rounds before `i + 1 < max` fails. `input` is what `read` will
-- deliver, a character a call, before it returns less than 1.
gets_loop : ℕ → ℕ → List ℕ → Mem → Mem × List ℕ
gets_loop zero at input m = (update m at 0, input)
gets_loop (suc left) at [] m = (update m at 0, [])
gets_loop (suc left) at (c ∷ input) m =
    let rest = gets_loop left (at + 1) input (update m at c) in
    if (c == 10) || (c == 13) then (update (update m at c) (at + 1) 0, input) else rest

unfoldable pub gets : ℕ → ℕ → List ℕ → Mem → Mem × List ℕ
unfolding gets_loop
gets buf max input m = gets_loop (max - 1) buf input m

-- `n = n*10 + *s++ - '0'`, as an `int` of 32 bits.
unfoldable pub atoi_loop : ℕ → ℕ → ℕ → Mem → Option ℕ
atoi_loop zero n s m = none
atoi_loop (suc fuel) n s m =
    let rest = atoi_loop fuel ((n * 10 + m s - b'0') % 2 ^ 32) (s + 1) m in
    if leb b'0' (m s) && leb (m s) b'9' then rest else some n

unfoldable pub atoi : ℕ → ℕ → Mem → Option ℕ
unfolding atoi_loop
atoi fuel s m = atoi_loop fuel 0 s m

-- `while(n-- > 0) *dst++ = *src++`
up : ℕ → ℕ → ℕ → Mem → Mem
up zero dst src m = m
up (suc n) dst src m = up n (dst + 1) (src + 1) (update m dst (m src))

-- `while(n-- > 0) *--dst = *--src`
down : ℕ → ℕ → ℕ → Mem → Mem
down zero dst src m = m
down (suc n) dst src m = down n (dst - 1) (src - 1) (update m (dst - 1) (m (src - 1)))

-- A negative `n` makes no round, as 0 does.
unfoldable pub memmove : ℕ → ℕ → ℕ → Mem → Mem
unfolding up down
memmove vdst vsrc n m = if ltb vdst vsrc then up n vdst vsrc m else down n (vdst + n) (vsrc + n) m
