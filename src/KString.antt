-- ===== src/KString.antt =====
-- kernel/string.c: byte strings in memory.
-- Memory is a function from addresses to bytes. A pointer is an address; sums of pointers do not
-- wrap, as C requires of pointers into one object. A length stands for the values that `uint n`
-- takes, so every number is one; loops recur on the rounds left.
pub mod Move
pub mod Compare
pub mod Copy
mod Tests
use operating_systems.Prelude.{
  ℕ, zero, suc, ◌+◌, ◌-◌, ◌%◌, ◌&&◌, not, Option, none, some, ltb, ◌==◌, if◌then◌else◌, update,
}
use operating_systems.Prelude.Int.{ℤ, pos, sub_ℕ}

abbrev pub Mem : Type 0
Mem = ℕ → ℕ

-- `for(i = 0; i < n; i++) cdst[i] = c`, from round `i` with `n` rounds left
set_loop : ℕ → ℕ → ℕ → ℕ → Mem → Mem
set_loop zero i dst c m = m
set_loop (suc n) i dst c m = set_loop n (i + 1) dst c (update m (dst + i) (c % 256))

pub memset : ℕ → ℕ → ℕ → Mem → Mem
memset dst c n m = set_loop n 0 dst c m

-- `while(n-- > 0) *d++ = *s++`
unfoldable pub copy_up : ℕ → ℕ → ℕ → Mem → Mem
copy_up zero d s m = m
copy_up (suc n) d s m = copy_up n (d + 1) (s + 1) (update m d (m s))

-- `while(n-- > 0) *--d = *--s`
unfoldable pub copy_down : ℕ → ℕ → ℕ → Mem → Mem
copy_down zero d s m = m
copy_down (suc n) d s m = copy_down n (d - 1) (s - 1) (update m (d - 1) (m (s - 1)))

unfoldable pub memmove : ℕ → ℕ → ℕ → Mem → Mem
memmove dst src n m =
    if ltb src dst && ltb dst (src + n)
    then copy_down n (dst + n) (src + n) m
    else copy_up n dst src m

unfoldable pub memcpy : ℕ → ℕ → ℕ → Mem → Mem
memcpy dst src n m = memmove dst src n m

pub memcmp : ℕ → ℕ → ℕ → Mem → ℤ
memcmp v1 v2 zero m = pos 0
memcmp v1 v2 (suc n) m = if m v1 == m v2 then memcmp (v1 + 1) (v2 + 1) n m else sub_ℕ (m v1) (m v2)

unfoldable pub strncmp : ℕ → ℕ → ℕ → Mem → ℤ
strncmp p q zero m = pos 0
strncmp p q (suc n) m =
    if not (m p == 0) && (m p == m q) then strncmp (p + 1) (q + 1) n m else sub_ℕ (m p) (m q)

-- `while(n-- > 0) *s++ = 0`
pad : ℕ → ℕ → Mem → Mem
pad s zero m = m
pad s (suc n) m = pad (s + 1) n (update m s 0)

-- A negative `n` makes no round, as 0 does.
unfoldable pub strncpy : ℕ → ℕ → ℕ → Mem → Mem
unfolding pad
strncpy s t zero m = m
strncpy s t (suc n) m =
    let rest = strncpy (s + 1) (t + 1) n (update m s (m t)) in
    if m t == 0 then pad (s + 1) n (update m s (m t)) else rest

-- `while(--n > 0 && (*s++ = *t++) != 0); *s = 0`, with `n` rounds left
safe_loop : ℕ → ℕ → ℕ → Mem → Mem
safe_loop s t zero m = update m s 0
safe_loop s t (suc n) m =
    let rest = safe_loop (s + 1) (t + 1) n (update m s (m t)) in
    if m t == 0 then update (update m s (m t)) (s + 1) 0 else rest

unfoldable pub safestrcpy : ℕ → ℕ → ℕ → Mem → Mem
unfolding safe_loop
safestrcpy s t zero m = m
safestrcpy s t (suc n) m = safe_loop s t n m

-- `for(n = 0; s[n]; n++)`; `none` means that the fuel ran out.
strlen_loop : ℕ → ℕ → ℕ → Mem → Option ℕ
strlen_loop zero s n m = none
strlen_loop (suc fuel) s n m =
    let rest = strlen_loop fuel s (n + 1) m in if m (s + n) == 0 then some n else rest

unfoldable pub strlen : ℕ → ℕ → Mem → Option ℕ
unfolding strlen_loop
strlen fuel s m = strlen_loop fuel s 0 m
