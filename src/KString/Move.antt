-- ===== src/KString/Move.antt =====
-- `memset`, `memmove` and `memcpy` write exactly the bytes they should, also where the source and
-- the destination overlap.
use operating_systems.Prelude.{
  ℕ, zero, suc, ◌+◌, ◌-◌, ◌%◌, ◌≤◌, ◌≡◌, fun_ext, ◌⊎◌, ◌&&◌, arith, ltb, leb, if◌then◌else◌, update,
}
use operating_systems.KString.{Mem, set_loop, memset, copy_up, copy_down, memmove}

-- The byte at `a` after a block of `n` bytes, given by their offsets, is written at `d`.
abbrev pub overlay : ℕ → ℕ → (ℕ → ℕ) → Mem → Mem
overlay d n block m a = if leb d a && ltb a (d + n) then block (a - d) else m a

set_loop_lem :
    (n i dst c : ℕ) (m : Mem) (a : ℕ)
    → set_loop n i dst c m a ≡ overlay (dst + i) n (λ _. c % 256) m a
unfolding set_loop
set_loop_lem zero i dst c m a = ground arith
set_loop_lem (suc n) i dst c m a =
    ground (arith, set_loop_lem n (i + 1) dst c (update m (dst + i) (c % 256)) a)

-- `memset` writes the low byte of `c` to the `n` bytes from `dst`, and nothing else.
pub memset_lem : (dst c n : ℕ) (m : Mem) → memset dst c n m ≡ overlay dst n (λ _. c % 256) m
unfolding memset
memset_lem dst c n m = fun_ext (λ a. ground (arith, set_loop_lem n 0 dst c m a))

-- Copying upwards reads no byte that it has written, unless the destination lies inside the source
-- and above its start.
copy_up_lem :
    (n d s : ℕ) (m : Mem) (a : ℕ)
    → (d ≤ s) ⊎ (s + n ≤ d)
    → copy_up n d s m a ≡ overlay d n (λ k. m (s + k)) m a
unfolding copy_up
copy_up_lem zero d s m a h = ground arith
copy_up_lem (suc n) d s m a h = ground (arith, copy_up_lem n (d + 1) (s + 1) (update m d (m s)) a)

-- Copying downwards, from the ends of the two blocks.
copy_down_lem :
    (n d s : ℕ) (m : Mem) (a : ℕ)
    → (s ≤ d) ⊎ (d + n ≤ s)
    → copy_down n (d + n) (s + n) m a ≡ overlay d n (λ k. m (s + k)) m a
unfolding copy_down
copy_down_lem zero d s m a h = ground arith
copy_down_lem (suc n) d s m a h =
    rw (last d, last s) (ground (arith, copy_down_lem n d s (update m (d + n) (m (s + n))) a))
  where
    last : (x : ℕ) → x + suc n - 1 ≡ x + n
    last x = omega arith

-- `memmove` copies the `n` bytes that stood at `src` before the call to `dst`, whether or not the
-- two blocks overlap, and changes no other byte.
pub memmove_lem :
    (dst src n : ℕ) (m : Mem) → memmove dst src n m ≡ overlay dst n (λ k. m (src + k)) m
unfolding memmove
memmove_lem dst src n m =
    fun_ext (λ a. ground (arith, copy_up_lem n dst src m a, copy_down_lem n dst src m a))
