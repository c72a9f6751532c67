-- ===== src/Ulib/Move.antt =====
-- The `memmove` of the user library does what the kernel's does, though it chooses its direction
-- by another test.
use operating_systems.Prelude.{ℕ, zero, suc, ◌+◌, ◌-◌, ◌≤◌, ◌≡◌, sym, ◌∙◌, fun_ext, arith, update}
use operating_systems.KString.{Mem}
use operating_systems.KString as Kernel
use operating_systems.KString.Move.{overlay, memmove_lem}
use operating_systems.Ulib.{up, down, memmove}

up_lem : (n d s : ℕ) (m : Mem) (a : ℕ) → d ≤ s → up n d s m a ≡ overlay d n (λ k. m (s + k)) m a
unfolding up
up_lem zero d s m a h = ground arith
up_lem (suc n) d s m a h = ground (arith, up_lem n (d + 1) (s + 1) (update m d (m s)) a)

down_lem :
    (n d s : ℕ) (m : Mem) (a : ℕ)
    → s ≤ d
    → down n (d + n) (s + n) m a ≡ overlay d n (λ k. m (s + k)) m a
unfolding down
down_lem zero d s m a h = ground arith
down_lem (suc n) d s m a h =
    rw (last d, last s) (ground (arith, down_lem n d s (update m (d + n) (m (s + n))) a))
  where
    last : (x : ℕ) → x + suc n - 1 ≡ x + n
    last x = omega arith

user_lem : (dst src n : ℕ) (m : Mem) → memmove dst src n m ≡ overlay dst n (λ k. m (src + k)) m
unfolding memmove
user_lem dst src n m = fun_ext (λ a. ground (arith, up_lem n dst src m a, down_lem n dst src m a))

-- The user library's `memmove` and the kernel's make one memory of another in the same way.
pub memmove-eq_kernel : (dst src n : ℕ) (m : Mem) → memmove dst src n m ≡ Kernel.memmove dst src n m
memmove-eq_kernel dst src n m = user_lem dst src n m ∙ sym (memmove_lem dst src n m)
