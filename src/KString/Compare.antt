-- ===== src/KString/Compare.antt =====
-- What the string functions compute of strings in memory.
use operating_systems.Prelude.{
  ℕ, zero, suc, ◌+◌, ◌<◌, ◌≡◌, refl, subst, ◌≢◌, ◌↔◌, some, List, [], ◌∷◌, arith, length, take,
}
use operating_systems.Prelude.Int.{pos, sub_ℕ-eq_zero}
use native.Mathlib.Nat.{add_assoc, add-zero}
use operating_systems.KString.{Mem, memcmp, strncmp, strlen_loop, strlen}

-- The bytes of `xs`, none of them 0, stand at `s`, and a 0 behind them.
abbrev pub HasString : Mem → ℕ → List ℕ → Type 0
HasString m s [] = m s ≡ 0
HasString m s (x ∷ xs) = (m s ≡ x) × (x ≢ 0) × HasString m (s + 1) xs

-- The same, as far as the first `n` bytes show it: a field of fixed width.
abbrev pub HasField : Mem → ℕ → ℕ → List ℕ → Type 0
HasField m s zero xs = Unit
HasField m s (suc n) [] = m s ≡ 0
HasField m s (suc n) (x ∷ xs) = (m s ≡ x) × (x ≢ 0) × HasField m (s + 1) n xs

pub HasField-of_HasString : (m : Mem) (n s : ℕ) (xs : List ℕ) → HasString m s xs → HasField m s n xs
HasField-of_HasString m zero s xs h = tt
HasField-of_HasString m (suc n) s [] h = h
HasField-of_HasString m (suc n) s (x ∷ xs) h = (h.0, h.1, HasField-of_HasString m n (s + 1) xs h.2)

-- `strncmp` is 0 exactly when the first `n` characters agree.
pub strncmp-eq_zero :
    (m : Mem) (n p q : ℕ) (xs ys : List ℕ)
    → HasField m p n xs
    → HasField m q n ys
    → (strncmp p q n m ≡ pos 0) ↔ (take n xs ≡ take n ys)
unfolding strncmp
strncmp-eq_zero m zero p q xs ys h k = ground arith
strncmp-eq_zero m (suc n) p q [] [] h k = ground arith
strncmp-eq_zero m (suc n) p q [] (y ∷ ys) h k = ground arith
strncmp-eq_zero m (suc n) p q (x ∷ xs) [] h k = ground arith
strncmp-eq_zero m (suc n) p q (x ∷ xs) (y ∷ ys) h k =
    ground (arith, sub_ℕ-eq_zero x y, strncmp-eq_zero m n (p + 1) (q + 1) xs ys h.2 k.2)

memcmp-eq : (m : Mem) (v1 v2 n i : ℕ) → memcmp v1 v2 n m ≡ pos 0 → i < n → m (v1 + i) ≡ m (v2 + i)
unfolding memcmp
memcmp-eq m v1 v2 zero i e h = elim h [ ]
memcmp-eq m v1 v2 (suc n) zero e h = ground (arith, sub_ℕ-eq_zero (m v1) (m v2))
memcmp-eq m v1 v2 (suc n) (suc i) e h =
    ground (arith, sub_ℕ-eq_zero (m v1) (m v2), memcmp-eq m (v1 + 1) (v2 + 1) n i)

memcmp_of_eq :
    (m : Mem) (v1 v2 n : ℕ) → ((i : ℕ) → i < n → m (v1 + i) ≡ m (v2 + i)) → memcmp v1 v2 n m ≡ pos 0
unfolding memcmp
memcmp_of_eq m v1 v2 zero h = refl
memcmp_of_eq m v1 v2 (suc n) h =
    ground (arith, h 0, memcmp_of_eq m (v1 + 1) (v2 + 1) n (λ i lt. ground (arith, h (suc i))))

-- `memcmp` is 0 exactly when the two blocks of `n` bytes are equal.
pub memcmp-eq_zero :
    (m : Mem) (v1 v2 n : ℕ)
    → (memcmp v1 v2 n m ≡ pos 0) ↔ ((i : ℕ) → i < n → m (v1 + i) ≡ m (v2 + i))
memcmp-eq_zero m v1 v2 n = (λ e i h. memcmp-eq m v1 v2 n i e h, memcmp_of_eq m v1 v2 n)

strlen_loop_lem :
    (m : Mem) (s : ℕ) (xs : List ℕ) (k fuel : ℕ)
    → HasString m (s + k) xs
    → length xs < fuel
    → strlen_loop fuel s k m ≡ some (k + length xs)
unfolding strlen_loop
strlen_loop_lem m s xs k zero h f = elim f [ ]
strlen_loop_lem m s [] k (suc fuel) h f = ground arith
strlen_loop_lem m s (x ∷ xs) k (suc fuel) h f =
    let here = subst (λ a. HasString m a xs) (add_assoc s k 1) h.2 in
    ground (arith, strlen_loop_lem m s xs (k + 1) fuel here)

-- `strlen` ends on a string, and counts the bytes before its 0.
pub strlen_lem :
    (m : Mem) (s : ℕ) (xs : List ℕ) (fuel : ℕ)
    → HasString m s xs
    → length xs < fuel
    → strlen fuel s m ≡ some (length xs)
unfolding strlen
strlen_lem m s xs fuel h f = ground (arith, strlen_loop_lem m s xs 0 fuel (rw add-zero h))
