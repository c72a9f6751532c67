-- ===== src/KString/Copy.antt =====
-- What `strncpy` and `safestrcpy` write, and how a name written by `strncpy` compares.
use operating_systems.Prelude.{
  ℕ, zero, suc, ◌+◌, ◌-◌, ◌≤◌, ◌<◌, ◌≡◌, refl, sym, ap, fun_ext, subst, ◌≢◌, ◌↔◌, ◌⊎◌, List, [],
  ◌∷◌, arith, length, get_or, take, update,
}
use operating_systems.Prelude.Int.{pos}
use operating_systems.KString.{Mem, pad, strncpy, strncmp, safe_loop, safestrcpy}
use operating_systems.KString.Move.{overlay}
use operating_systems.KString.Compare.{HasString, HasField, HasField-of_HasString, strncmp-eq_zero}

pad_lem : (n s : ℕ) (m : Mem) (a : ℕ) → pad s n m a ≡ overlay s n (λ _. 0) m a
unfolding pad
pad_lem zero s m a = ground arith
pad_lem (suc n) s m a = ground (arith, pad_lem n (s + 1) (update m s 0) a)

-- Two blocks with no byte in common.
abbrev pub Apart : ℕ → ℕ → ℕ → ℕ → Type 0
Apart s n t k = (s + n ≤ t) ⊎ (t + k ≤ s)

HasString-update :
    (m : Mem) (t : ℕ) (xs : List ℕ) (s v : ℕ)
    → Apart s 1 t (length xs + 1)
    → HasString m t xs
    → HasString (update m s v) t xs
HasString-update m t [] s v a h = ground arith
HasString-update m t (x ∷ xs) s v a h =
    (ground arith, h.1, HasString-update m (t + 1) xs s v (ground arith) h.2)

get_or-cons : (x : ℕ) (xs : List ℕ) (k : ℕ) → k ≢ 0 → get_or (x ∷ xs) k 0 ≡ get_or xs (k - 1) 0
get_or-cons x xs zero h = absurd (h refl)
get_or-cons x xs (suc k) h = ap (λ j. get_or xs j 0) (omega arith)

strncpy-at :
    (n s t : ℕ) (m : Mem) (xs : List ℕ) (a : ℕ)
    → HasString m t xs
    → Apart s n t (length xs + 1)
    → strncpy s t n m a ≡ overlay s n (λ k. get_or xs k 0) m a
unfolding strncpy
strncpy-at zero s t m xs a h apart = ground arith
strncpy-at (suc n) s t m [] a h apart = ground (arith, pad_lem n (s + 1) (update m s (m t)) a)
strncpy-at (suc n) s t m (x ∷ xs) a h apart = ground (
  arith,
  get_or-cons x xs (a - s),
  strncpy-at n (s + 1) (t + 1) (update m s (m t)) xs a
      (HasString-update m (t + 1) xs s (m t) (ground arith) h.2) (ground arith),
)

-- `strncpy` writes exactly the `n` bytes from `s`: the string, cut at `n`, and zeros behind it. The
-- two must not overlap.
pub strncpy_lem :
    (s t n : ℕ) (m : Mem) (xs : List ℕ)
    → HasString m t xs
    → Apart s n t (length xs + 1)
    → strncpy s t n m ≡ overlay s n (λ k. get_or xs k 0) m
strncpy_lem s t n m xs h a = fun_ext (λ i. strncpy-at n s t m xs i h a)

overlay-HasField :
    (n s : ℕ) (m : Mem) (xs : List ℕ) (r : Mem) (t : ℕ)
    → HasString r t xs
    → ((k : ℕ) → k < n → m (s + k) ≡ get_or xs k 0)
    → HasField m s n xs
overlay-HasField zero s m xs r t h e = tt
overlay-HasField (suc n) s m [] r t h e = ground (arith, e 0)
overlay-HasField (suc n) s m (x ∷ xs) r t h e = (
  ground (arith, e 0),
  h.1,
  overlay-HasField n (s + 1) m xs r (t + 1) h.2 (λ k lt. ground (arith, e (suc k))),
)

-- A name that `strncpy` has put in a field of `n` bytes compares by `strncmp` as equal to exactly the
-- strings that agree with it in the first `n` characters, a full field without a final 0 included.
pub strncmp-strncpy :
    (s t q n : ℕ) (m : Mem) (xs ys : List ℕ)
    → HasString m t xs
    → Apart s n t (length xs + 1)
    → HasString (strncpy s t n m) q ys
    → (strncmp q s n (strncpy s t n m) ≡ pos 0) ↔ (take n ys ≡ take n xs)
strncmp-strncpy s t q n m xs ys h a k =
    strncmp-eq_zero (strncpy s t n m) n q s ys xs (HasField-of_HasString (strncpy s t n m) n q ys k)
      (overlay-HasField n s (strncpy s t n m) xs m t h
        (λ i lt. rw (strncpy_lem s t n m xs h a) (ground (arith, sub-add i))))
  where
    sub-add : (i : ℕ) → get_or xs (s + i - s) 0 ≡ get_or xs i 0
    sub-add i = ap (λ j. get_or xs j 0) (omega arith)

safe_loop-zero : (n s t : ℕ) (m : Mem) → m t ≡ 0 → safe_loop s t n m s ≡ 0
unfolding safe_loop
safe_loop-zero zero s t m h = ground arith
safe_loop-zero (suc n) s t m h = ground arith

safe_loop-suc :
    (n s t : ℕ) (m : Mem)
    → m t ≢ 0
    → safe_loop s t (suc n) m ≡ safe_loop (s + 1) (t + 1) n (update m s (m t))
unfolding safe_loop
safe_loop-suc n s t m h = ground arith

-- Nothing outside the `n + 1` bytes from `s` changes.
safe_loop-outside :
    (n s t : ℕ) (m : Mem) (a : ℕ) → (a < s) ⊎ (s + n < a) → safe_loop s t n m a ≡ m a
unfolding safe_loop
safe_loop-outside zero s t m a out = ground arith
safe_loop-outside (suc n) s t m a out =
    ground (arith, safe_loop-outside n (s + 1) (t + 1) (update m s (m t)) a)

safe_loop-HasString :
    (n s t : ℕ) (m : Mem) (xs : List ℕ)
    → HasString m t xs
    → Apart s (n + 1) t (length xs + 1)
    → HasString (safe_loop s t n m) s (take n xs)
safe_loop-HasString zero s t m xs h apart = unfold safe_loop in ground arith
safe_loop-HasString (suc n) s t m [] h apart = safe_loop-zero (suc n) s t m h
safe_loop-HasString (suc n) s t m (x ∷ xs) h apart =
    let step = safe_loop-suc n s t m (ground arith) in
    (
      ground (arith, ap (λ f. f s) step, safe_loop-outside n (s + 1) (t + 1) (update m s (m t)) s),
      h.1,
      subst (λ f. HasString f (s + 1) (take n xs)) (sym step)
          (safe_loop-HasString n (s + 1) (t + 1) (update m s (m t)) xs
            (HasString-update m (t + 1) xs s (m t) (ground arith) h.2) (ground arith)),
    )

-- `safestrcpy` leaves a string at `s`, the source cut at `n - 1` characters, and changes nothing
-- outside the `n` bytes from `s`. The two must not overlap.
pub safestrcpy_lem :
    (s t n : ℕ) (m : Mem) (xs : List ℕ)
    → 0 < n
    → HasString m t xs
    → Apart s n t (length xs + 1)
    → HasString (safestrcpy s t n m) s (take (n - 1) xs)
      × ((a : ℕ) → (a < s) ⊎ (s + n ≤ a) → safestrcpy s t n m a ≡ m a)
unfolding safestrcpy
safestrcpy_lem s t zero m xs pos_n h a = elim pos_n [ ]
safestrcpy_lem s t (suc n) m xs pos_n h a = (
  rw (pred n) (safe_loop-HasString n s t m xs h (ground arith)),
  λ i out. safe_loop-outside n s t m i (ground arith),
)
  where
    pred : (k : ℕ) → suc k - 1 ≡ k
    pred k = omega arith
