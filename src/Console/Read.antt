-- ===== src/Console/Read.antt =====
-- What a pass of `consoleread` takes of the line.
use operating_systems.Prelude.{
  ℕ, zero, suc, ◌+◌, ◌-◌, ◌%◌, ◌≤◌, ◌<◌, ◌≡◌, refl, sym, ap, ap₂, ◌∙◌, subst, ◌≢◌, inl, inr, Bool,
  true, false, List, [], ◌∷◌, ◌++◌, arith, ltb, ◌==◌, if◌then◌else◌, Bool-cases, length, get_or,
}
use operating_systems.Console.{
  Cons, Outcome, sleeps, returns, fails, input_buf, newline, control, plus, minus, consoleread,
}
use operating_systems.Console.Ring.{IsValid, count, ready, window, line}
use operating_systems.Console.Line.{Line, view, made}

module _ (copyout : ℕ → ℕ → Bool) (killed : Bool) (target : ℕ) where
  -- A pass with `n` characters wanted takes the characters `out` off the line, leaves the line `l`,
  -- and ends in this way. It takes no more than a line, control-D ends it like a line but is handed
  -- to nobody, and stays where characters have been handed over already.
  pub data Told : ℕ → List ℕ → Line → Outcome → Type 0 where
    has_all : {l : Line} → Told 0 [] l (returns target)
    waits : {n : ℕ} {l : Line} → l.ready ≡ 0 → killed ≡ false → Told (suc n) [] l (sleeps (suc n))
    gives_up : {n : ℕ} {l : Line} → l.ready ≡ 0 → killed ≡ true → Told (suc n) [] l fails
    ends_later :
        {n k : ℕ} {chars : List ℕ}
        → suc n < target
        → Told (suc n) [] (made (control b'D' ∷ chars) (suc k)) (returns (target - suc n))
    ends_now :
        {n : ℕ} {l : Line}
        → target ≤ suc n
        → Told (suc n) (control b'D' ∷ []) l (returns (target - suc n))
    loses :
        {n c : ℕ} {l : Line}
        → copyout (target - suc n) c ≡ false
        → Told (suc n) (c ∷ []) l (returns (target - suc n))
    ends_line :
        {n : ℕ} {l : Line}
        → copyout (target - suc n) newline ≡ true
        → Told (suc n) (newline ∷ []) l (returns (target - n))
    hands_over :
        {n c : ℕ} {out : List ℕ} {l : Line} {o : Outcome}
        → c ≢ newline
        → c ≢ control b'D'
        → copyout (target - suc n) c ≡ true
        → Told n out l o
        → Told (suc n) (c ∷ out) l o

abbrev next : Cons → Cons
next s = record s { r = plus s.r 1 }

next-IsValid : (s : Cons) → IsValid s → s.r ≢ s.w → IsValid (next s)
next-IsValid s v ne = record {
  ring = v.ring;
  r_fits = omega arith;
  w_fits = v.w_fits;
  e_fits = v.e_fits;
  bounded = omega arith;
  ordered = omega arith;
  one_line = λ i lo hi e.
      v.one_line (suc i) (omega arith) (omega arith)
        (ap (λ j. get_or s.buf (j % input_buf) 0) (shift i) ∙ e);
}
  where
    shift : (i : ℕ) → plus s.r (suc i) ≡ plus (plus s.r 1) i
    shift i = omega arith

line-next :
    (s : Cons) → IsValid s → s.r ≢ s.w → line s ≡ get_or s.buf (s.r % input_buf) 0 ∷ line (next s)
line-next s v ne = ap (window s.buf s.r) one_less
  where
    one_less : count s ≡ suc (count (next s))
    one_less = omega arith

-- The characters `out` have been taken off the line of `s`, and `t` is left.
pub record Took (s t : Cons) (out : List ℕ) : Type 0 where
  pub valid : IsValid t
  pub chars : line s ≡ out ++ line t
  pub lines : ready s ≡ length out + ready t
  pub same_end : t.e ≡ s.e

Took-none : (s : Cons) → IsValid s → Took s s []
Took-none s v = record { valid = v; chars = refl; lines = omega arith; same_end = refl }

Took-next :
    (s t : Cons) (out : List ℕ)
    → IsValid s
    → s.r ≢ s.w
    → Took (next s) t out
    → Took s t (get_or s.buf (s.r % input_buf) 0 ∷ out)
Took-next s t out v ne k = record {
  valid = k.valid;
  chars = line-next s v ne ∙ ap (λ l. get_or s.buf (s.r % input_buf) 0 ∷ l) k.chars;
  lines = omega (arith, k.lines);
  same_end = k.same_end;
}

-- What a pass with `n` characters wanted may come to at `s`.
abbrev pub IsPass : (ℕ → ℕ → Bool) → Bool → ℕ → ℕ → Cons → Cons × Outcome → Type 0
IsPass copyout killed target n s p =
    (out : List ℕ) × Took s p.0 out × Told copyout killed target n out (view p.0) p.1

module _ (copyout : ℕ → ℕ → Bool) (killed : Bool) (target : ℕ) where
  empty_lem :
      (n : ℕ) (s : Cons) (b : Bool)
      → killed ≡ b
      → IsValid s
      → s.r ≡ s.w
      → IsPass copyout killed target (suc n) s (s, if b then fails else sleeps (suc n))
  empty_lem n s true k v e = ([], Took-none s v, gives_up (omega arith) k)
  empty_lem n s false k v e = ([], Took-none s v, waits (omega arith) k)

  -- The first character is taken, and it is `c`.
  Took-one :
      (s : Cons) (c : ℕ)
      → IsValid s
      → s.r ≢ s.w
      → get_or s.buf (s.r % input_buf) 0 ≡ c
      → Took s (next s) (c ∷ [])
  Took-one s c v ne e =
      subst (λ d. Took s (next s) (d ∷ [])) e
        (Took-next s (next s) [] v ne (Took-none (next s) (next-IsValid s v ne)))

  end_lem :
      (n : ℕ) (s : Cons) (b : Bool)
      → ltb (suc n) target ≡ b
      → IsValid s
      → s.r ≢ s.w
      → get_or s.buf (s.r % input_buf) 0 ≡ control b'D'
      → IsPass copyout killed target (suc n) s (
        if b then record (next s) { r = minus (next s).r 1 } else next s,
        returns (target - suc n),
      )
  end_lem n s true k v ne e =
      let same : s.r ≡ minus (plus s.r 1) 1 = omega arith in
      let shape : made (control b'D' ∷ line (next s)) (suc (ready (next s))) ≡ view s =
        ap₂ made (ap (λ c. c ∷ line (next s)) (sym e) ∙ sym (line-next s v ne)) (omega arith) in
      subst
        (λ r. IsPass copyout killed target (suc n) s (record s { r = r }, returns (target - suc n)))
        same
        (
          [],
          Took-none s v,
          subst (λ l. Told copyout killed target (suc n) [] l (returns (target - suc n))) shape
              (ends_later (ground arith)),
        )
  end_lem n s false k v ne e =
      (control b'D' ∷ [], Took-one s (control b'D') v ne e, ends_now (ground arith))

  -- A pass of `consoleread` over a valid ring takes characters off the front of its line, only ready
  -- ones, in their order, and ends as `Told` says.
  pub consoleread_lem :
      (n : ℕ) (s : Cons)
      → IsValid s
      → IsPass copyout killed target n s (consoleread copyout killed target n s)
  unfolding consoleread
  consoleread_lem zero s v = ([], Took-none s v, has_all)
  consoleread_lem (suc n) s v = elim (Bool-cases (s.r == s.w)) [
    | inl empty ↦ rw empty (empty_lem n s killed refl v (ground arith))
    | inr more ↦
        let ne : s.r ≢ s.w = ground arith in
        let c = get_or s.buf (s.r % input_buf) 0 in
        elim (Bool-cases (c == control b'D')) [
          | inl d ↦ rw (more, d) (end_lem n s (ltb (suc n) target) refl v ne (ground arith))
          | inr nd ↦ elim (Bool-cases (copyout (target - suc n) c)) [
            | inr bad ↦ rw (more, nd, bad) (c ∷ [], Took-one s c v ne refl, loses bad)
            | inl ok ↦ elim (Bool-cases (c == newline)) [
              | inl nl ↦
                  let is_newline : c ≡ newline = ground arith in
                  rw (more, nd, ok, nl)
                    (
                      newline ∷ [],
                      Took-one s newline v ne is_newline,
                      ends_line (subst (λ d. copyout (target - suc n) d ≡ true) is_newline ok),
                    )
              | inr more_line ↦
                  let rest = consoleread_lem n (next s) (next-IsValid s v ne) in
                  rw (more, nd, ok, more_line)
                    (
                      c ∷ rest.0,
                      Took-next s (consoleread copyout killed target n (next s)).0 rest.0 v ne
                          rest.1,
                      hands_over (ground arith) (ground arith) ok rest.2,
                    )
            ]
          ]
        ]
  ]
