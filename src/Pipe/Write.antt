-- ===== src/Pipe/Write.antt =====
-- What a pass of `pipewrite` does to the bytes in the pipe.
use operating_systems.Prelude.{
  ℕ, zero, suc, ◌+◌, ◌-◌, ◌≤◌, ◌<◌, ◌≡◌, refl, sym, ap, ◌∙◌, subst, ◌⊎◌, inl, inr, Bool, true,
  false, ◌||◌, not, Option, none, some, List, [], ◌∷◌, ◌++◌, append_assoc, append-nil, arith, ◌==◌,
  Bool-cases, Option-cases, length,
}
use native.Mathlib.Nat.{add-zero}
use operating_systems.Pipe.{
  on_nread, Pipe, pipesize, add_uint, push, Outcome, sleeps, returns, fails, Pass, write_loop,
  pipewrite, Channel,
}
use operating_systems.Pipe.Ring.{count, IsValid, contents, full_iff, push-IsValid, contents-push}

-- `copyin` reads the bytes `ws` from index `i` on.
abbrev pub Reads : (ℕ → Option ℕ) → ℕ → List ℕ → Type 0
Reads copyin i [] = Unit
Reads copyin i (w ∷ ws) = (copyin i ≡ some w) × Reads copyin (i + 1) ws

-- Why a pass of `pipewrite` ends at index `j`.
abbrev pub Ends : (ℕ → Option ℕ) → (ℕ → Bool) → ℕ → Pipe → Outcome → ℕ → Type 0
Ends copyin killed n p (sleeps i) j =
    (i ≡ j) × (count p ≡ pipesize) × (j < n) × (p.readopen ≡ true) × (killed j ≡ false)
Ends copyin killed n p (returns i) j =
    (i ≡ j)
    × ((j ≡ n)
        ⊎ ((copyin j ≡ none) × (p.readopen ≡ true) × (killed j ≡ false) × (count p < pipesize)))
Ends copyin killed n p (fails i) j = (i ≡ j) × ((p.readopen ≡ false) ⊎ (killed j ≡ true)) × (j < n)

-- The readers are woken unless the pass fails.
abbrev pub Wakes : Outcome → List Channel → Type 0
Wakes (fails i) woken = woken ≡ []
Wakes _ woken = woken ≡ on_nread ∷ []

-- The bytes `ws`, from index `i` on, have gone from user memory to the end of the pipe.
pub record Wrote (copyin : ℕ → Option ℕ) (killed : ℕ → Bool) (n i : ℕ) (p : Pipe) (r : Pass)
    (ws : List ℕ) : Type 0 where
  pub valid : IsValid r.pipe
  pub bytes : contents r.pipe ≡ contents p ++ ws
  pub source : Reads copyin i ws
  pub ended : Ends copyin killed n r.pipe r.outcome (i + length ws)
  pub allowed : (k : ℕ) → i ≤ k → k < i + length ws → (p.readopen ≡ true) × (killed k ≡ false)
  pub wakes : Wakes r.outcome r.woken
  pub ends_kept : (r.pipe.readopen ≡ p.readopen) × (r.pipe.writeopen ≡ p.writeopen)

not_full :
    {p : Pipe} → IsValid p → (p.nwrite == add_uint p.nread pipesize) ≡ false → count p < pipesize
not_full v h = ground arith

push-readopen : (p : Pipe) (ch : ℕ) → (push p ch).readopen ≡ p.readopen
unfolding push
push-readopen p ch = refl

push-writeopen : (p : Pipe) (ch : ℕ) → (push p ch).writeopen ≡ p.writeopen
unfolding push
push-writeopen p ch = refl

module _ (copyin : ℕ → Option ℕ) (killed : ℕ → Bool) where
  -- The rounds of the loop.
  stop :
      (left i : ℕ) (p : Pipe)
      → (not p.readopen || killed i) ≡ true
      → write_loop copyin killed (suc left) i p ≡ record { pipe = p; outcome = fails i; woken = [] }
  unfolding write_loop
  stop left i p h = rw h

  wait :
      (left i : ℕ) (p : Pipe)
      → (not p.readopen || killed i) ≡ false
      → (p.nwrite == add_uint p.nread pipesize) ≡ true
      → write_loop copyin killed (suc left) i p
        ≡ record { pipe = p; outcome = sleeps i; woken = on_nread ∷ [] }
  unfolding write_loop
  wait left i p h f = rw (h, f)

  fault :
      (left i : ℕ) (p : Pipe)
      → (not p.readopen || killed i) ≡ false
      → (p.nwrite == add_uint p.nread pipesize) ≡ false
      → copyin i ≡ none
      → write_loop copyin killed (suc left) i p
        ≡ record { pipe = p; outcome = returns i; woken = on_nread ∷ [] }
  unfolding write_loop
  fault left i p h f c = rw (h, f, c)

  copy :
      (left i : ℕ) (p : Pipe) (ch : ℕ)
      → (not p.readopen || killed i) ≡ false
      → (p.nwrite == add_uint p.nread pipesize) ≡ false
      → copyin i ≡ some ch
      → write_loop copyin killed (suc left) i p ≡ write_loop copyin killed left (i + 1) (push p ch)
  unfolding write_loop
  copy left i p ch h f c = rw (h, f, c)

  none_written :
      (n i : ℕ) (p : Pipe) (r : Pass)
      → r.pipe ≡ p
      → IsValid p
      → Ends copyin killed n p r.outcome i
      → Wakes r.outcome r.woken
      → (ws : List ℕ) × Wrote copyin killed n i p r ws
  none_written n i p r e v h wakes = (
    [],
    record {
      valid = rw e v;
      bytes = rw e (sym (append-nil (contents p)));
      source = tt;
      ended = rw (e, add-zero) h;
      allowed = λ k lo hi. absurd (omega arith);
      wakes = wakes;
      ends_kept = (ap (λ (q : Pipe). q.readopen) e, ap (λ (q : Pipe). q.writeopen) e);
    },
  )

  -- One byte more in front.
  Wrote-cons :
      (n i : ℕ) (p : Pipe) (ch : ℕ) (r : Pass) (ws : List ℕ)
      → contents (push p ch) ≡ contents p ++ (ch ∷ [])
      → copyin i ≡ some ch
      → (p.readopen ≡ true) × (killed i ≡ false)
      → Wrote copyin killed n (i + 1) (push p ch) r ws
      → Wrote copyin killed n i p r (ch ∷ ws)
  Wrote-cons n i p ch r ws first c go w = record {
    valid = w.valid;
    bytes = w.bytes ∙ ap (λ b. b ++ ws) first ∙ append_assoc (contents p) (ch ∷ []) ws;
    source = (c, w.source);
    ended = subst (λ j. Ends copyin killed n r.pipe r.outcome j) (omega arith) w.ended;
    allowed = λ k lo hi. elim (Bool-cases (i == k)) [
      | inl y ↦ let same : i ≡ k = ground arith in (go.0, subst (λ z. killed z ≡ false) same go.1)
      | inr o ↦ (go.0, (w.allowed k (ground arith) (omega arith)).1)
    ];
    wakes = w.wakes;
    ends_kept = (w.ends_kept.0 ∙ push-readopen p ch, w.ends_kept.1 ∙ push-writeopen p ch);
  }

  write_loop-Wrote :
      (n left i : ℕ) (p : Pipe)
      → i + left ≡ n
      → IsValid p
      → (ws : List ℕ) × Wrote copyin killed n i p (write_loop copyin killed left i p) ws
  write_loop-Wrote n zero i p e v =
      none_written n i p _ (unfold write_loop in refl) v
        (unfold write_loop in (refl, inl (omega arith))) (unfold write_loop in refl)
  write_loop-Wrote n (suc left) i p e v = elim (Bool-cases (not p.readopen || killed i)) [
    | inl s ↦
        rw (stop left i p s) (none_written n i p _ refl v (refl, ground arith, omega arith) refl)
    | inr go ↦
        let able : (p.readopen ≡ true) × (killed i ≡ false) = (ground arith, ground arith) in
        elim (Bool-cases (p.nwrite == add_uint p.nread pipesize)) [
          | inl full ↦ rw (wait left i p go full) (
              none_written n i p _ refl v (refl, (full_iff v).0 full, omega arith, able.0, able.1)
                refl)
          | inr room ↦ elim (Option-cases (copyin i)) [
            | inl c ↦
                rw (fault left i p go room c) (
                  none_written n i p _ refl v (refl, inr (c, able.0, able.1, not_full v room)) refl)
            | inr (ch, c) ↦ rw (copy left i p ch go room c) (
                let below = not_full v room in
                let (ws, w) =
                  write_loop-Wrote n left (i + 1) (push p ch) (omega arith)
                    (push-IsValid ch v below) in
                (ch ∷ ws, Wrote-cons n i p ch _ ws (contents-push ch v below) c able w))
          ]
        ]
  ]

  -- A pass of `pipewrite` over a valid pipe keeps it valid and appends, in order, exactly the bytes of
  -- user memory from its index on up to the index where it ends; at each of them the pipe has a reader
  -- and the caller has not been killed. It ends asleep only at a full pipe, or at a failed `copyin`
  -- with room in the pipe by returning the index, in both cases with a reader and a caller that has
  -- not been killed; with `n` when all bytes are in; and with -1 only if there is no reader or the
  -- caller has been killed. It wakes the readers unless it ends with -1.
  pub pipewrite_lem :
      (n i : ℕ) (p : Pipe)
      → i ≤ n
      → IsValid p
      → (ws : List ℕ) × Wrote copyin killed n i p (pipewrite copyin killed n i p) ws
  unfolding pipewrite
  pipewrite_lem n i p h v = write_loop-Wrote n (n - i) i p (omega arith) v
