-- ===== src/Pipe/Read.antt =====
-- What a pass of `piperead` does to the bytes in the pipe.
use operating_systems.Prelude.{
  ℕ, zero, suc, ◌+◌, ◌%◌, ◌≡◌, refl, ap, ◌∙◌, subst, ◌≢◌, ◌⊎◌, inl, inr, Bool, true, false, ◌&&◌,
  List, [], ◌∷◌, ◌++◌, arith, ◌==◌, if◌then◌else◌, Bool-cases, length, get_or,
}
use native.Mathlib.Nat.{add-zero}
use operating_systems.Pipe.{
  Channel, Pipe, pipesize, skip, sleeps, returns, fails, Pass, read_loop, piperead, on_nwrite,
}
use operating_systems.Pipe.Ring.{count, window, IsValid, contents, skip-IsValid, contents-skip}

-- `copyout` succeeds with the bytes `ws` from index `i` on.
abbrev pub Delivers : (ℕ → ℕ → Bool) → ℕ → List ℕ → Type 0
Delivers copyout i [] = Unit
Delivers copyout i (w ∷ ws) = (copyout i w ≡ true) × Delivers copyout (i + 1) ws

-- What the loop has taken when it returns at index `j`: the bytes `ws` that reached user memory, and
-- one more if `copyout` failed on it.
abbrev pub Lost : (ℕ → ℕ → Bool) → ℕ → List ℕ → Type 0
Lost copyout j [] = Unit
Lost copyout j (x ∷ xs) = (copyout j x ≡ false) × (xs ≡ [])

pub record Took (copyout : ℕ → ℕ → Bool) (n i : ℕ) (p : Pipe) (r : Pass) (ws lost : List ℕ)
    : Type 0 where
  pub valid : IsValid r.pipe
  pub bytes : contents p ≡ ws ++ (lost ++ contents r.pipe)
  pub target : Delivers copyout i ws
  pub fault : Lost copyout (i + length ws) lost
  pub ended : r.outcome ≡ returns (i + length ws)
  pub reason : (i + length ws ≡ n) ⊎ (contents r.pipe ≡ []) ⊎ (lost ≢ [])
  pub ends_kept : (r.pipe.readopen ≡ p.readopen) × (r.pipe.writeopen ≡ p.writeopen)

module _ (copyout : ℕ → ℕ → Bool) where
  abbrev next_byte : Pipe → ℕ
  next_byte p = get_or p.buf (p.nread % pipesize) 0

  empty :
      (left i : ℕ) (p : Pipe)
      → (p.nread == p.nwrite) ≡ true
      → read_loop copyout (suc left) i p
        ≡ record { pipe = p; outcome = returns i; woken = on_nwrite ∷ [] }
  unfolding read_loop
  empty left i p h = rw h

  fails_at :
      (left i : ℕ) (p : Pipe)
      → (p.nread == p.nwrite) ≡ false
      → copyout i (next_byte p) ≡ false
      → read_loop copyout (suc left) i p
        ≡ record { pipe = skip p; outcome = returns i; woken = on_nwrite ∷ [] }
  unfolding read_loop
  fails_at left i p h c = rw (h, c)

  copy :
      (left i : ℕ) (p : Pipe)
      → (p.nread == p.nwrite) ≡ false
      → copyout i (next_byte p) ≡ true
      → read_loop copyout (suc left) i p ≡ read_loop copyout left (i + 1) (skip p)
  unfolding read_loop
  copy left i p h c = rw (h, c)

  contents-empty : {p : Pipe} → IsValid p → (p.nread == p.nwrite) ≡ true → contents p ≡ []
  contents-empty {p} v h = ap (window p.buf p.nread) nothing
    where
      nothing : count p ≡ 0
      nothing = ground arith

  skip_ends : (p : Pipe) → ((skip p).readopen ≡ p.readopen) × ((skip p).writeopen ≡ p.writeopen)
  unfolding skip
  skip_ends p = (refl, refl)

  -- One byte more at the front.
  Took-cons :
      (n i : ℕ) (p : Pipe) (r : Pass) (ws lost : List ℕ)
      → contents p ≡ next_byte p ∷ contents (skip p)
      → copyout i (next_byte p) ≡ true
      → Took copyout n (i + 1) (skip p) r ws lost
      → Took copyout n i p r (next_byte p ∷ ws) lost
  Took-cons n i p r ws lost first good t =
      let shift : i + 1 + length ws ≡ i + suc (length ws) = omega arith in
      record {
        valid = t.valid;
        bytes = first ∙ ap (λ b. next_byte p ∷ b) t.bytes;
        target = (good, t.target);
        fault = subst (λ j. Lost copyout j lost) shift t.fault;
        ended = t.ended ∙ ap returns shift;
        reason = subst (λ j. (j ≡ n) ⊎ (contents r.pipe ≡ []) ⊎ (lost ≢ [])) shift t.reason;
        ends_kept = (t.ends_kept.0 ∙ (skip_ends p).0, t.ends_kept.1 ∙ (skip_ends p).1);
      }

  Took-nothing :
      (n i : ℕ) (p : Pipe) (woken : List Channel)
      → IsValid p
      → (i ≡ n) ⊎ (contents p ≡ [])
      → (ws lost : List ℕ) × Took copyout n i p
          (record { pipe = p; outcome = returns i; woken = woken })
          ws
          lost
  Took-nothing n i p woken v why = (
    [],
    [],
    record {
      valid = v;
      bytes = refl;
      target = tt;
      fault = tt;
      ended = ap returns (omega arith);
      reason = elim why [ inl e ↦ inl (omega arith) | inr e ↦ inr (inl e) ];
      ends_kept = (refl, refl);
    },
  )

  Took-lost :
      (n i : ℕ) (p : Pipe) (woken : List Channel)
      → IsValid (skip p)
      → contents p ≡ next_byte p ∷ contents (skip p)
      → copyout i (next_byte p) ≡ false
      → (ws lost : List ℕ) × Took copyout n i p
          (record { pipe = skip p; outcome = returns i; woken = woken })
          ws
          lost
  Took-lost n i p woken v first bad = (
    [],
    next_byte p ∷ [],
    record {
      valid = v;
      bytes = first;
      target = tt;
      fault = (rw add-zero bad, refl);
      ended = ap returns (omega arith);
      reason = inr (inr (ground arith));
      ends_kept = skip_ends p;
    },
  )

  read_loop-Took :
      (n left i : ℕ) (p : Pipe)
      → i + left ≡ n
      → IsValid p
      → (ws lost : List ℕ) × Took copyout n i p (read_loop copyout left i p) ws lost
  read_loop-Took n zero i p e v = unfold read_loop in Took-nothing n i p _ v (inl (omega arith))
  read_loop-Took n (suc left) i p e v = elim (Bool-cases (p.nread == p.nwrite)) [
    | inl nil ↦ rw (empty left i p nil) (Took-nothing n i p _ v (inr (contents-empty v nil)))
    | inr more ↦
        let differ : p.nread ≢ p.nwrite = ground arith in
        elim (Bool-cases (copyout i (next_byte p))) [
          | inl good ↦ rw (copy left i p more good) (
              let (ws, lost, t) =
                read_loop-Took n left (i + 1) (skip p) (omega arith) (skip-IsValid v differ) in
              (next_byte p ∷ ws, lost, Took-cons n i p _ ws lost (contents-skip v differ) good t))
          | inr bad ↦
              rw (fails_at left i p more bad)
                (Took-lost n i p _ (skip-IsValid v differ) (contents-skip v differ) bad)
        ]
  ]

  -- A pass of `piperead` that gets to its loop. It waits or gives up only while the pipe is empty and
  -- has a writer.
  pub piperead_lem :
      (killed : Bool) (n : ℕ) (p : Pipe)
      → IsValid p
      → ((contents p ≡ [])
          × (p.writeopen ≡ true)
          × ((piperead copyout killed n p).pipe ≡ p)
          × ((piperead copyout killed n p).outcome ≡ (if killed then fails 0 else sleeps 0)))
        ⊎ ((ws lost : List ℕ) × Took copyout n 0 p (piperead copyout killed n p) ws lost)
  unfolding piperead
  piperead_lem killed n p v = elim (Bool-cases ((p.nread == p.nwrite) && p.writeopen)) [
    | inl idle ↦
        rw idle (inl (contents-empty v (ground arith), ground arith, ground arith, ground arith))
    | inr go ↦ rw go (inr (read_loop-Took n n 0 p (omega arith) v))
  ]
