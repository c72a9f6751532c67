-- ===== src/Pipe/Ring.antt =====
-- The ring of a pipe holds a queue of at most `PIPESIZE` bytes; its counters may wrap.
use operating_systems.Prelude.{
  ℕ, zero, suc, ◌+◌, ◌-◌, ◌%◌, ◌^◌, ◌≤◌, ◌<◌, ◌≡◌, refl, ap, ap₂, ◌∙◌, ◌≢◌, ◌↔◌, true, List, [],
  ◌∷◌, ◌++◌, arith, ◌==◌, length, set, length-set, get_or, get_or-set_self, get_or-set_ne,
}
use operating_systems.Pipe.{Pipe, pipesize, add_uint, push, skip}

-- The number of bytes in the pipe.
abbrev pub count : Pipe → ℕ
count p = (p.nwrite + 2 ^ 32 - p.nread) % 2 ^ 32

pub record IsValid (p : Pipe) : Type 0 where
  pub ring : length p.buf ≡ pipesize
  pub nread_fits : p.nread < 2 ^ 32
  pub nwrite_fits : p.nwrite < 2 ^ 32
  pub bounded : count p ≤ pipesize

-- The `n` bytes from the counter value `r` on.
abbrev pub window : List ℕ → ℕ → ℕ → List ℕ
window buf r zero = []
window buf r (suc n) = get_or buf (r % pipesize) 0 ∷ window buf (add_uint r 1) n

-- The bytes in the pipe, oldest first.
abbrev pub contents : Pipe → List ℕ
contents p = window p.buf p.nread (count p)

pub length-window : (buf : List ℕ) (r n : ℕ) → length (window buf r n) ≡ n
length-window buf r zero = refl
length-window buf r (suc n) = ap suc (length-window buf (add_uint r 1) n)

-- The test for a full pipe.
pub full_iff :
    {p : Pipe} → IsValid p → ((p.nwrite == add_uint p.nread pipesize) ≡ true) ↔ (count p ≡ pipesize)
full_iff v = (λ h. ground arith, λ h. ground arith)

-- A write just behind a window makes it longer by the byte.
window-set :
    (buf : List ℕ) (ch n r w : ℕ)
    → length buf ≡ pipesize
    → n < pipesize
    → r < 2 ^ 32
    → w ≡ add_uint r n
    → window (set buf (w % pipesize) ch) r (suc n) ≡ window buf r n ++ (ch ∷ [])
window-set buf ch zero r w len h hr e =
    ap (λ x. x ∷ []) (rw same (get_or-set_self buf (r % pipesize) ch 0 (omega arith)))
  where
    same : w % pipesize ≡ r % pipesize
    same = omega arith
window-set buf ch (suc n) r w len h hr e =
    ap₂ ◌∷◌ (get_or-set_ne buf (w % pipesize) (r % pipesize) ch 0 (omega arith))
      (window-set buf ch n (add_uint r 1) w len (omega arith) (omega arith) (omega arith))

pub push-IsValid : {p : Pipe} (ch : ℕ) → IsValid p → count p < pipesize → IsValid (push p ch)
unfolding push
push-IsValid {p} ch v h = record {
  ring = length-set p.buf _ ch ∙ v.ring;
  nread_fits = v.nread_fits;
  nwrite_fits = omega arith;
  bounded = omega arith;
}

pub contents-push :
    {p : Pipe} (ch : ℕ)
    → IsValid p
    → count p < pipesize
    → contents (push p ch) ≡ contents p ++ (ch ∷ [])
unfolding push
contents-push {p} ch v h =
    ap (window (set p.buf (p.nwrite % pipesize) ch) p.nread) one_more
    ∙ window-set p.buf ch (count p) p.nread p.nwrite v.ring h v.nread_fits (omega arith)
  where
    one_more : (add_uint p.nwrite 1 + 2 ^ 32 - p.nread) % 2 ^ 32 ≡ suc (count p)
    one_more = omega arith

pub skip-IsValid : {p : Pipe} → IsValid p → p.nread ≢ p.nwrite → IsValid (skip p)
unfolding skip
skip-IsValid {p} v h = record {
  ring = v.ring;
  nread_fits = omega arith;
  nwrite_fits = v.nwrite_fits;
  bounded = omega arith;
}

pub contents-skip :
    {p : Pipe}
    → IsValid p
    → p.nread ≢ p.nwrite
    → contents p ≡ get_or p.buf (p.nread % pipesize) 0 ∷ contents (skip p)
unfolding skip
contents-skip {p} v h = ap (window p.buf p.nread) one_less
  where
    one_less : count p ≡ suc ((p.nwrite + 2 ^ 32 - add_uint p.nread 1) % 2 ^ 32)
    one_less = omega arith
