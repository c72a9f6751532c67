-- ===== src/Pipe.antt =====
-- kernel/pipe.c: a pipe's ring of bytes, its readers and writers.
-- A pass is what a caller does with the pipe's lock held, from `acquire` or from its return from
-- `sleep` to the next `sleep` or `release`; nobody else touches the pipe in between. User memory is
-- a parameter: `copyin i` is the byte that `copyin` reads at `addr + i`, or none if it fails, and
-- `copyout i ch` tells whether `copyout` of `ch` to `addr + i` succeeds. `killed i` is `pr->killed`
-- as it is read in round `i`.
pub mod Ring
pub mod Write
pub mod Read
pub mod Fifo
mod Tests
use operating_systems.Prelude.{
  ℕ, zero, suc, ◌+◌, ◌-◌, ◌%◌, ◌^◌, Bool, false, ◌&&◌, ◌||◌, not, Option, none, some, List, [], ◌∷◌,
  ◌==◌, if◌then◌else◌, set, get_or,
}

abbrev pub pipesize : ℕ
pipesize = 512

pub record Pipe : Type 0 where
  pub buf : List ℕ
  pub nread : ℕ
  pub nwrite : ℕ
  pub readopen : Bool
  pub writeopen : Bool

-- What `sleep` and `wakeup` are called on.
pub data Channel : Type 0 where
  on_nread on_nwrite : Channel

-- Why a pass ends, with the index `i` of the loop: the caller sleeps, returns `i` or returns -1.
pub data Outcome : Type 0 where
  sleeps returns fails : (i : ℕ) → Outcome

pub record Pass : Type 0 where
  pub pipe : Pipe
  pub outcome : Outcome
  pub woken : List Channel

-- `uint` addition
abbrev pub add_uint : ℕ → ℕ → ℕ
add_uint a b = (a + b) % 2 ^ 32

-- `pi->data[pi->nwrite++ % PIPESIZE] = ch`
unfoldable pub push : Pipe → ℕ → Pipe
push p ch = record p { buf = set p.buf (p.nwrite % pipesize) ch; nwrite = add_uint p.nwrite 1 }

-- `pi->nread++`
unfoldable pub skip : Pipe → Pipe
skip p = record p { nread = add_uint p.nread 1 }

-- A pass of `pipewrite` that starts at index `i`, with `n - i` rounds left.
unfoldable pub write_loop : (ℕ → Option ℕ) → (ℕ → Bool) → ℕ → ℕ → Pipe → Pass
write_loop copyin killed zero i p = record { pipe = p; outcome = returns i; woken = on_nread ∷ [] }
write_loop copyin killed (suc left) i p =
    let on = λ (ch : ℕ). write_loop copyin killed left (i + 1) (push p ch) in
    if not p.readopen || killed i
    then record { pipe = p; outcome = fails i; woken = [] }
    else if p.nwrite == add_uint p.nread pipesize
    then record { pipe = p; outcome = sleeps i; woken = on_nread ∷ [] }
    else elim (copyin i) [
      | none ↦ record { pipe = p; outcome = returns i; woken = on_nread ∷ [] }
      | some ch ↦ on ch
    ]

unfoldable pub pipewrite : (ℕ → Option ℕ) → (ℕ → Bool) → ℕ → ℕ → Pipe → Pass
unfolding write_loop
pipewrite copyin killed n i p = write_loop copyin killed (n - i) i p

-- The copying loop of `piperead`, with `n - i` rounds left.
unfoldable pub read_loop : (ℕ → ℕ → Bool) → ℕ → ℕ → Pipe → Pass
read_loop copyout zero i p = record { pipe = p; outcome = returns i; woken = on_nwrite ∷ [] }
read_loop copyout (suc left) i p =
    let rest = read_loop copyout left (i + 1) (skip p) in
    if p.nread == p.nwrite
    then record { pipe = p; outcome = returns i; woken = on_nwrite ∷ [] }
    else if copyout i (get_or p.buf (p.nread % pipesize) 0)
    then rest
    else record { pipe = skip p; outcome = returns i; woken = on_nwrite ∷ [] }

-- A pass of `piperead`, from its start or from its return from `sleep`.
unfoldable pub piperead : (ℕ → ℕ → Bool) → Bool → ℕ → Pipe → Pass
piperead copyout killed n p =
    if (p.nread == p.nwrite) && p.writeopen
    then if killed
      then record { pipe = p; outcome = fails 0; woken = [] }
      else record { pipe = p; outcome = sleeps 0; woken = [] }
    else read_loop copyout n 0 p

pub record Closed : Type 0 where
  pub pipe : Pipe
  pub woken : List Channel
  pub freed : Bool

unfoldable pub pipeclose : Bool → Pipe → Closed
pipeclose writable p =
    let q = if writable then record p { writeopen = false } else record p { readopen = false } in
    record {
      pipe = q;
      woken = (if writable then on_nread else on_nwrite) ∷ [];
      freed = not q.readopen && not q.writeopen;
    }
