-- ===== src/Pipe/Tests.antt =====
-- Runs of a pipe whose counters are about to wrap, and the theorems at them.
use operating_systems.Prelude.{
  ℕ, ◌+◌, ◌-◌, ◌^◌, ◌≡◌, refl, ◌⊎◌, Bool, true, false, Option, some, List, [], ◌∷◌, ◌++◌, arith,
  replicate,
}
use operating_systems.Pipe.{read_loop, push, skip, pipeclose, Pipe, pipewrite, piperead, sleeps}
use operating_systems.Pipe.Ring.{IsValid, contents}
use operating_systems.Pipe.Write.{Wrote, pipewrite_lem}
use operating_systems.Pipe.Read.{Took, piperead_lem}
use operating_systems.Pipe.Fifo.{Op, writer, reader, closer, run, Traffic, fifo}

-- Two bytes, 7 and 8, and counters at the end of their range.
abbrev wrapping : Pipe
wrapping = record {
  buf = 8 ∷ (replicate 510 0 ++ (7 ∷ []));
  nread = 2 ^ 32 - 1;
  nwrite = 1;
  readopen = true;
  writeopen = true;
}

abbrev letters : ℕ → Option ℕ
letters i = some (b'a' + i)

abbrev alive : ℕ → Bool
alive i = false

abbrev accepts : ℕ → ℕ → Bool
accepts i ch = true

abbrev script : List Op
script = writer letters alive 3 0 ∷ reader accepts false 4 ∷ closer true ∷ []

wrapping-IsValid : IsValid wrapping
wrapping-IsValid = record {
  ring = refl;
  nread_fits = omega arith;
  nwrite_fits = omega arith;
  bounded = omega arith;
}

contents-script : contents (run script wrapping) ≡ b'c' ∷ []
unfolding pipewrite piperead read_loop push skip pipeclose
contents-script = refl

pipewrite_lem_example :
    (ws : List ℕ) × Wrote letters alive 3 0 wrapping (pipewrite letters alive 3 0 wrapping) ws
pipewrite_lem_example = pipewrite_lem letters alive 3 0 wrapping (omega arith) wrapping-IsValid

piperead_lem_example :
    ((contents wrapping ≡ [])
      × (wrapping.writeopen ≡ true)
      × ((piperead accepts false 4 wrapping).pipe ≡ wrapping)
      × ((piperead accepts false 4 wrapping).outcome ≡ sleeps 0))
    ⊎ ((ws lost : List ℕ) × Took accepts 4 0 wrapping (piperead accepts false 4 wrapping) ws lost)
piperead_lem_example = piperead_lem accepts false 4 wrapping wrapping-IsValid

fifo_example :
    (sent taken : List ℕ) × Traffic script wrapping sent taken
    × (contents wrapping ++ sent ≡ taken ++ contents (run script wrapping))
fifo_example = fifo script wrapping (omega arith, (tt, (tt, tt))) wrapping-IsValid
