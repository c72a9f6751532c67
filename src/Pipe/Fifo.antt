-- ===== src/Pipe/Fifo.antt =====
-- Readers and writers in any order: a pipe is a first-in first-out queue.
use operating_systems.Prelude.{
  ℕ, ◌+◌, ◌≤◌, ◌≡◌, refl, sym, ap, ◌∙◌, subst, inl, inr, Bool, true, false, Option, List, [], ◌∷◌,
  ◌++◌, append_assoc, append-nil, arith, if◌then◌else◌, length, All,
}
use operating_systems.Pipe.{Pipe, Outcome, sleeps, returns, fails, pipewrite, piperead, pipeclose}
use operating_systems.Pipe.Ring.{IsValid, contents}
use operating_systems.Pipe.Write.{Reads, Ends, pipewrite_lem}
use operating_systems.Pipe.Read.{Delivers, Lost, piperead_lem}

-- One pass of a caller: a writer from index `i` of a write of `n` bytes, a reader, or a close.
pub data Op : Type 0 where
  writer : (copyin : ℕ → Option ℕ) (killed : ℕ → Bool) (n i : ℕ) → Op
  reader : (copyout : ℕ → ℕ → Bool) (killed : Bool) (n : ℕ) → Op
  closer : (writable : Bool) → Op

abbrev pub after : Op → Pipe → Pipe
after (writer copyin killed n i) p = (pipewrite copyin killed n i p).pipe
after (reader copyout killed n) p = (piperead copyout killed n p).pipe
after (closer w) p = (pipeclose w p).pipe

abbrev pub run : List Op → Pipe → Pipe
run [] p = p
run (o ∷ ops) p = run ops (after o p)

abbrev pub index_of : Outcome → ℕ
index_of (sleeps i) = i
index_of (returns i) = i
index_of (fails i) = i

-- The bytes that a pass takes from user memory, and those that it takes out of the pipe: the ones
-- that reach user memory, and one more where `copyout` fails.
abbrev pub Moves : Op → Pipe → List ℕ → List ℕ → Type 0
Moves (writer copyin killed n i) p sent taken =
    Reads copyin i sent
    × (index_of (pipewrite copyin killed n i p).outcome ≡ i + length sent)
    × (taken ≡ [])
Moves (reader copyout killed n) p sent taken =
    (sent ≡ [])
    × ((ws lost : List ℕ) × (taken ≡ ws ++ lost)
        × Delivers copyout 0 ws
        × Lost copyout (length ws) lost
        × (index_of (piperead copyout killed n p).outcome ≡ length ws))
Moves (closer w) p sent taken = (sent ≡ []) × (taken ≡ [])

-- The traffic of all passes.
abbrev pub Traffic : List Op → Pipe → List ℕ → List ℕ → Type 0
Traffic [] p sent taken = (sent ≡ []) × (taken ≡ [])
Traffic (o ∷ ops) p sent taken =
    (s1 t1 s2 t2 : List ℕ) × (sent ≡ s1 ++ s2)
    × (taken ≡ t1 ++ t2)
    × Moves o p s1 t1
    × Traffic ops (after o p) s2 t2

-- A writer's indices are in range.
abbrev pub InRange : Op → Type 0
InRange (writer copyin killed n i) = i ≤ n
InRange (reader copyout killed n) = Unit
InRange (closer w) = Unit

Ends-index :
    (copyin : ℕ → Option ℕ) (killed : ℕ → Bool) (n : ℕ) (p : Pipe) (o : Outcome) (j : ℕ)
    → Ends copyin killed n p o j
    → index_of o ≡ j
Ends-index copyin killed n p (sleeps i) j e = e.0
Ends-index copyin killed n p (returns i) j e = e.0
Ends-index copyin killed n p (fails i) j e = e.0

-- What a pass does to the contents.
abbrev Passes : Op → Pipe → Type 0
Passes o p =
    IsValid (after o p)
    × ((sent taken : List ℕ) × Moves o p sent taken
        × (contents p ++ sent ≡ taken ++ contents (after o p)))

pipeclose-Passes : (w : Bool) (p : Pipe) → IsValid p → Passes (closer w) p
unfolding pipeclose
pipeclose-Passes true p v = (
  record {
    ring = v.ring;
    nread_fits = v.nread_fits;
    nwrite_fits = v.nwrite_fits;
    bounded = v.bounded;
  },
  ([], [], (refl, refl), append-nil (contents p)),
)
pipeclose-Passes false p v = (
  record {
    ring = v.ring;
    nread_fits = v.nread_fits;
    nwrite_fits = v.nwrite_fits;
    bounded = v.bounded;
  },
  ([], [], (refl, refl), append-nil (contents p)),
)

index-idle : (killed : Bool) → index_of (if killed then fails 0 else sleeps 0) ≡ 0
index-idle true = refl
index-idle false = refl

after-Passes : (o : Op) (p : Pipe) → InRange o → IsValid p → Passes o p
after-Passes (writer copyin killed n i) p h v =
    let (ws, w) = pipewrite_lem copyin killed n i p h v in
    (
      w.valid,
      (
        ws,
        [],
        (
          w.source,
          Ends-index copyin killed n (pipewrite copyin killed n i p).pipe
              (pipewrite copyin killed n i p).outcome (i + length ws) w.ended,
          refl,
        ),
        sym w.bytes,
      ),
    )
after-Passes (reader copyout killed n) p h v = elim (piperead_lem copyout killed n p v) [
  | inl idle ↦ (
    rw idle.2 v,
    (
      [],
      [],
      (refl, ([], [], refl, tt, tt, ap index_of idle.3 ∙ index-idle killed)),
      append-nil (contents p) ∙ ap contents (sym idle.2),
    ),
  )
  | inr (ws, lost, t) ↦ (
    t.valid,
    (
      [],
      ws ++ lost,
      (
        refl,
        (
          ws,
          lost,
          refl,
          t.target,
          subst (λ j. Lost copyout j lost) (omega arith) t.fault,
          ap index_of t.ended ∙ omega arith,
        ),
      ),
      append-nil (contents p) ∙ t.bytes ∙ sym (append_assoc ws lost _),
    ),
  )
]
after-Passes (closer w) p h v = pipeclose-Passes w p v

-- Whatever passes readers, writers and closers make, in whatever order, the bytes that have gone in
-- are, in order, the bytes that have come out followed by those still in the pipe.
pub fifo :
    (ops : List Op) (p : Pipe)
    → All InRange ops
    → IsValid p
    → (sent taken : List ℕ) × Traffic ops p sent taken
      × (contents p ++ sent ≡ taken ++ contents (run ops p))
fifo [] p h v = ([], [], (refl, refl), append-nil (contents p))
fifo (o ∷ ops) p h v =
    let (v1, (s1, t1, m, e)) = after-Passes o p h.0 v in
    let (s2, t2, more, f) = fifo ops (after o p) h.1 v1 in
    (
      s1 ++ s2,
      t1 ++ t2,
      (s1, t1, s2, t2, refl, refl, m, more),
      sym (append_assoc (contents p) s1 s2)
          ∙ ap (λ b. b ++ s2) e
          ∙ append_assoc t1 (contents (after o p)) s2
          ∙ ap (λ b. t1 ++ b) f
          ∙ sym (append_assoc t1 t2 (contents (run ops (after o p)))),
    )
