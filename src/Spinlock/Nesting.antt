-- ===== src/Spinlock/Nesting.antt =====
-- Matched calls of `push_off` and `pop_off` undo each other.
use operating_systems.Prelude.{
  ◌-◌, ◌<◌, ◌≡◌, refl, ◌∙◌, inl, inr, true, false, ◌&&◌, Option, none, some, arith, ltb, ◌==◌,
  if◌then◌else◌, Bool-cases,
}
use operating_systems.Spinlock.{Cpu, push_off, pop_off}

-- Calls in a row that match like brackets: nothing, or a `push_off`, the calls `inner`, the `pop_off`
-- that belongs to it, and the calls `after`.
pub data Calls : Type 0 where
  done : Calls
  nest : (inner after : Calls) → Calls

unfoldable pub run : Calls → Cpu → Option Cpu
run done c = some c
run (nest inner after) c = elim (run inner (push_off c)) [
  | none ↦ none
  | some d ↦ elim (pop_off d) [ none ↦ none | some e ↦ run after e ]
]

-- Inside a `push_off`, interrupts are off.
abbrev pub IsValid : Cpu → Type 0
IsValid c = (0 < c.noff) → c.intr ≡ false

-- The same depth and interrupts, and inside a `push_off` the same note of what they were.
pub record Same (c d : Cpu) : Type 0 where
  pub intr : d.intr ≡ c.intr
  pub noff : d.noff ≡ c.noff
  pub intena : (0 < c.noff) → d.intena ≡ c.intena

Same-trans : (c d e : Cpu) → Same c d → Same d e → Same c e
Same-trans c d e p q = record {
  intr = q.intr ∙ p.intr;
  noff = q.noff ∙ p.noff;
  intena = λ h. q.intena (omega (arith, p.noff)) ∙ p.intena h;
}

pop_lem :
    (c d : Cpu) → IsValid c → Same (push_off c) d → (e : Cpu) × (pop_off d ≡ some e) × Same c e
unfolding push_off pop_off
pop_lem c d v p =
    let deep : ltb d.noff 1 ≡ false = ground arith in
    (
      record {
        intr = if (d.noff - 1 == 0) && d.intena then true else d.intr;
        noff = d.noff - 1;
        intena = d.intena;
      },
      rw p.intr (rw deep refl),
      record { intr = popped_intr; noff = omega (arith, p.noff); intena = λ h. popped_intena h },
    )
  where
    note : d.intena ≡ (if c.noff == 0 then c.intr else c.intena)
    note = p.intena (omega arith)

    popped_intr : (if (d.noff - 1 == 0) && d.intena then true else d.intr) ≡ c.intr
    popped_intr = elim (Bool-cases (c.noff == 0)) [
      | inl z ↦
          let n : d.noff ≡ 1 = ground arith in
          let b : d.intena ≡ c.intr = note ∙ rw z refl in ground (arith, p.intr)
      | inr z ↦ let b : c.intr ≡ false = v (ground arith) in ground (arith, p.intr, p.noff)
    ]

    popped_intena : (0 < c.noff) → d.intena ≡ c.intena
    popped_intena h = let z : (c.noff == 0) ≡ false = ground arith in note ∙ rw z refl

push_off-IsValid : (c : Cpu) → IsValid (push_off c)
unfolding push_off
push_off-IsValid c h = refl

-- From a CPU whose interrupts are off if it is inside a `push_off`, any calls that match run without a
-- panic, and leave interrupts and their depth as they were: interrupts that were off stay off, and
-- interrupts that were on are on again. Inside a `push_off` they leave its note as it was, too.
pub run_lem : (calls : Calls) (c : Cpu) → IsValid c → (d : Cpu) × (run calls c ≡ some d) × Same c d
unfolding run
run_lem done c v = (c, refl, record { intr = refl; noff = refl; intena = λ h. refl })
run_lem (nest inner after) c v =
    let (d, e1, s1) = run_lem inner (push_off c) (push_off-IsValid c) in
    let (e, e2, s2) = pop_lem c d v s1 in
    let (f, e3, s3) = run_lem after e (λ h. s2.intr ∙ v (omega (arith, s2.noff))) in
    (f, rw e1 (rw e2 e3), Same-trans c e f s2 s3)
