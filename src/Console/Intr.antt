-- ===== src/Console/Intr.antt =====
-- What the interrupt handler does with a typed character.
use operating_systems.Prelude.{
  ℕ, ◌-◌, ◌≤◌, ◌<◌, ◌≡◌, refl, ap, subst, inl, inr, true, false, ◌&&◌, ◌||◌, not, Option, some,
  List, [], arith, ltb, ◌==◌, if◌then◌else◌, Bool-cases, length, take,
}
use mathlib.Core.Option
use operating_systems.Console.{
  Cons, Handled, input_buf, newline, carriage_return, backspace, control, plus, minus, consputc,
  kill_loop, store, consoleintr,
}
use operating_systems.Console.Ring.{IsValid, count, ready, line}
use operating_systems.Console.Line.{
  Line, view, made, enter, typed, length-line, back-IsValid, back-line, kill_loop_lem, store_lem,
}

-- A result of the handler at `s` that leaves the line `l`, and a reader woken whenever there is more
-- for it to take.
abbrev Leaves : Cons → Option Handled → Line → Type 0
Leaves s o l =
    (h : Handled) × (o ≡ some h)
    × IsValid h.cons
    × (view h.cons ≡ l)
    × (h.wakes ≡ false → h.cons.w ≡ s.w)

abbrev unchanged : Cons → Handled
unchanged s = record { cons = s; echo = []; wakes = false }

unchanged-Leaves : (s : Cons) → IsValid s → Leaves s (some (unchanged s)) (view s)
unchanged-Leaves s v = (unchanged s, refl, v, refl, λ e. refl)

back-view :
    (s : Cons) (k : ℕ)
    → IsValid s
    → k ≤ count s
    → view (record s { e = plus s.r k }) ≡ made (take k (line s)) (ready s)
back-view s k v h = ap (λ l. made l (ready s)) (back-line s k v h)

kill-Leaves :
    (fuel : ℕ) (s : Cons)
    → IsValid s
    → input_buf < fuel
    → Leaves s
        (Option.map
          (λ (p : Cons × List ℕ). record { cons = p.0; echo = p.1; wakes = false })
          (kill_loop fuel s))
        (made (take (ready s) (line s)) (ready s))
kill-Leaves fuel s v f =
    let (out, e) = kill_loop_lem fuel s v (omega arith) in
    let at_w : plus s.r (ready s) ≡ s.w = omega arith in
    (
      record { cons = record s { e = s.w }; echo = out; wakes = false },
      rw e refl,
      subst (λ k. IsValid (record s { e = k })) at_w
          (back-IsValid s (ready s) v (omega arith) v.ordered),
      subst (λ k. view (record s { e = k }) ≡ made (take (ready s) (line s)) (ready s)) at_w
          (back-view s (ready s) v v.ordered),
      λ e. refl,
    )

back-Leaves :
    (s : Cons)
    → IsValid s
    → Leaves s
        (some (
          if not (s.e == s.w)
          then record {
            cons = record s { e = minus s.e 1 };
            echo = consputc backspace;
            wakes = false;
          }
          else unchanged s))
        (if ltb (ready s) (length (line s))
          then made (take (length (line s) - 1) (line s)) (ready s)
          else view s)
back-Leaves s v = rw (length-line s) (elim (Bool-cases (s.e == s.w)) [
  | inl y ↦
      let none_left : ltb (ready s) (count s) ≡ false = ground arith in
      rw y (rw none_left (unchanged-Leaves s v))
  | inr n ↦
      let some_left : ltb (ready s) (count s) ≡ true = ground arith in
      let at : plus s.r (count s - 1) ≡ minus s.e 1 = ground arith in
      rw n (
        rw some_left (
          record { cons = record s { e = minus s.e 1 }; echo = consputc backspace; wakes = false },
          refl,
          subst (λ k. IsValid (record s { e = k })) at
              (back-IsValid s (count s - 1) v (ground arith) (omega arith)),
          subst (λ k. view (record s { e = k }) ≡ made (take (count s - 1) (line s)) (ready s)) at
              (back-view s (count s - 1) v (omega arith)),
          λ e. refl,
        ))
])

other-Leaves :
    (c : ℕ) (s : Cons)
    → IsValid s
    → Leaves s
        (if not (c == 0) && ltb (count s) input_buf
          then some (store (if c == carriage_return then newline else c) s)
          else some (unchanged s))
        (if not (c == 0) && ltb (length (line s)) input_buf
          then enter (if c == carriage_return then newline else c) (view s)
          else view s)
other-Leaves c s v =
    rw (length-line s) (elim (Bool-cases (not (c == 0) && ltb (count s) input_buf)) [
      | inl y ↦
          let d = if c == carriage_return then newline else c in
          let room : count s < input_buf = ground arith in
          (let r = store_lem d s v room in rw y (store d s, refl, r.0, r.1, r.2))
      | inr n ↦ rw n (unchanged-Leaves s v)
    ])

-- The interrupt handler ends on every character, for any fuel above the size of the ring. It keeps
-- the ring valid, does to the line what typing the character means, and wakes the readers whenever
-- there is more for them to take.
pub consoleintr_lem :
    (fuel c : ℕ) (s : Cons)
    → IsValid s
    → input_buf < fuel
    → (h : Handled) × (consoleintr fuel c s ≡ some h)
      × IsValid h.cons
      × (view h.cons ≡ typed c (view s))
      × (h.wakes ≡ false → h.cons.w ≡ s.w)
unfolding consoleintr
consoleintr_lem fuel c s v f = elim (Bool-cases (c == control b'P')) [
  | inl p ↦ rw p (unchanged-Leaves s v)
  | inr np ↦ elim (Bool-cases (c == control b'U')) [
    | inl u ↦ rw (np, u) (kill-Leaves fuel s v f)
    | inr nu ↦ elim (Bool-cases ((c == control b'H') || (c == 0x7f))) [
      | inl b ↦ rw (np, nu, b) (back-Leaves s v)
      | inr nb ↦ rw (np, nu, nb) (other-Leaves c s v)
    ]
  ]
]
