-- ===== src/Proc/Table.antt =====
-- What the loops over the table of processes find and change.
use operating_systems.Prelude.{
  ℕ, zero, suc, ◌+◌, ◌≤◌, ◌<◌, ◌≡◌, refl, sym, ap, ◌∙◌, subst, ◌≢◌, ◌⊎◌, inl, inr, Bool, true,
  false, ◌&&◌, ◌||◌, Option, none, some, arith, ltb, leb, ◌==◌, if◌then◌else◌, Bool-cases, update,
}
use operating_systems.Proc.{
  Proc, nproc, is_unused, is_zombie, is_proc, find_unused, find_pid, scan, woken, wake_loop, wakeup,
}

-- A place among the `left` ones from `p` on.
abbrev pub In : ℕ → ℕ → ℕ → Type 0
In left p q = (p ≤ q) × (q < p + left)

first_or_later : (left p q : ℕ) → In (suc left) p q → (q ≡ p) ⊎ In left (p + 1) q
first_or_later left p q h = elim (Bool-cases (q == p)) [
  | inl y ↦ inl (ground arith)
  | inr n ↦ inr (ground arith)
]

pub find_unused_lem :
    (proc : ℕ → Proc) (left p q : ℕ)
    → find_unused proc left p ≡ some q
    → In left p q × (is_unused (proc q).state ≡ true)
unfolding find_unused
find_unused_lem proc zero p q e = absurd (cc)
find_unused_lem proc (suc left) p q e = elim (Bool-cases (is_unused (proc p).state)) [
  | inl y ↦
      let same : p ≡ q = ground arith in
      (ground arith, subst (λ z. is_unused (proc z).state ≡ true) same y)
  | inr n ↦
      let rest : find_unused proc left (p + 1) ≡ some q = ground arith in
      let r = find_unused_lem proc left (p + 1) q rest in (ground (arith, r.0.0, r.0.1), r.1)
]

pub find_unused-none :
    (proc : ℕ → Proc) (left p : ℕ)
    → find_unused proc left p ≡ none
    → (q : ℕ) → In left p q
    → is_unused (proc q).state ≡ false
unfolding find_unused
find_unused-none proc zero p e q h = absurd (omega (arith, h.0, h.1))
find_unused-none proc (suc left) p e q h = elim (Bool-cases (is_unused (proc p).state)) [
  | inl y ↦ absurd (ground arith)
  | inr n ↦
      let rest : find_unused proc left (p + 1) ≡ none = ground arith in
      elim (first_or_later left p q h) [
        | inl same ↦ subst (λ z. is_unused (proc z).state ≡ false) (sym same) n
        | inr later ↦ find_unused-none proc left (p + 1) rest q later
      ]
]

pub find_pid_lem :
    (proc : ℕ → Proc) (pid left p : ℕ)
    → ((find_pid proc pid left p ≡ none) × ((q : ℕ) → In left p q → (proc q).pid ≢ pid))
      ⊎ ((q : ℕ) × (find_pid proc pid left p ≡ some q) × In left p q × ((proc q).pid ≡ pid))
unfolding find_pid
find_pid_lem proc pid zero p = inl (refl, λ q h. omega (arith, h.0, h.1))
find_pid_lem proc pid (suc left) p = elim (Bool-cases ((proc p).pid == pid)) [
  | inl y ↦ inr (p, rw y refl, (omega arith, omega arith), ground arith)
  | inr n ↦ elim (find_pid_lem proc pid left (p + 1)) [
    | inl (e, all) ↦ inl (
      rw n e,
      λ q h. elim (first_or_later left p q h) [
        | inl same ↦
            (let ne : (proc p).pid ≢ pid = ground arith in
              subst (λ z. (proc z).pid ≢ pid) (sym same) ne)
        | inr later ↦ all q later
      ],
    )
    | inr (q, e, place, is) ↦ inr (q, rw n e, (omega (arith, place.0), omega (arith, place.1)), is)
  ]
]

no_child :
    (is_child seen b : Bool) → (seen || is_child ≡ true → b ≡ true) → b ≡ false → is_child ≡ false
no_child true true b still f = cc (still refl)
no_child true false b still f = cc (still refl)
no_child false seen b still f = refl

-- The children of `me` among the places, and whether one of them is a zombie.
abbrev pub IsChild : (ℕ → Proc) → ℕ → ℕ → Type 0
IsChild proc me q = is_proc (proc q).parent me ≡ true

pub scan_lem :
    (proc : ℕ → Proc) (me left p : ℕ) (seen : Bool)
    → ((q : ℕ) × (scan proc me left p seen ≡ (some q, true))
        × In left p q
        × IsChild proc me q
        × (is_zombie (proc q).state ≡ true))
      ⊎ ((b : Bool) × (scan proc me left p seen ≡ (none, b))
          × ((q : ℕ) → In left p q → IsChild proc me q → is_zombie (proc q).state ≡ false)
          × (b ≡ false → (q : ℕ) → In left p q → is_proc (proc q).parent me ≡ false)
          × (seen ≡ true → b ≡ true)
          × (b ≡ true → (seen ≡ true) ⊎ ((q : ℕ) × In left p q × IsChild proc me q)))
unfolding scan
scan_lem proc me zero p seen = inr (
  seen,
  refl,
  λ q h. absurd (omega (arith, h.0, h.1)),
  λ e q h. absurd (omega (arith, h.0, h.1)),
  λ e. e,
  λ e. inl e,
)
scan_lem proc me (suc left) p seen =
    elim (Bool-cases (is_proc (proc p).parent me && is_zombie (proc p).state)) [
      | inl y ↦ inl (p, rw y refl, (omega arith, omega arith), ground arith, ground arith)
      | inr n ↦ elim (scan_lem proc me left (p + 1) (seen || is_proc (proc p).parent me)) [
        | inl (q, e, place, child, dead) ↦
            inl (q, rw n e, (omega (arith, place.0), omega (arith, place.1)), child, dead)
        | inr (b, e, alive, none_there, still, some_there) ↦ inr (
          b,
          rw n e,
          λ q h. elim (first_or_later left p q h) [
            | inl same ↦
                subst (λ z. IsChild proc me z → is_zombie (proc z).state ≡ false) (sym same)
                  (λ child. ground arith)
            | inr later ↦ alive q later
          ],
          λ f q h. elim (first_or_later left p q h) [
            | inl same ↦
                subst (λ z. is_proc (proc z).parent me ≡ false) (sym same)
                  (no_child (is_proc (proc p).parent me) seen b still f)
            | inr later ↦ none_there f q later
          ],
          λ s. still (ground arith),
          λ t. elim (some_there t) [
            | inr (q, place, child) ↦
                inr (q, (omega (arith, place.0), omega (arith, place.1)), child)
            | inl was ↦ elim (Bool-cases (is_proc (proc p).parent me)) [
              | inl y ↦ inr (p, (omega arith, omega arith), y)
              | inr o ↦ inl (ground arith)
            ]
          ],
        )
      ]
    ]

-- `wakeup` at one place of the table.
wake_loop_lem :
    (me : Option ℕ) (chan left p : ℕ) (proc : ℕ → Proc) (q : ℕ)
    → wake_loop me chan left p proc q
      ≡ (if leb p q && ltb q (p + left) then woken me chan q (proc q) else proc q)
unfolding wake_loop
wake_loop_lem me chan zero p proc q =
    (let out : (leb p q && ltb q (p + 0)) ≡ false = ground arith in rw out refl)
wake_loop_lem me chan (suc left) p proc q =
    let ih = wake_loop_lem me chan left (p + 1) (update proc p (woken me chan p (proc p))) q in
    elim (Bool-cases (p == q)) [
      | inl y ↦
          let same : p ≡ q = ground arith in
          let past : (leb (p + 1) q && ltb q (p + 1 + left)) ≡ false = ground arith in
          let inside : (leb p q && ltb q (p + suc left)) ≡ true = ground arith in
          ih ∙ rw past (rw inside (rw y (ap (λ z. woken me chan z (proc z)) same)))
      | inr n ↦
          let test : (leb (p + 1) q && ltb q (p + 1 + left)) ≡ (leb p q && ltb q (p + suc left)) =
            ground arith in
          ih ∙ rw n (rw test refl)
    ]

pub wakeup_lem :
    (me : Option ℕ) (chan : ℕ) (proc : ℕ → Proc) (q : ℕ)
    → wakeup me chan proc q ≡ (if ltb q nproc then woken me chan q (proc q) else proc q)
unfolding wakeup
wakeup_lem me chan proc q = wake_loop_lem me chan nproc 0 proc q ∙ ground arith
