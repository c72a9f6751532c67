-- ===== src/Proc/Wait.antt =====
-- `wait` reaps a zombie child whenever there is one, and sleeps only where one may still come.
use operating_systems.Prelude.{
  ℕ, ◌+◌, ◌<◌, ◌≡◌, refl, sym, ap, ◌∙◌, subst, ◌≢◌, ◌⊎◌, inl, inr, Bool, true, false, ◌||◌, not,
  Option, none, some, [], arith, ◌==◌, if◌then◌else◌, Bool-cases, update_self, update_ne,
}
use operating_systems.Proc.{
  wait_end, zombie, ProcState, unused, sleeping, Proc, System, nproc, is_unused, is_zombie, is_proc,
  address, set_proc, freeproc, scan, Waited, reaped, fails, waits, sleep, wait,
}
use operating_systems.Proc.Table.{In, IsChild, scan_lem}
use operating_systems.Proc.Reparent.{in_wait}
use operating_systems.Proc.Family.{lives, IsValid}

zombie_lives : (state : ProcState) → is_zombie state ≡ true → lives state ≡ false
zombie_lives zombie h = refl
zombie_lives _ h = cc

is_proc_inv : (parent : Option ℕ) (p : ℕ) → is_proc parent p ≡ true → parent ≡ some p
is_proc_inv none p h = cc h
is_proc_inv (some q) p h = ap some (ground arith)

-- A place that is free again.
abbrev pub freed : Proc → Proc
freed x = record x {
  sz = 0;
  pid = 0;
  parent = none;
  name = [];
  chan = 0;
  killed = false;
  xstate = 0;
  state = unused;
}

-- A zombie, whose place nobody names as a parent, is freed.
module _ (s : System) (np : ℕ) (v : IsValid s) (place : np < nproc)
    (dead : is_zombie (s.proc np).state ≡ true) where
  abbrev rest : System
  rest = set_proc s np (freed (s.proc np))

  free_run : freeproc np s ≡ rest
  unfolding freeproc
  free_run = refl

  at_np : rest.proc np ≡ freed (s.proc np)
  at_np = update_self s.proc np (freed (s.proc np))

  at_other : (q : ℕ) → q ≢ np → rest.proc q ≡ s.proc q
  at_other q ne = update_ne s.proc np (freed (s.proc np)) q (λ e. ne (sym e))

  -- A process that is still used is another one.
  used_other : (q : ℕ) → is_unused (rest.proc q).state ≡ false → q ≢ np
  used_other q u e =
      (let gone : is_unused (rest.proc q).state ≡ true =
          ap (λ z. is_unused (rest.proc z).state) e ∙ ap (λ (x : Proc). is_unused x.state) at_np in
        cc)

  has_parent : (q p : ℕ) → (rest.proc q).parent ≡ some p → q ≢ np
  has_parent q p h e =
      (let gone : (rest.proc q).parent ≡ none =
          ap (λ z. (rest.proc z).parent) e ∙ ap (λ (x : Proc). x.parent) at_np in
        (let clash = sym gone ∙ h in cc))

  living_other : (p : ℕ) → lives (s.proc p).state ≡ true → p ≢ np
  living_other p l e =
      (let d : lives (s.proc p).state ≡ false =
          zombie_lives (s.proc p).state (ap (λ z. is_zombie (s.proc z).state) e ∙ dead) in
        cc)

  free-IsValid : IsValid rest
  free-IsValid = record {
    init_place = v.init_place;
    init_lives =
        (let ne = living_other s.initproc v.init_lives in
          ap (λ (x : Proc). lives x.state) (at_other s.initproc ne) ∙ v.init_lives);
    unused_free = λ q lt u. elim (Bool-cases (np == q)) [
      | inl y ↦ rw y refl
      | inr n ↦
          (let same = at_other q (ground arith) in
            ap (λ (x : Proc). x.parent) same
            ∙ v.unused_free q lt (sym (ap (λ (x : Proc). is_unused x.state) same) ∙ u))
    ];
    pid_range = λ q lt u.
        (let same = at_other q (used_other q u) in
          subst (λ (x : Proc). (0 < x.pid) × (x.pid < s.nextpid)) (sym same)
            (v.pid_range q lt (sym (ap (λ (x : Proc). is_unused x.state) same) ∙ u)));
    nextpid = v.nextpid;
    pids = λ q r lq lr uq ur e.
        (let a = at_other q (used_other q uq) in
          let b = at_other r (used_other r ur) in
          v.pids q r lq lr (sym (ap (λ (x : Proc). is_unused x.state) a) ∙ uq)
            (sym (ap (λ (x : Proc). is_unused x.state) b) ∙ ur)
            (sym (ap (λ (x : Proc). x.pid) a) ∙ e ∙ ap (λ (x : Proc). x.pid) b));
    parents = λ q p lt e.
        (let a = at_other q (has_parent q p e) in
          let r = v.parents q p lt (sym (ap (λ (x : Proc). x.parent) a) ∙ e) in
          (r.0, ap (λ (x : Proc). lives x.state) (at_other p (living_other p r.1)) ∙ r.1));
    no_missed = λ q p lt e z.
        (let a = at_other q (has_parent q p e) in
          let was = sym (ap (λ (x : Proc). x.parent) a) ∙ e in
          let r = v.parents q p lt was in
          ap (λ x. in_wait x p) (at_other p (living_other p r.1))
          ∙ v.no_missed q p lt was (sym (ap (λ (x : Proc). is_zombie x.state) a) ∙ z));
  }

-- A process without a zombie child goes to sleep in `wait`.
module _ (s : System) (me : ℕ) (v : IsValid s) (living : lives (s.proc me).state ≡ true)
    (no_zombie : (q : ℕ)
      → In nproc 0 q
      → IsChild s.proc me q
      → is_zombie (s.proc q).state ≡ false) where
  abbrev asleep : System
  asleep = set_proc s me (record (s.proc me) { chan = address me; state = sleeping })

  sleep_run : sleep me (address me) s ≡ asleep
  unfolding sleep
  sleep_run = refl

  -- What the sleeper keeps, and what another process has.
  field_same :
      {A : Type 0} (f : Proc → A)
      → f (record (s.proc me) { chan = address me; state = sleeping }) ≡ f (s.proc me)
      → (q : ℕ) → f (asleep.proc q) ≡ f (s.proc q)
  field_same f h q = elim (Bool-cases (me == q)) [
    | inl y ↦ let same : me ≡ q = ground arith in rw y (h ∙ ap (λ z. f (s.proc z)) same)
    | inr n ↦ rw n refl
  ]

  lives_flags :
      (state : ProcState)
      → lives state ≡ true
      → (is_unused state ≡ false) × (is_zombie state ≡ false)
  lives_flags unused h = cc h
  lives_flags zombie h = cc h
  lives_flags _ h = (refl, refl)

  same_unused : (q : ℕ) → is_unused (asleep.proc q).state ≡ is_unused (s.proc q).state
  same_unused =
      field_same (λ (x : Proc). is_unused x.state) (sym (lives_flags (s.proc me).state living).0)

  same_zombie : (q : ℕ) → is_zombie (asleep.proc q).state ≡ is_zombie (s.proc q).state
  same_zombie =
      field_same (λ (x : Proc). is_zombie x.state) (sym (lives_flags (s.proc me).state living).1)

  same_lives : (q : ℕ) → lives (asleep.proc q).state ≡ lives (s.proc q).state
  same_lives = field_same (λ (x : Proc). lives x.state) (sym living)

  same_pid : (q : ℕ) → (asleep.proc q).pid ≡ (s.proc q).pid
  same_pid = field_same (λ (x : Proc). x.pid) refl

  same_parent : (q : ℕ) → (asleep.proc q).parent ≡ (s.proc q).parent
  same_parent = field_same (λ (x : Proc). x.parent) refl

  sleep-IsValid : IsValid asleep
  sleep-IsValid = record {
    init_place = v.init_place;
    init_lives = same_lives s.initproc ∙ v.init_lives;
    unused_free = λ q lt u. same_parent q ∙ v.unused_free q lt (sym (same_unused q) ∙ u);
    pid_range = λ q lt u.
        subst (λ n. (0 < n) × (n < s.nextpid)) (sym (same_pid q))
          (v.pid_range q lt (sym (same_unused q) ∙ u));
    nextpid = v.nextpid;
    pids = λ q r lq lr uq ur e.
        v.pids q r lq lr (sym (same_unused q) ∙ uq) (sym (same_unused r) ∙ ur)
          (sym (same_pid q) ∙ e ∙ same_pid r);
    parents = λ q p lt e.
        (let r = v.parents q p lt (sym (same_parent q) ∙ e) in (r.0, same_lives p ∙ r.1));
    no_missed = λ q p lt e z. elim (Bool-cases (me == p)) [
      | inl y ↦
          let same : (p == me) ≡ true = ground arith in
          let child : IsChild s.proc me q =
            ap (λ o. is_proc o me) (sym (same_parent q) ∙ e) ∙ same in
          let no_ = no_zombie q (omega arith, omega (arith, lt)) child in
          let yes_ : is_zombie (s.proc q).state ≡ true = sym (same_zombie q) ∙ z in absurd (cc)
      | inr n ↦
          ap (λ x. in_wait x p) (update_ne s.proc me _ p (ground arith))
          ∙ v.no_missed q p lt (sym (same_parent q) ∙ e) (sym (same_zombie q) ∙ z)
    ];
  }

-- How a pass of `wait` ends, with the system that it leaves.
pub data Ends (s : System) (me : ℕ) (copies : Bool) : Waited → System → Type 0 where
  -- A zombie child is reaped, and its place is free.
  reaps :
      (q : ℕ) (t : System)
      → q < nproc
      → IsChild s.proc me q
      → is_zombie (s.proc q).state ≡ true
      → copies ≡ true
      → t.proc q ≡ freed (s.proc q)
      → ((r : ℕ) → r ≢ q → t.proc r ≡ s.proc r)
      → Ends s me copies (reaped (s.proc q).pid (s.proc q).xstate) t
  -- Its status cannot be stored, and it stays.
  loses :
      (q : ℕ)
      → q < nproc
      → IsChild s.proc me q
      → is_zombie (s.proc q).state ≡ true
      → copies ≡ false
      → Ends s me copies fails s
  -- There is nothing to wait for, or the process has been killed.
  gives_up :
      ((q : ℕ) → q < nproc → IsChild s.proc me q → is_zombie (s.proc q).state ≡ false)
      → ((q : ℕ) → q < nproc → is_proc (s.proc q).parent me ≡ false) ⊎ ((s.proc me).killed ≡ true)
      → Ends s me copies fails s
  -- There are children, and none is a zombie: the process sleeps on its own channel.
  sleeps :
      (child : ℕ) (t : System)
      → child < nproc
      → IsChild s.proc me child
      → ((q : ℕ) → q < nproc → IsChild s.proc me q → is_zombie (s.proc q).state ≡ false)
      → (s.proc me).killed ≡ false
      → t.proc me ≡ record (s.proc me) { chan = address me; state = sleeping }
      → ((r : ℕ) → r ≢ me → t.proc r ≡ s.proc r)
      → Ends s me copies waits t

wait_child :
    (copies : Bool) (me q : ℕ) (s : System)
    → scan s.proc me nproc 0 false ≡ (some q, true)
    → wait copies me s
      ≡ (if copies then (reaped (s.proc q).pid (s.proc q).xstate, freeproc q s) else (fails, s))
unfolding wait wait_end
wait_child copies me q s e = ap (wait_end copies me s) e

wait-none :
    (copies b : Bool) (me : ℕ) (s : System)
    → scan s.proc me nproc 0 false ≡ (none, b)
    → wait copies me s
      ≡ (if not b || (s.proc me).killed then (fails, s) else (waits, sleep me (address me) s))
unfolding wait wait_end
wait-none copies b me s e = ap (wait_end copies me s) e

-- A pass of `wait` by a living process keeps the invariant of the table. If there is a zombie child
-- and its status can be stored, it reaps one, with its pid and status, and frees its place; it goes to
-- sleep only with a child, without a zombie among its children, and not killed. It returns -1 for a
-- status that cannot be stored, and without a zombie child if it has no child or has been killed.
pub wait_lem :
    (copies : Bool) (me : ℕ) (s : System)
    → IsValid s
    → lives (s.proc me).state ≡ true
    → IsValid (wait copies me s).1 × Ends s me copies (wait copies me s).0 (wait copies me s).1
unfolding freeproc sleep
wait_lem copies me s v living = elim (scan_lem s.proc me nproc 0 false) [
  | inl (q, e, place, child, dead) ↦ found copies q e place.1 child dead
  | inr (b, e, alive, none_there, still, some_there) ↦
      quiet b e (λ q lt. alive q (omega arith, omega (arith, lt)))
        (λ f q lt. none_there f q (omega arith, omega (arith, lt))) (λ t. a_child (some_there t))
]
  where
    Good : Waited × System → Type 0
    Good r = IsValid r.1 × Ends s me copies r.0 r.1

    a_child :
        (false ≡ true) ⊎ ((q : ℕ) × In nproc 0 q × IsChild s.proc me q)
        → (q : ℕ) × (q < nproc) × IsChild s.proc me q
    a_child (inl e) = absurd cc
    a_child (inr (q, place, child)) = (q, omega (arith, place.1), child)

    found :
        (c : Bool) (q : ℕ)
        → scan s.proc me nproc 0 false ≡ (some q, true)
        → q < 0 + nproc
        → IsChild s.proc me q
        → is_zombie (s.proc q).state ≡ true
        → IsValid (wait copies me s).1 × Ends s me copies (wait copies me s).0 (wait copies me s).1
    found c q e lt child dead = elim (Bool-cases copies) [
      | inl y ↦ subst Good (sym (wait_child copies me q s e ∙ rw y refl)) (
        free-IsValid s q v (omega arith) dead,
        reaps q (freeproc q s) (omega arith) child dead y (at_np s q v (omega arith) dead)
            (at_other s q v (omega arith) dead),
      )
      | inr n ↦
          subst Good (sym (wait_child copies me q s e ∙ rw n refl))
            (v, loses q (omega arith) child dead n)
    ]

    quiet :
        (b : Bool)
        → scan s.proc me nproc 0 false ≡ (none, b)
        → ((q : ℕ) → q < nproc → IsChild s.proc me q → is_zombie (s.proc q).state ≡ false)
        → (b ≡ false → (q : ℕ) → q < nproc → is_proc (s.proc q).parent me ≡ false)
        → (b ≡ true → (q : ℕ) × (q < nproc) × IsChild s.proc me q)
        → IsValid (wait copies me s).1 × Ends s me copies (wait copies me s).0 (wait copies me s).1
    quiet b e alive none_there some_there = elim (Bool-cases (not b || (s.proc me).killed)) [
      | inl y ↦ subst Good (sym (wait-none copies b me s e ∙ rw y refl)) (
        v,
        gives_up alive
            (elim (Bool-cases b) [ inl t ↦ inr (ground arith) | inr f ↦ inl (none_there f) ]),
      )
      | inr n ↦ subst Good (sym (wait-none copies b me s e ∙ rw n refl)) (
        sleep-IsValid s me v living (λ q place. alive q (omega (arith, place.1))),
        (let child = some_there (ground arith) in
            sleeps child.0 (sleep me (address me) s) child.1 child.2 alive (ground arith)
              (update_self s.proc me _) (λ r ne. update_ne s.proc me _ r (λ e. ne (sym e)))),
      )
    ]
