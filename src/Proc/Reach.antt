-- ===== src/Proc/Reach.antt =====
-- Every system that the kernel can come to from its start.
use operating_systems.Prelude.{
  ℕ, ◌-◌, ◌^◌, ◌<◌, ◌≡◌, refl, sym, ap, ◌∙◌, subst, ◌≢◌, inl, inr, Bool, true, false, Option, none,
  some, [], arith, ◌==◌, if◌then◌else◌, Bool-cases, update,
}
use operating_systems.Proc.{
  initcode, no_proc, used, ProcState, sleeping, runnable, running, Proc, System, nproc, is_unused,
  is_sleeping, is_runnable, is_zombie, is_proc, wakeup, fork, exit, Waited, reaped, wait, sleep,
  awake, schedule, yield, kill, userinit, userinit_at, boot, allocproc, allocproc_at, allocpid,
  find_unused,
}
use operating_systems.Proc.Table.{IsChild, find_pid_lem}
use operating_systems.Proc.Reparent.{in_wait}
use operating_systems.Proc.Family.{lives, IsValid, Tame, set-IsValid, wakeup-IsValid}
use operating_systems.Proc.Fork.{fork_lem}
use operating_systems.Proc.Exit.{exit_lem}
use operating_systems.Proc.Wait.{Ends, wait_lem}

-- A running process calls the kernel, the scheduler picks a process, or an interrupt wakes some. The
-- channels of `sleep` outside `wait` are no processes.
pub data Step (s : System) : System → Type 0 where
  forks :
      (me : ℕ) (memory copies : Bool)
      → me < nproc
      → (s.proc me).state ≡ running
      → s.nextpid < 2 ^ 31 - 1
      → Step s (fork memory copies me s).1
  exits :
      (me status : ℕ) (t : System)
      → me < nproc
      → (s.proc me).state ≡ running
      → exit me status s ≡ some t
      → Step s t
  waits : (me : ℕ) (copies : Bool) → (s.proc me).state ≡ running → Step s (wait copies me s).1
  yields : (me : ℕ) → (s.proc me).state ≡ running → Step s (yield me s)
  sleeps :
      (me chan : ℕ)
      → me < nproc
      → (s.proc me).state ≡ running
      → nproc < chan
      → Step s (sleep me chan s)
  goes_on : (me : ℕ) → (s.proc me).state ≡ running → Step s (awake me s)
  wakes : (me : Option ℕ) (chan : ℕ) → Step s (record s { proc = wakeup me chan s.proc })
  schedules : (p : ℕ) → Step s (schedule p s)
  kills : (pid : ℕ) → Step s (kill pid s).1

pub data Reach (s : System) : System → Type 0 where
  here : Reach s s
  later : {t u : System} → Reach s t → Step t u → Reach s u

running-lives : (state : ProcState) → state ≡ running → lives state ≡ true
running-lives state e = rw e refl

module _ (s : System) (me : ℕ) (v : IsValid s) (run : (s.proc me).state ≡ running) where
  yield-IsValid : IsValid (yield me s)
  unfolding yield
  yield-IsValid = set-IsValid s me _ v (record {
    pid = refl;
    parent = refl;
    same_unused = rw run refl;
    same_lives = rw run refl;
    same_zombie = rw run refl;
    quiet = λ h. refl;
  })

  sleep-IsValid : (chan : ℕ) → me < nproc → nproc < chan → IsValid (sleep me chan s)
  unfolding sleep
  sleep-IsValid chan lt c = set-IsValid s me _ v (record {
    pid = refl;
    parent = refl;
    same_unused = rw run refl;
    same_lives = rw run refl;
    same_zombie = rw run refl;
    quiet = λ h. ground arith;
  })

  awake-IsValid : IsValid (awake me s)
  unfolding awake
  awake-IsValid = set-IsValid s me _ v (record {
    pid = refl;
    parent = refl;
    same_unused = refl;
    same_lives = refl;
    same_zombie = refl;
    quiet = λ h. rw run refl;
  })

runnable_inv : (state : ProcState) → is_runnable state ≡ true → state ≡ runnable
runnable_inv runnable e = refl
runnable_inv _ e = cc e

schedule-IsValid : (s : System) (p : ℕ) → IsValid s → IsValid (schedule p s)
unfolding schedule
schedule-IsValid s p v = elim (Bool-cases (is_runnable (s.proc p).state)) [
  | inl y ↦
      let was : (s.proc p).state ≡ runnable = runnable_inv (s.proc p).state y in
      rw y (
        set-IsValid s p _ v (record {
          pid = refl;
          parent = refl;
          same_unused = rw was refl;
          same_lives = rw was refl;
          same_zombie = rw was refl;
          quiet = λ h. refl;
        }))
  | inr n ↦ rw n v
]

abbrev killed_one : Proc → Proc
killed_one x = record x { killed = true; state = if is_sleeping x.state then runnable else x.state }

sleeping_inv : (state : ProcState) → is_sleeping state ≡ true → state ≡ sleeping
sleeping_inv sleeping e = refl
sleeping_inv _ e = cc e

killed_Tame : (q : ℕ) (x : Proc) → Tame q x (killed_one x)
killed_Tame q x = elim (Bool-cases (is_sleeping x.state)) [
  | inl y ↦
      let was : x.state ≡ sleeping = sleeping_inv x.state y in
      let now : (killed_one x).state ≡ runnable = rw y refl in
      record {
        pid = refl;
        parent = refl;
        same_unused = rw (now, was) refl;
        same_lives = rw (now, was) refl;
        same_zombie = rw (now, was) refl;
        quiet = λ h. rw now refl;
      }
  | inr n ↦
      let now : (killed_one x).state ≡ x.state = rw n refl in
      record {
        pid = refl;
        parent = refl;
        same_unused = rw now refl;
        same_lives = rw now refl;
        same_zombie = rw now refl;
        quiet = λ h. rw now h;
      }
]

kill-IsValid : (s : System) (pid : ℕ) → IsValid s → IsValid (kill pid s).1
unfolding kill
kill-IsValid s pid v = elim (find_pid_lem s.proc pid nproc 0) [
  | inl (e, all) ↦ rw (e, kill) v
  | inr (q, e, place, is) ↦
      rw (e, kill) (set-IsValid s q (killed_one (s.proc q)) v (killed_Tame q (s.proc q)))
]

exit_init : (s : System) (me status : ℕ) → (me == s.initproc) ≡ true → exit me status s ≡ none
unfolding exit
exit_init s me status e = rw e refl

exit-IsValid :
    (s t : System) (me status : ℕ)
    → me < nproc
    → (s.proc me).state ≡ running
    → exit me status s ≡ some t
    → IsValid s
    → IsValid t
exit-IsValid s t me status lt run e v = elim (Bool-cases (me == s.initproc)) [
  | inl y ↦ (let clash = sym (exit_init s me status y) ∙ e in absurd cc)
  | inr n ↦
      let r = exit_lem s me status v lt (running-lives (s.proc me).state run) (ground arith) in
      let same : r.0 ≡ t = ap (λ o. elim o [ none ↦ t | some u ↦ u ]) (sym r.1 ∙ e) in
      subst IsValid same r.2
]

Step-IsValid : {s t : System} → Step s t → IsValid s → IsValid t
Step-IsValid {s} (forks me memory copies lt run room) v =
    (fork_lem memory copies me s v lt (running-lives (s.proc me).state run) room).0
Step-IsValid {s} (exits me status t lt run e) v = exit-IsValid s t me status lt run e v
Step-IsValid {s} (waits me copies run) v =
    (wait_lem copies me s v (running-lives (s.proc me).state run)).0
Step-IsValid {s} (yields me run) v = yield-IsValid s me v run
Step-IsValid {s} (sleeps me chan lt run c) v = sleep-IsValid s me v run chan lt c
Step-IsValid {s} (goes_on me run) v = awake-IsValid s me v run
Step-IsValid {s} (wakes me chan) v = wakeup-IsValid me chan s v
Step-IsValid {s} (schedules p) v = schedule-IsValid s p v
Step-IsValid {s} (kills pid) v = kill-IsValid s pid v

module _ (root : ℕ) where
  abbrev first : Proc
  first = record no_proc { pid = 1; name = initcode; sz = 4096; cwd = some root; state = runnable }

  abbrev born : Proc
  born = record no_proc { pid = 1; state = used }

  abbrev started : System
  started = record {
    proc = update (update boot.proc 0 born) 0 first;
    nextpid = 2;
    initproc = 0;
    calls = [];
  }

  each :
      (P : ℕ → Proc → Type 0)
      → P 0 first
      → ((q : ℕ) → q ≢ 0 → P q no_proc)
      → (q : ℕ) → P q (started.proc q)
  each P zero_ other q = elim (Bool-cases (0 == q)) [
    | inl y ↦ let same : 0 ≡ q = ground arith in rw y (subst (λ z. P z first) same zero_)
    | inr n ↦ rw n (other q (ground arith))
  ]

  pids :
      (q r : ℕ)
      → is_unused (started.proc q).state ≡ false
      → is_unused (started.proc r).state ≡ false
      → q ≡ r
  pids q r uq ur =
      let zero_q =
        each (λ q y. is_unused y.state ≡ false → q ≡ 0) (λ u. refl) (λ q ne u. cc) q uq in
      let zero_r =
        each (λ q y. is_unused y.state ≡ false → q ≡ 0) (λ u. refl) (λ q ne u. cc) r ur in
      zero_q ∙ sym zero_r

  started-IsValid : IsValid started
  started-IsValid = record {
    init_place = omega arith;
    init_lives = refl;
    unused_free = λ q lt.
        each (λ q y. is_unused y.state ≡ true → y.parent ≡ none) (λ u. refl) (λ q ne u. refl) q;
    pid_range = λ q lt.
        each (λ q y. is_unused y.state ≡ false → (0 < y.pid) × (y.pid < 2))
          (λ u. (omega arith, omega arith)) (λ q ne u. absurd (cc)) q;
    nextpid = omega arith;
    pids = λ q r lq lr uq ur e. pids q r uq ur;
    parents = λ q p lt.
        each (λ q y. y.parent ≡ some p → (p < nproc) × (lives (started.proc p).state ≡ true))
          (λ e. absurd cc) (λ q ne e. absurd cc) q;
    no_missed = λ q p lt.
        each
          (λ q y. y.parent ≡ some p → is_zombie y.state ≡ true → in_wait (started.proc p) p ≡ false)
          (λ e z. absurd cc) (λ q ne e z. absurd cc) q;
  }

  userinit_run : userinit root boot ≡ started
  unfolding userinit userinit_at allocproc allocproc_at allocpid find_unused
  userinit_run = refl

pub Reach-IsValid : {s t : System} → Reach s t → IsValid s → IsValid t
Reach-IsValid here v = v
Reach-IsValid (later r step) v = Step-IsValid step (Reach-IsValid r v)

pub start-IsValid : (root : ℕ) → IsValid (userinit root boot)
start-IsValid root = subst IsValid (sym (userinit_run root)) (started-IsValid root)

-- A parent with a zombie child reaps one.
reaps_one :
    (t : System) (p q : ℕ) (w : Waited) (u : System)
    → Ends t p true w u
    → q < nproc
    → IsChild t.proc p q
    → is_zombie (t.proc q).state ≡ true
    → (pid status : ℕ) × (w ≡ reaped pid status)
reaps_one t p q w u (Ends.reaps r free_r lr c z k own others) lt child dead =
    ((t.proc r).pid, (t.proc r).xstate, refl)
reaps_one t p q w u (Ends.loses r lr c z k) lt child dead = absurd (cc)
reaps_one t p q w u (Ends.gives_up alive why) lt child dead =
    (let n = alive q lt child in absurd (cc))
reaps_one t p q w u (Ends.sleeps c asleep lc child_c alive k own others) lt child dead =
    (let n = alive q lt child in absurd (cc))

wait_reaps :
    (t : System) (p q : ℕ)
    → IsValid t
    → q < nproc
    → (t.proc q).parent ≡ some p
    → is_zombie (t.proc q).state ≡ true
    → (pid status : ℕ) × ((wait true p t).0 ≡ reaped pid status)
wait_reaps t p q v lt e z =
    let parent = v.parents q p lt e in
    let child : IsChild t.proc p q = ap (λ o. is_proc o p) e ∙ ground arith in
    reaps_one t p q (wait true p t).0 (wait true p t).1 (wait_lem true p t v parent.1).1 lt child z

-- In every system that the kernel comes to from its start before the pids run out (`fork` is called
-- only below the pid 2 ^ 31 - 1), whatever else processes, scheduler and interrupts do: `init` lives; no two processes have one pid; every process with a parent has a living one; and the
-- parent of a zombie does not sleep in `wait`, so that no exit is missed, and its next pass of `wait`
-- reaps a zombie child if the status can be stored.
pub family :
    (root : ℕ) {t : System}
    → Reach (userinit root boot) t
    → (lives (t.proc t.initproc).state ≡ true)
      × ((q r : ℕ)
          → q < nproc
          → r < nproc
          → is_unused (t.proc q).state ≡ false
          → is_unused (t.proc r).state ≡ false
          → (t.proc q).pid ≡ (t.proc r).pid
          → q ≡ r)
      × ((q p : ℕ)
          → q < nproc
          → (t.proc q).parent ≡ some p
          → (p < nproc) × (lives (t.proc p).state ≡ true))
      × ((q p : ℕ)
          → q < nproc
          → (t.proc q).parent ≡ some p
          → is_zombie (t.proc q).state ≡ true
          → (in_wait (t.proc p) p ≡ false)
            × ((pid status : ℕ) × ((wait true p t).0 ≡ reaped pid status)))
family root {t} r =
    let v = Reach-IsValid r (start-IsValid root) in
    (
      v.init_lives,
      v.pids,
      v.parents,
      λ q p lt e z. (v.no_missed q p lt e z, wait_reaps t p q v lt e z),
    )
