-- ===== src/Proc/Family.antt =====
-- The invariant of the table: pids, parents, and zombies that wait for their parents.
use operating_systems.Prelude.{
  ℕ, ◌<◌, ◌≡◌, refl, sym, ◌∙◌, subst, inl, inr, Bool, true, false, Option, none, some, List, arith,
  ◌==◌, Bool-cases, update,
}
use operating_systems.Proc.{
  ProcState, unused, zombie, Proc, System, nproc, is_unused, is_zombie, set_proc, Call,
}
use operating_systems.Proc.Reparent.{Kept, in_wait, Kept-in_wait, wakeup-Kept}
use operating_systems.Proc.{wakeup}

-- A process that has been made and has not exited.
abbrev pub lives : ProcState → Bool
lives unused = false
lives zombie = false
lives _ = true

pub record IsValid (s : System) : Type 0 where
  pub init_place : s.initproc < nproc
  pub init_lives : lives (s.proc s.initproc).state ≡ true
  pub unused_free :
      (q : ℕ) → q < nproc → is_unused (s.proc q).state ≡ true → (s.proc q).parent ≡ none
  -- No two processes have one pid.
  pub pid_range :
      (q : ℕ)
      → q < nproc
      → is_unused (s.proc q).state ≡ false
      → (0 < (s.proc q).pid) × ((s.proc q).pid < s.nextpid)
  pub nextpid : 0 < s.nextpid
  pub pids :
      (q r : ℕ)
      → q < nproc
      → r < nproc
      → is_unused (s.proc q).state ≡ false
      → is_unused (s.proc r).state ≡ false
      → (s.proc q).pid ≡ (s.proc r).pid
      → q ≡ r
  -- Every parent lives, so that every zombie has a process to reap it.
  pub parents :
      (q p : ℕ)
      → q < nproc
      → (s.proc q).parent ≡ some p
      → (p < nproc) × (lives (s.proc p).state ≡ true)
  -- No process sleeps in `wait` while it has a zombie child: no wakeup is lost.
  pub no_missed :
      (q p : ℕ)
      → q < nproc
      → (s.proc q).parent ≡ some p
      → is_zombie (s.proc q).state ≡ true
      → in_wait (s.proc p) p ≡ false

-- A change that the invariant does not see: the process is made, dead or in `wait` only if it was.
pub record Tame (p : ℕ) (x y : Proc) : Type 0 where
  pub pid : y.pid ≡ x.pid
  pub parent : y.parent ≡ x.parent
  pub same_unused : is_unused y.state ≡ is_unused x.state
  pub same_lives : lives y.state ≡ lives x.state
  pub same_zombie : is_zombie y.state ≡ is_zombie x.state
  pub quiet : in_wait x p ≡ false → in_wait y p ≡ false

pub Tame-refl : (p : ℕ) (x : Proc) → Tame p x x
Tame-refl p x = record {
  pid = refl;
  parent = refl;
  same_unused = refl;
  same_lives = refl;
  same_zombie = refl;
  quiet = λ h. h;
}

pub Tame-IsValid :
    (s : System) (g : ℕ → Proc) (calls : List Call)
    → IsValid s
    → ((q : ℕ) → Tame q (s.proc q) (g q))
    → IsValid (record s { proc = g; calls = calls })
Tame-IsValid s g calls v t = record {
  init_place = v.init_place;
  init_lives = (t s.initproc).same_lives ∙ v.init_lives;
  unused_free = λ q lt u. (t q).parent ∙ v.unused_free q lt (sym (t q).same_unused ∙ u);
  pid_range = λ q lt u.
      subst (λ n. (0 < n) × (n < s.nextpid)) (sym (t q).pid)
        (v.pid_range q lt (sym (t q).same_unused ∙ u));
  nextpid = v.nextpid;
  pids = λ q r lq lr uq ur e.
      v.pids q r lq lr (sym (t q).same_unused ∙ uq) (sym (t r).same_unused ∙ ur)
        (sym (t q).pid ∙ e ∙ (t r).pid);
  parents = λ q p lt e.
      (let r = v.parents q p lt (sym (t q).parent ∙ e) in (r.0, (t p).same_lives ∙ r.1));
  no_missed = λ q p lt e z.
      (t p).quiet (v.no_missed q p lt (sym (t q).parent ∙ e) (sym (t q).same_zombie ∙ z));
}

-- What a woken process keeps.
pub Kept-unused : (x y : Proc) → Kept x y → is_unused y.state ≡ is_unused x.state
Kept-unused x y k = elim k.state [ inl e ↦ rw e refl | inr (e, f) ↦ rw (e, f) refl ]

pub Kept-lives : (x y : Proc) → Kept x y → lives y.state ≡ lives x.state
Kept-lives x y k = elim k.state [ inl e ↦ rw e refl | inr (e, f) ↦ rw (e, f) refl ]

pub Kept-zombie : (x y : Proc) → Kept x y → is_zombie y.state ≡ is_zombie x.state
Kept-zombie x y k = elim k.state [ inl e ↦ rw e refl | inr (e, f) ↦ rw (e, f) refl ]

pub Kept-Tame : (p : ℕ) (x y : Proc) → Kept x y → y.parent ≡ x.parent → Tame p x y
Kept-Tame p x y k e = record {
  pid = k.pid;
  parent = e;
  same_unused = Kept-unused x y k;
  same_lives = Kept-lives x y k;
  same_zombie = Kept-zombie x y k;
  quiet = Kept-in_wait x y p k;
}

pub wakeup-IsValid :
    (me : Option ℕ) (chan : ℕ) (s : System)
    → IsValid s
    → IsValid (record s { proc = wakeup me chan s.proc })
wakeup-IsValid me chan s v = Tame-IsValid s (wakeup me chan s.proc) s.calls v (λ q.
    (let k = wakeup-Kept me chan s.proc q in
      Kept-Tame q (s.proc q) (wakeup me chan s.proc q) k.0 k.1))

-- A tame change of one process.
pub set-IsValid :
    (s : System) (p : ℕ) (x : Proc) → IsValid s → Tame p (s.proc p) x → IsValid (set_proc s p x)
set-IsValid s p x v t = Tame-IsValid s (update s.proc p x) s.calls v at
  where
    at : (q : ℕ) → Tame q (s.proc q) (update s.proc p x q)
    at q = elim (Bool-cases (p == q)) [
      | inl y ↦ let same : p ≡ q = ground arith in rw y (subst (λ z. Tame z (s.proc z) x) same t)
      | inr n ↦ rw n (Tame-refl q (s.proc q))
    ]
