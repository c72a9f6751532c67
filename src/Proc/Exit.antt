-- ===== src/Proc/Exit.antt =====
-- `exit` keeps the invariant: nobody loses a parent, and no parent misses the exit.
use operating_systems.Prelude.{
  ℕ, ◌<◌, ◌≡◌, refl, sym, ap, ◌∙◌, subst, ◌≢◌, inl, inr, true, false, none, some, arith, ◌==◌,
  Bool-cases, update, update_self, update_ne,
}
use operating_systems.Proc.{
  ProcState, unused, zombie, Proc, System, nproc, is_unused, is_zombie, is_proc, address,
  parent_address, wakeup, reparent, exit, all_closed, close_calls, iput_call,
}
use operating_systems.Proc.Reparent.{
  Kept, Kept-refl, Kept-trans, in_wait, Kept-in_wait, wakeup-Kept, wakeup-in_wait, given,
  reparent_lem,
}
use operating_systems.Proc.Family.{lives, IsValid, Kept-unused, Kept-lives, Kept-zombie}

module _ (s : System) (me status : ℕ) (v : IsValid s) (place : me < nproc)
    (living : lives (s.proc me).state ≡ true) (other : s.initproc ≢ me) where
  abbrev closed : ℕ → Proc
  closed =
      update s.proc me (record (s.proc me) { ofile = all_closed (s.proc me).ofile; cwd = none })

  abbrev passed : ℕ → Proc
  passed = reparent s.initproc me closed

  abbrev up : ℕ → Proc
  up = wakeup (some me) (parent_address (passed me).parent) passed

  abbrev final : ℕ → Proc
  final = update up me (record (up me) { xstate = status; state = zombie })

  closed-Kept : (q : ℕ) → Kept (s.proc q) (closed q) × ((closed q).parent ≡ (s.proc q).parent)
  closed-Kept q = elim (Bool-cases (me == q)) [
    | inl y ↦
        let same : me ≡ q = ground arith in
        let k : Kept (s.proc me)
            (record (s.proc me) { ofile = all_closed (s.proc me).ofile; cwd = none }) =
          record { pid = refl; chan = refl; killed = refl; xstate = refl; state = inl refl } in
        rw y (
          subst
            (λ z.
              Kept (s.proc z)
                (record (s.proc me) { ofile = all_closed (s.proc me).ofile; cwd = none })
              × ((s.proc me).parent ≡ (s.proc z).parent))
            same (k, refl))
    | inr n ↦ rw n (Kept-refl (s.proc q), refl)
  ]

  passed-Kept :
      (q : ℕ)
      → q < nproc
      → Kept (s.proc q) (passed q)
        × ((passed q).parent ≡ given s.initproc me other (s.proc q).parent)
  passed-Kept q lt =
      let c = closed-Kept q in
      let r = reparent_lem s.initproc me other closed q lt in
      (Kept-trans c.0 r.0, r.1 ∙ ap (given s.initproc me other) c.1)

  up-Kept :
      (q : ℕ)
      → q < nproc
      → Kept (s.proc q) (up q) × ((up q).parent ≡ given s.initproc me other (s.proc q).parent)
  up-Kept q lt =
      let p = passed-Kept q lt in
      let w = wakeup-Kept (some me) (parent_address (passed me).parent) passed q in
      (Kept-trans p.0 w.0, w.1 ∙ p.1)

  final_other : (q : ℕ) → q ≢ me → final q ≡ up q
  final_other q ne = update_ne up me _ q (λ e. ne (sym e))

  final_me : final me ≡ record (up me) { xstate = status; state = zombie }
  final_me = update_self up me _

  -- The new parent is not `me`, and it lives.
  given-lives :
      (q p : ℕ)
      → q < nproc
      → given s.initproc me other (s.proc q).parent ≡ some p
      → (p < nproc) × (p ≢ me) × (lives (s.proc p).state ≡ true)
  given-lives q p lt e = elim (Bool-cases (is_proc (s.proc q).parent me)) [
    | inl y ↦
        let g : given s.initproc me other (s.proc q).parent ≡ some s.initproc = rw y refl in
        let both : some s.initproc ≡ some p = sym g ∙ e in
        let same : s.initproc ≡ p = ground arith in
        subst (λ z. (z < nproc) × (z ≢ me) × (lives (s.proc z).state ≡ true)) same
          (v.init_place, other, v.init_lives)
    | inr n ↦
        let g : given s.initproc me other (s.proc q).parent ≡ (s.proc q).parent = rw n refl in
        let is : (s.proc q).parent ≡ some p = sym g ∙ e in
        let r = v.parents q p lt is in
        let ne : (p == me) ≡ false = sym (ap (λ o. is_proc o me) is) ∙ n in (r.0, ground arith, r.1)
  ]

  abbrev dead : Proc
  dead = record (up me) { xstate = status; state = zombie }

  final_field : {A : Type 0} (f : Proc → A) → f dead ≡ f (up me) → (q : ℕ) → f (final q) ≡ f (up q)
  final_field f h q = elim (Bool-cases (me == q)) [
    | inl y ↦ let same : me ≡ q = ground arith in rw y (h ∙ ap (λ z. f (up z)) same)
    | inr n ↦ rw n refl
  ]

  final_parent :
      (q : ℕ) → q < nproc → (final q).parent ≡ given s.initproc me other (s.proc q).parent
  final_parent q lt = final_field (λ (x : Proc). x.parent) refl q ∙ (up-Kept q lt).1

  final_pid : (q : ℕ) → q < nproc → (final q).pid ≡ (s.proc q).pid
  final_pid q lt = final_field (λ (x : Proc). x.pid) refl q ∙ (up-Kept q lt).0.pid

  lives_used : (state : ProcState) → lives state ≡ true → is_unused state ≡ false
  lives_used unused h = cc h
  lives_used _ h = refl

  final_unused : (q : ℕ) → q < nproc → is_unused (final q).state ≡ is_unused (s.proc q).state
  final_unused q lt =
      final_field (λ (x : Proc). is_unused x.state)
        (sym (
          Kept-unused (s.proc me) (up me) (up-Kept me place).0
          ∙ lives_used (s.proc me).state living))
        q
      ∙ Kept-unused (s.proc q) (up q) (up-Kept q lt).0

  final-lives :
      (q : ℕ) → q < nproc → q ≢ me → lives (s.proc q).state ≡ true → lives (final q).state ≡ true
  final-lives q lt ne h =
      ap (λ (x : Proc). lives x.state) (final_other q ne)
      ∙ Kept-lives (s.proc q) (up q) (up-Kept q lt).0
      ∙ h

  -- The parent of the process that exits does not sleep in `wait`.
  parent_woken :
      (p : ℕ) → given s.initproc me other (s.proc me).parent ≡ some p → in_wait (final p) p ≡ false
  parent_woken p e =
      let r = given-lives me p place e in
      let is : (passed me).parent ≡ some p = (passed-Kept me place).1 ∙ e in
      let target : parent_address (passed me).parent ≡ address p = ap parent_address is in
      let awake : in_wait (up p) p ≡ false =
        subst (λ c. in_wait (wakeup (some me) c passed p) p ≡ false) (sym target)
          (wakeup-in_wait me p passed r.0 (λ e. r.1 (sym e))) in
      ap (λ x. in_wait x p) (final_other p r.1) ∙ awake

  -- Nor does the parent of another zombie.
  other_woken :
      (q p : ℕ)
      → q < nproc
      → is_zombie (s.proc q).state ≡ true
      → given s.initproc me other (s.proc q).parent ≡ some p
      → in_wait (final p) p ≡ false
  other_woken q p lt z e =
      let r = given-lives q p lt e in
      ap (λ x. in_wait x p) (final_other p r.1)
      ∙ Kept-in_wait (passed p) (up p) p
          (wakeup-Kept (some me) (parent_address (passed me).parent) passed p).0
          (elim (Bool-cases (is_proc (s.proc q).parent me)) [
            | inl y ↦
                let g : given s.initproc me other (s.proc q).parent ≡ some s.initproc = rw y refl in
                let both : some s.initproc ≡ some p = sym g ∙ e in
                let same : s.initproc ≡ p = ground arith in
                subst (λ z. in_wait (passed z) z ≡ false) same
                  ((reparent_lem s.initproc me other closed q lt).2 v.init_place
                    (ap (λ o. is_proc o me) (closed-Kept q).1 ∙ y))
            | inr n ↦
                let g : given s.initproc me other (s.proc q).parent ≡ (s.proc q).parent =
                  rw n refl in
                Kept-in_wait (s.proc p) (passed p) p (passed-Kept p r.0).0
                  (v.no_missed q p lt (sym g ∙ e) z)
          ])

  abbrev left : System
  left = record s {
    proc = final;
    calls = iput_call (s.proc me).cwd (close_calls (s.proc me).ofile s.calls);
  }

  left-IsValid : IsValid left
  left-IsValid = record {
    init_place = v.init_place;
    init_lives = final-lives s.initproc v.init_place other v.init_lives;
    unused_free = λ q lt u.
        final_parent q lt
        ∙ ap (given s.initproc me other) (v.unused_free q lt (sym (final_unused q lt) ∙ u));
    pid_range = λ q lt u.
        subst (λ n. (0 < n) × (n < s.nextpid)) (sym (final_pid q lt))
          (v.pid_range q lt (sym (final_unused q lt) ∙ u));
    nextpid = v.nextpid;
    pids = λ q r lq lr uq ur e.
        v.pids q r lq lr (sym (final_unused q lq) ∙ uq) (sym (final_unused r lr) ∙ ur)
          (sym (final_pid q lq) ∙ e ∙ final_pid r lr);
    parents = λ q p lt e.
        (let r = given-lives q p lt (sym (final_parent q lt) ∙ e) in
          (r.0, final-lives p r.0 r.1 r.2));
    no_missed = λ q p lt e z. elim (Bool-cases (q == me)) [
      | inl y ↦
          (let same : q ≡ me = ground arith in
            parent_woken p (
              subst (λ z. given s.initproc me other (s.proc z).parent ≡ some p) same
                (sym (final_parent q lt) ∙ e)))
      | inr n ↦
          let ne : q ≢ me = ground arith in
          let was : is_zombie (s.proc q).state ≡ true =
            sym (
              ap (λ (x : Proc). is_zombie x.state) (final_other q ne)
              ∙ Kept-zombie (s.proc q) (up q) (up-Kept q lt).0)
            ∙ z in
          other_woken q p lt was (sym (final_parent q lt) ∙ e)
    ];
  }

  exit_run : exit me status s ≡ some left
  unfolding exit
  exit_run = (let ne : (me == s.initproc) ≡ false = ground arith in rw ne refl)

-- `exit` by a living process other than `init` leaves it a zombie with its status, pid and parent, its
-- children with `init`, and keeps the invariant: in particular, no parent that waits misses the exit.
pub exit_lem :
    (s : System) (me status : ℕ)
    → IsValid s
    → me < nproc
    → lives (s.proc me).state ≡ true
    → (other : s.initproc ≢ me)
    → (t : System) × (exit me status s ≡ some t)
      × IsValid t
      × ((t.proc me).state ≡ zombie)
      × ((t.proc me).xstate ≡ status)
      × ((q : ℕ) → q < nproc → (t.proc q).pid ≡ (s.proc q).pid)
      × ((q : ℕ) → q < nproc → (t.proc q).parent ≡ given s.initproc me other (s.proc q).parent)
      × (t.initproc ≡ s.initproc)
      × (t.nextpid ≡ s.nextpid)
exit_lem s me status v place living other = (
  left s me status v place living other,
  exit_run s me status v place living other,
  left-IsValid s me status v place living other,
  ap (λ (x : Proc). x.state) (final_me s me status v place living other),
  ap (λ (x : Proc). x.xstate) (final_me s me status v place living other),
  final_pid s me status v place living other,
  final_parent s me status v place living other,
  refl,
  refl,
)
