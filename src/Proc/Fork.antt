-- ===== src/Proc/Fork.antt =====
-- `fork` makes a child with a new pid, or leaves the processes that there are alone.
use operating_systems.Prelude.{
  ℕ, ◌+◌, ◌-◌, ◌%◌, ◌^◌, ◌<◌, ◌≡◌, refl, sym, ap, ap₂, ◌∙◌, fun_ext, subst, ◌≢◌, ◌⊎◌, inl, inr,
  Bool, true, false, Option, none, some, List, [], arith, ◌==◌, Bool-cases, update, update_self,
  update_ne,
}
use operating_systems.Proc.{
  zombie, ProcState, unused, used, runnable, Proc, System, Call, nproc, is_unused, is_zombie,
  find_unused, set_proc, freeproc, allocpid, allocproc_at, allocproc, child_of, dup_calls,
  idup_call, fork_end, fork,
}
use operating_systems.Proc.Table.{find_unused_lem, find_unused-none}
use operating_systems.Proc.Reparent.{in_wait}
use operating_systems.Proc.Family.{lives, IsValid}

lives_used : (state : ProcState) → lives state ≡ true → is_unused state ≡ false
lives_used unused h = cc h
lives_used _ h = refl

-- A process for an unused place: none, or a living one with the next pid and a living parent.
pub data IsNew (s : System) (x : Proc) : Type 0 where
  absent : is_unused x.state ≡ true → x.parent ≡ none → IsNew s x
  child :
      (me : ℕ)
      → me < nproc
      → lives (s.proc me).state ≡ true
      → lives x.state ≡ true
      → x.pid ≡ s.nextpid
      → x.parent ≡ some me
      → IsNew s x

new_unused : (s : System) (x : Proc) → IsNew s x → is_unused x.state ≡ true → x.parent ≡ none
new_unused s x (absent u p) h = p
new_unused s x (child me lt l lx pid p) h = (let f = lives_used x.state lx in absurd (cc))

new_pid : (s : System) (x : Proc) → IsNew s x → is_unused x.state ≡ false → x.pid ≡ s.nextpid
new_pid s x (absent u p) h = absurd (cc)
new_pid s x (child me lt l lx pid p) h = pid

new_parent :
    (s : System) (x : Proc) (p : ℕ)
    → IsNew s x
    → x.parent ≡ some p
    → (p < nproc) × (lives (s.proc p).state ≡ true)
new_parent s x p (absent u n) h = (let clash = sym n ∙ h in absurd cc)
new_parent s x p (child me lt l lx pid e) h =
    let both : some me ≡ some p = sym e ∙ h in
    let same : me ≡ p = ground arith in
    subst (λ z. (z < nproc) × (lives (s.proc z).state ≡ true)) same (lt, l)

not_zombie :
    (state : ProcState) → (is_unused state ≡ true) ⊎ (lives state ≡ true) → is_zombie state ≡ false
not_zombie zombie (inl h) = cc h
not_zombie zombie (inr h) = cc h
not_zombie _ h = refl

new_zombie : (s : System) (x : Proc) → IsNew s x → is_zombie x.state ≡ false
new_zombie s x (absent u p) = not_zombie x.state (inl u)
new_zombie s x (child me lt l lx pid p) = not_zombie x.state (inr lx)

module _ (s : System) (np : ℕ) (x : Proc) (calls : List Call) (v : IsValid s) (place : np < nproc)
    (free : is_unused (s.proc np).state ≡ true) (new : IsNew s x) where
  abbrev made : System
  made = record {
    proc = update s.proc np x;
    nextpid = s.nextpid + 1;
    initproc = s.initproc;
    calls = calls;
  }

  at_np : made.proc np ≡ x
  at_np = update_self s.proc np x

  at_other : (q : ℕ) → q ≢ np → made.proc q ≡ s.proc q
  at_other q ne = update_ne s.proc np x q (λ e. ne (sym e))

  living_other : (p : ℕ) → lives (s.proc p).state ≡ true → p ≢ np
  living_other p l e =
      (let u = lives_used (s.proc p).state l in
        let f : is_unused (s.proc p).state ≡ true = ap (λ z. is_unused (s.proc z).state) e ∙ free in
        cc)

  still_lives : (p : ℕ) → lives (s.proc p).state ≡ true → lives (made.proc p).state ≡ true
  still_lives p l = ap (λ (y : Proc). lives y.state) (at_other p (living_other p l)) ∙ l

  -- What holds of the new process and of each other one holds of every process.
  each :
      (P : ℕ → Proc → Type 0)
      → P np x
      → ((q : ℕ) → q ≢ np → P q (s.proc q))
      → (q : ℕ) → P q (made.proc q)
  each P here there q = elim (Bool-cases (np == q)) [
    | inl y ↦ let same : np ≡ q = ground arith in rw y (subst (λ z. P z x) same here)
    | inr n ↦ rw n (there q (ground arith))
  ]

  pids :
      (q r : ℕ)
      → q < nproc
      → r < nproc
      → is_unused (made.proc q).state ≡ false
      → is_unused (made.proc r).state ≡ false
      → (made.proc q).pid ≡ (made.proc r).pid
      → q ≡ r
  pids q r lq lr =
      each
        (λ q y.
          q < nproc
          → is_unused y.state ≡ false
          → is_unused (made.proc r).state ≡ false
          → y.pid ≡ (made.proc r).pid
          → q ≡ r)
        (λ lt ux ur e.
          each (λ r z. r < nproc → is_unused z.state ≡ false → x.pid ≡ z.pid → np ≡ r)
            (λ l u e. refl)
            (λ r ne l u e.
              (let range = v.pid_range r l u in
                absurd (omega (arith, range.1, e, new_pid s x new ux))))
            r lr ur e)
        (λ q ne lt uq ur e.
          each (λ r z. r < nproc → is_unused z.state ≡ false → (s.proc q).pid ≡ z.pid → q ≡ r)
            (λ l u e.
              (let range = v.pid_range q lt uq in
                absurd (omega (arith, range.1, e, new_pid s x new u))))
            (λ r nr l u e. v.pids q r lt l uq u e) r lr ur e)
        q lq

  made-IsValid : IsValid made
  made-IsValid = record {
    init_place = v.init_place;
    init_lives = still_lives s.initproc v.init_lives;
    unused_free =
        each (λ q y. q < nproc → is_unused y.state ≡ true → y.parent ≡ none)
          (λ lt u. new_unused s x new u) (λ q ne lt u. v.unused_free q lt u);
    pid_range =
        each (λ q y. q < nproc → is_unused y.state ≡ false → (0 < y.pid) × (y.pid < s.nextpid + 1))
          (λ lt u. (let e = new_pid s x new u in (omega (arith, e, v.nextpid), omega (arith, e))))
          (λ q ne lt u. (let r = v.pid_range q lt u in (r.0, omega (arith, r.1))));
    nextpid = omega arith;
    pids = pids;
    parents = λ q p.
        each
          (λ q y. q < nproc → y.parent ≡ some p → (p < nproc) × (lives (made.proc p).state ≡ true))
          (λ lt e. (let r = new_parent s x p new e in (r.0, still_lives p r.1)))
          (λ q ne lt e. (let r = v.parents q p lt e in (r.0, still_lives p r.1))) q;
    no_missed = λ q p.
        each
          (λ q y.
            q < nproc
            → y.parent ≡ some p
            → is_zombie y.state ≡ true
            → in_wait (made.proc p) p ≡ false)
          (λ lt e z. (let n = new_zombie s x new in absurd (cc)))
          (λ q ne lt e z.
            (let r = v.parents q p lt e in
              ap (λ y. in_wait y p) (at_other p (living_other p r.1)) ∙ v.no_missed q p lt e z))
          q;
  }

update_twice : (f : ℕ → Proc) (i : ℕ) (a b : Proc) → update (update f i a) i b ≡ update f i b
update_twice f i a b =
    fun_ext (λ j. elim (Bool-cases (i == j)) [ inl y ↦ rw y refl | inr n ↦ rw n refl ])

-- What `fork` comes to: a child in an unused place, or no process made.
pub data Forked (s : System) (memory copies : Bool) (me : ℕ) : Option ℕ → System → Type 0 where
  forks :
      (np : ℕ) (t : System)
      → memory ≡ true
      → copies ≡ true
      → np < nproc
      → is_unused (s.proc np).state ≡ true
      → (t.proc np).pid ≡ s.nextpid
      → (t.proc np).parent ≡ some me
      → (t.proc np).state ≡ runnable
      → (t.proc np).sz ≡ (s.proc me).sz
      → (t.proc np).cwd ≡ (s.proc me).cwd
      → (t.proc np).name ≡ (s.proc me).name
      → t.nextpid ≡ s.nextpid + 1
      → ((q : ℕ) → q ≢ np → t.proc q ≡ s.proc q)
      → Forked s memory copies me (some s.nextpid) t
  refuses :
      (t : System)
      → ((q : ℕ) → q < nproc → is_unused (s.proc q).state ≡ false)
        ⊎ ((memory ≡ false) ⊎ (copies ≡ false))
      → ((q : ℕ) → is_unused (s.proc q).state ≡ false → t.proc q ≡ s.proc q)
      → ((q : ℕ) → is_unused (t.proc q).state ≡ is_unused (s.proc q).state)
      → Forked s memory copies me none t

abbrev pair : Option ℕ → System → Option ℕ × System
pair o t = (o, t)

abbrev taken : System → ℕ → Proc
taken s np = record (s.proc np) { pid = s.nextpid; state = used }

abbrev cleared : Proc → Proc
cleared x = record x {
  sz = 0;
  pid = 0;
  parent = none;
  name = [];
  chan = 0;
  killed = false;
  xstate = 0;
  state = unused;
}

module _ (s : System) (np me : ℕ) (v : IsValid s) (place : np < nproc)
    (free : is_unused (s.proc np).state ≡ true) (lt : me < nproc)
    (living : lives (s.proc me).state ≡ true) (room : s.nextpid < 2 ^ 31 - 1) where
  no_wrap : (s.nextpid + 1) % 2 ^ 32 ≡ s.nextpid + 1
  no_wrap = omega arith

  abbrev Good : Bool → Bool → Option ℕ × System → Type 0
  Good memory copies r = IsValid r.1 × Forked s memory copies me r.0 r.1

  abbrev refused : System
  refused = made s np (cleared (s.proc np)) s.calls v place free (absent refl refl)

  used_other : (q : ℕ) → is_unused (s.proc q).state ≡ false → q ≢ np
  used_other q u e =
      (let f : is_unused (s.proc q).state ≡ true = ap (λ z. is_unused (s.proc z).state) e ∙ free in
        cc)

  Good-refused :
      (memory copies : Bool)
      → (memory ≡ false) ⊎ (copies ≡ false)
      → Good memory copies (none, refused)
  Good-refused memory copies why = (
    made-IsValid s np (cleared (s.proc np)) s.calls v place free (absent refl refl),
    refuses refused (inr why)
        (λ q u. update_ne s.proc np (cleared (s.proc np)) q (λ e. used_other q u (sym e)))
        (λ q. elim (Bool-cases (np == q)) [
          | inl y ↦
              let same : np ≡ q = ground arith in
              rw y (sym (subst (λ z. is_unused (s.proc z).state ≡ true) same free))
          | inr n ↦ rw n refl
        ]),
  )

  abbrev given : System
  given = set_proc (record s { nextpid = (s.nextpid + 1) % 2 ^ 32 }) np (taken s np)

  freed_given : freeproc np given ≡ refused
  unfolding freeproc
  freed_given =
      ap₂ (λ (f : ℕ → Proc) (n : ℕ). record s { proc = f; nextpid = n })
        (update_twice s.proc np (taken s np) (cleared (given.proc np))
          ∙ ap (λ y. update s.proc np (cleared y)) (update_self s.proc np (taken s np)))
        no_wrap

  me_other : me ≢ np
  me_other = used_other me (lives_used (s.proc me).state living)

  abbrev calls : List Call
  calls = idup_call (s.proc me).cwd (dup_calls (s.proc me).ofile s.calls)

  abbrev newborn : Proc
  newborn = child_of me (s.proc me) (taken s np)

  newborn-IsNew : IsNew s newborn
  unfolding child_of
  newborn-IsNew = child me lt living refl refl refl

  abbrev grown : System
  grown = made s np newborn calls v place free newborn-IsNew

  Good-grown : Good true true (some s.nextpid, grown)
  unfolding child_of
  Good-grown =
      let here = update_self s.proc np newborn in
      (
        made-IsValid s np newborn calls v place free newborn-IsNew,
        forks np grown refl refl place free (ap (λ (x : Proc). x.pid) here)
            (ap (λ (x : Proc). x.parent) here) (ap (λ (x : Proc). x.state) here)
            (ap (λ (x : Proc). x.sz) here) (ap (λ (x : Proc). x.cwd) here)
            (ap (λ (x : Proc). x.name) here) refl
            (λ q ne. update_ne s.proc np newborn q (λ e. ne (sym e))),
      )

  abbrev outcome : Proc → Proc → ℕ → Option ℕ × System
  outcome x y n = (
    some x.pid,
    record {
      proc = update given.proc np (child_of me y x);
      nextpid = n;
      initproc = s.initproc;
      calls = idup_call y.cwd (dup_calls y.ofile s.calls);
    },
  )

  fork_done : fork_end true me (some np, given) ≡ (some s.nextpid, grown)
  unfolding fork_end
  fork_done =
      ap (λ x. outcome x (given.proc me) ((s.nextpid + 1) % 2 ^ 32))
        (update_self s.proc np (taken s np))
      ∙ ap (λ y. outcome (taken s np) y ((s.nextpid + 1) % 2 ^ 32))
          (update_ne s.proc np (taken s np) me (λ e. me_other (sym e)))
      ∙ ap₂
          (λ (f : ℕ → Proc) (n : ℕ).
            pair (some s.nextpid)
              (record { proc = f; nextpid = n; initproc = s.initproc; calls = calls }))
          (update_twice s.proc np (taken s np) newborn) no_wrap

  -- The three ways that a place found leads to.
  at_place :
      (memory copies : Bool)
      → Good memory copies (fork_end copies me (allocproc_at memory s (some np)))
  unfolding allocproc_at fork_end allocpid
  at_place false copies =
      subst (Good false copies) (ap (λ (t : System). pair none t) (sym freed_given))
        (Good-refused false copies (inl refl))
  at_place true false =
      subst (Good true false) (ap (λ (t : System). pair none t) (sym freed_given))
        (Good-refused true false (inr refl))
  at_place true true = subst (Good true true) (sym fork_done) Good-grown

none_left :
    (copies : Bool) (me : ℕ) (s : System)
    → IsValid s
    → find_unused s.proc nproc 0 ≡ none
    → (memory : Bool)
    → IsValid (fork_end copies me (allocproc_at memory s none)).1
      × Forked s memory copies me
          (fork_end copies me (allocproc_at memory s none)).0
          (fork_end copies me (allocproc_at memory s none)).1
unfolding fork_end allocproc_at
none_left copies me s v e memory = (
  v,
  refuses s (inl (λ q lt. find_unused-none s.proc nproc 0 e q (omega arith, omega (arith, lt))))
      (λ q u. refl) (λ q. refl),
)

-- `fork` by a living process, before the pids run out, makes a runnable child with a new pid, of the
-- process's size and directory, in a place that was unused, exactly if there is such a place, memory
-- for the child and for the copy of the process's memory; else it fails, no process that is in use
-- changes, and no place is taken. No other process changes, and the invariant is kept.
pub fork_lem :
    (memory copies : Bool) (me : ℕ) (s : System)
    → IsValid s
    → me < nproc
    → lives (s.proc me).state ≡ true
    → s.nextpid < 2 ^ 31 - 1
    → IsValid (fork memory copies me s).1
      × Forked s memory copies me (fork memory copies me s).0 (fork memory copies me s).1
unfolding fork allocproc
fork_lem memory copies me s v lt living room = at (find_unused s.proc nproc 0) refl
  where
    at :
        (slot : Option ℕ)
        → find_unused s.proc nproc 0 ≡ slot
        → IsValid (fork_end copies me (allocproc_at memory s slot)).1
          × Forked s memory copies me
              (fork_end copies me (allocproc_at memory s slot)).0
              (fork_end copies me (allocproc_at memory s slot)).1
    at none e = none_left copies me s v e memory
    at (some np) e =
        let f = find_unused_lem s.proc nproc 0 np e in
        at_place s np me v (omega (arith, f.0.1)) f.1 lt living room memory copies
