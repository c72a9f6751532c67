-- ===== src/Spinlock/Exclusion.antt =====
-- One lock and any number of CPUs, whose steps in `acquire` and `release` follow each other in any
-- order.
use operating_systems.Prelude.{
  ℕ, ◌≡◌, refl, sym, ap, ◌∙◌, subst, ◌≢◌, ◌↔◌, ◌⊎◌, inl, inr, Bool, true, false, Option, none, some,
  arith, ◌==◌, if◌then◌else◌, Bool-cases, update, update_self, update_ne,
}
use operating_systems.Spinlock.{
  is_cpu, push_off, Cpu, Lock, holding, acquire_start, test_and_set, acquire_end, release_start,
  unlock, initlock,
}

-- Where a CPU stands: it has nothing to do with the lock; it is in the loop of `acquire`; it has left
-- the loop; `acquire` has returned; `release` has cleared `cpu`.
pub data Place : Type 0 where
  outside spinning entering inside leaving : Place

pub record System : Type 0 where
  pub lock : Lock
  pub place : ℕ → Place

abbrev pub moved : System → Lock → ℕ → Place → System
moved s lk i p = record { lock = lk; place = update s.place i p }

-- A step of CPU `i`. The interrupts of a CPU have a module of their own.
pub data Step (s : System) : System → Type 0 where
  starts :
      (i : ℕ) (c d : Cpu)
      → s.place i ≡ outside
      → acquire_start i s.lock c ≡ some d
      → Step s (moved s s.lock i spinning)
  tries :
      (i : ℕ)
      → s.place i ≡ spinning
      → Step s (
          moved s
            (test_and_set s.lock).1
            i
            (if (test_and_set s.lock).0 then spinning else entering))
  enters : (i : ℕ) → s.place i ≡ entering → Step s (moved s (acquire_end i s.lock) i inside)
  leaves :
      (i : ℕ) {lk : Lock}
      → s.place i ≡ inside
      → release_start i s.lock ≡ some lk
      → Step s (moved s lk i leaving)
  unlocks : (i : ℕ) → s.place i ≡ leaving → Step s (moved s (unlock s.lock) i outside)

pub data Reach (s : System) : System → Type 0 where
  here : Reach s s
  later : {t u : System} → Reach s t → Step t u → Reach s u

-- Whether a CPU has the lock: it is past the loop and has not unlocked.
abbrev pub has_lock : Place → Bool
has_lock outside = false
has_lock spinning = false
has_lock entering = true
has_lock inside = true
has_lock leaving = true

abbrev is_inside : Place → Bool
is_inside outside = false
is_inside spinning = false
is_inside entering = false
is_inside inside = true
is_inside leaving = false

abbrev pub Free : System → Type 0
Free s = (s.lock.locked ≡ false) × (s.lock.cpu ≡ none) × ((i : ℕ) → has_lock (s.place i) ≡ false)

-- CPU `h` alone has the lock, and is recorded in it while it is inside.
pub record Taken (s : System) (h : ℕ) : Type 0 where
  pub locked : s.lock.locked ≡ true
  pub has_it : has_lock (s.place h) ≡ true
  pub recorded : s.lock.cpu ≡ (if is_inside (s.place h) then some h else none)
  pub others : (i : ℕ) → i ≢ h → has_lock (s.place i) ≡ false

abbrev pub IsValid : System → Type 0
IsValid s = Free s ⊎ ((h : ℕ) × Taken s h)

-- What holds at every other place holds after a move, if it holds of the new one.
elsewhere :
    (place : ℕ → Place) (i j : ℕ) (p : Place)
    → (i ≢ j → has_lock (place j) ≡ false)
    → has_lock p ≡ false
    → has_lock (update place i p j) ≡ false
elsewhere place i j p h np = elim (Bool-cases (i == j)) [
  | inl y ↦ rw y np
  | inr n ↦ rw n (h (ground arith))
]

kept_place : (place : ℕ → Place) (i j : ℕ) (p : Place) → i ≢ j → update place i p j ≡ place j
kept_place place i j p ne = update_ne place i p j ne

different :
    (s : System) (i h : ℕ) → has_lock (s.place i) ≡ false → has_lock (s.place h) ≡ true → i ≢ h
different s i h out has_it e =
    let clash : has_lock (s.place i) ≡ true = ap (λ k. has_lock (s.place k)) e ∙ has_it in cc

-- A CPU that has not got the lock moves to a place where it has not got it either.
stays_out :
    (s : System) (i : ℕ) (p : Place)
    → has_lock (s.place i) ≡ false
    → has_lock p ≡ false
    → IsValid s
    → IsValid (moved s s.lock i p)
stays_out s i p out np (inl f) = inl (f.0, f.1, λ j. elsewhere s.place i j p (λ ne. f.2 j) np)
stays_out s i p out np (inr (h, t)) =
    let ne = different s i h out t.has_it in
    let same = kept_place s.place i h p ne in
    inr (
      h,
      record {
        locked = t.locked;
        has_it = ap has_lock same ∙ t.has_it;
        recorded = t.recorded ∙ ap (λ q. if is_inside q then some h else none) (sym same);
        others = λ j d. elsewhere s.place i j p (λ ne. t.others j d) np;
      },
    )

only_one : (s : System) (i h : ℕ) → Taken s h → has_lock (s.place i) ≡ true → i ≡ h
only_one s i h t got = elim (Bool-cases (i == h)) [
  | inl y ↦ ground arith
  | inr n ↦ let ne : i ≢ h = ground arith in let clash = t.others i ne in absurd cc
]

-- Someone has the lock, so it is taken.
Taken-by : (s : System) (i : ℕ) → IsValid s → has_lock (s.place i) ≡ true → Taken s i
Taken-by s i (inl f) got = let clash = f.2 i in absurd cc
Taken-by s i (inr (h, t)) got = subst (Taken s) (sym (only_one s i h t got)) t

-- The one CPU that has the lock moves, and still has it.
stays_in :
    (s : System) (i h : ℕ) (lk : Lock) (p : Place)
    → has_lock (s.place i) ≡ true
    → has_lock p ≡ true
    → lk.locked ≡ true
    → lk.cpu ≡ (if is_inside p then some i else none)
    → Taken s h
    → Taken (moved s lk i p) i
stays_in s i h lk p got np locked rec t = record {
  locked = locked;
  has_it = ap has_lock (update_self s.place i p) ∙ np;
  recorded = rec ∙ ap (λ q. if is_inside q then some i else none) (sym (update_self s.place i p));
  others = λ j d.
      ap has_lock (update_ne s.place i p j (λ e. d (sym e)))
      ∙ t.others j (λ e. d (e ∙ sym (only_one s i h t got)));
}

release_start_inv :
    (i : ℕ) (l m : Lock) → release_start i l ≡ some m → (m.locked ≡ l.locked) × (m.cpu ≡ none)
unfolding release_start
release_start_inv i l m e = elim (Bool-cases (holding i l)) [
  | inl y ↦ ground arith
  | inr n ↦ ground arith
]

try_lem :
    (s : System) (i : ℕ) (b : Bool)
    → s.lock.locked ≡ b
    → s.place i ≡ spinning
    → IsValid s
    → IsValid
        (moved s (record { locked = true; cpu = s.lock.cpu }) i (if b then spinning else entering))
try_lem s i true e at v =
    subst (λ b. IsValid (moved s (record { locked = b; cpu = s.lock.cpu }) i spinning)) e
      (stays_out s i spinning (ap has_lock at) refl v)
try_lem s i false e at (inl f) = inr (
  i,
  record {
    locked = refl;
    has_it = ap has_lock (update_self s.place i entering);
    recorded =
        f.1 ∙ ap (λ q. if is_inside q then some i else none) (sym (update_self s.place i entering));
    others = λ j d. ap has_lock (update_ne s.place i entering j (λ e. d (sym e))) ∙ f.2 j;
  },
)
try_lem s i false e at (inr (h, t)) = let clash = t.locked in absurd cc

Step-IsValid : {s t : System} → Step s t → IsValid s → IsValid t
unfolding test_and_set acquire_end unlock
Step-IsValid {s} (starts i c d at e) v = stays_out s i spinning (ap has_lock at) refl v
Step-IsValid {s} (tries i at) v = try_lem s i s.lock.locked refl at v
Step-IsValid {s} (enters i at) v =
    let t = Taken-by s i v (ap has_lock at) in
    inr (i, stays_in s i i (acquire_end i s.lock) inside (ap has_lock at) refl t.locked refl t)
Step-IsValid {s} (leaves i {lk} at e) v =
    let t = Taken-by s i v (ap has_lock at) in
    let r = release_start_inv i s.lock lk e in
    inr (i, stays_in s i i lk leaving (ap has_lock at) refl (r.0 ∙ t.locked) r.1 t)
Step-IsValid {s} (unlocks i at) v =
    let t = Taken-by s i v (ap has_lock at) in
    inl (
      refl,
      t.recorded ∙ ap (λ q. if is_inside q then some i else none) at,
      λ j. elsewhere s.place i j outside (λ ne. t.others j (λ e. ne (sym e))) refl,
    )

abbrev pub start : System
start = record { lock = initlock; place = λ i. outside }

Reach-IsValid : {s : System} → Reach start s → IsValid s
Reach-IsValid here = inl (refl, refl, λ i. refl)
Reach-IsValid (later r step) = Step-IsValid step (Reach-IsValid r)

holding_inside : (s : System) (i : ℕ) → IsValid s → s.place i ≡ inside → holding i s.lock ≡ true
unfolding holding
holding_inside s i v at =
    let t = Taken-by s i v (ap has_lock at) in
    let c : s.lock.cpu ≡ some i = t.recorded ∙ ap (λ q. if is_inside q then some i else none) at in
    rw t.locked (rw c (ground arith))

other_cpu :
    (cpu : Option ℕ) (i h : ℕ) (b : Bool)
    → i ≢ h
    → cpu ≡ (if b then some h else none)
    → is_cpu cpu i ≡ false
unfolding is_cpu
other_cpu cpu i h true ne e = rw e (ground arith)
other_cpu cpu i h false ne e = rw e refl

holding_other : (i : ℕ) (lk : Lock) → is_cpu lk.cpu i ≡ false → holding i lk ≡ false
unfolding holding
holding_other i lk e = rw e (ground arith)

holding_outside :
    (s : System) (i : ℕ) → IsValid s → has_lock (s.place i) ≡ false → holding i s.lock ≡ false
unfolding holding
holding_outside s i (inl f) out = rw f.0 refl
holding_outside s i (inr (h, t)) out =
    holding_other i s.lock
      (other_cpu s.lock.cpu i h (is_inside (s.place h)) (different s i h out t.has_it) t.recorded)

-- However the steps of any number of CPUs follow each other, from a lock that nobody has: no two
-- CPUs have the lock at once; the lock is taken exactly while some CPU has it; `release` does not
-- panic at a CPU inside, and `acquire` not at one outside.
pub mutual_exclusion :
    {s : System}
    → Reach start s
    → ((i j : ℕ) → has_lock (s.place i) ≡ true → has_lock (s.place j) ≡ true → i ≡ j)
      × (((i : ℕ) × (has_lock (s.place i) ≡ true)) ↔ (s.lock.locked ≡ true))
      × ((i : ℕ) → s.place i ≡ inside → (lk : Lock) × (release_start i s.lock ≡ some lk))
      × ((i : ℕ) (c : Cpu) → s.place i ≡ outside → (d : Cpu) × (acquire_start i s.lock c ≡ some d))
unfolding release_start acquire_start
mutual_exclusion {s} r =
    let v = Reach-IsValid r in
    (
      λ i j hi hj. only_one s i j (Taken-by s j v hj) hi,
      (
        λ (i, hi). (Taken-by s i v hi).locked,
        λ e. elim v [ inl f ↦ (let clash = f.0 in absurd cc) | inr (h, t) ↦ (h, t.has_it) ],
      ),
      λ i at. (record s.lock { cpu = none }, rw (holding_inside s i v at) refl),
      λ i c at. (push_off c, rw (holding_outside s i v (ap has_lock at)) refl),
    )
