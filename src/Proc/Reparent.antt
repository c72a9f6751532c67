-- ===== src/Proc/Reparent.antt =====
-- What `wakeup` and `reparent` leave of a process, and whom they wake.
use operating_systems.Prelude.{
  ℕ, zero, suc, ◌+◌, ◌<◌, ◌≡◌, refl, sym, ap, ◌∙◌, subst, ◌≢◌, ◌⊎◌, inl, inr, Bool, true, false,
  ◌&&◌, not, Option, some, arith, ltb, ◌==◌, if◌then◌else◌, Bool-cases, update, update_self,
  update_ne,
}
use operating_systems.Proc.{
  reparent_at, ProcState, sleeping, runnable, Proc, nproc, is_sleeping, is_proc, woken, wakeup,
  address, reparent_loop, reparent,
}
use operating_systems.Proc.Table.{In, wakeup_lem}

-- The process may have been woken, and its parent may be another.
pub record Kept (x y : Proc) : Type 0 where
  pub pid : y.pid ≡ x.pid
  pub chan : y.chan ≡ x.chan
  pub killed : y.killed ≡ x.killed
  pub xstate : y.xstate ≡ x.xstate
  pub state : (y.state ≡ x.state) ⊎ ((x.state ≡ sleeping) × (y.state ≡ runnable))

pub Kept-refl : (x : Proc) → Kept x x
Kept-refl x = record { pid = refl; chan = refl; killed = refl; xstate = refl; state = inl refl }

trans_state :
    {a b c : ProcState}
    → ((b ≡ a) ⊎ ((a ≡ sleeping) × (b ≡ runnable)))
    → ((c ≡ b) ⊎ ((b ≡ sleeping) × (c ≡ runnable)))
    → (c ≡ a) ⊎ ((a ≡ sleeping) × (c ≡ runnable))
trans_state (inl e) (inl f) = inl (f ∙ e)
trans_state (inl e) (inr (f, g)) = inr (sym e ∙ f, g)
trans_state (inr (e, f)) (inl g) = inr (e, g ∙ f)
trans_state (inr (e, f)) (inr (g, h)) = inr (e, h)

pub Kept-trans : {x y z : Proc} → Kept x y → Kept y z → Kept x z
Kept-trans k l = record {
  pid = l.pid ∙ k.pid;
  chan = l.chan ∙ k.chan;
  killed = l.killed ∙ k.killed;
  xstate = l.xstate ∙ k.xstate;
  state = trans_state k.state l.state;
}

-- The process sleeps in `wait`: on its own address.
abbrev pub in_wait : Proc → ℕ → Bool
in_wait x p = is_sleeping x.state && (x.chan == address p)

pub Kept-in_wait : (x y : Proc) (p : ℕ) → Kept x y → in_wait x p ≡ false → in_wait y p ≡ false
Kept-in_wait x y p k h = elim k.state [ inl e ↦ rw (e, k.chan) h | inr (e, f) ↦ rw f refl ]

is_sleeping_inv : (state : ProcState) → is_sleeping state ≡ true → state ≡ sleeping
is_sleeping_inv sleeping e = refl
is_sleeping_inv _ e = cc e

woken-Kept :
    (me : Option ℕ) (chan q : ℕ) (x : Proc)
    → Kept x (woken me chan q x) × ((woken me chan q x).parent ≡ x.parent)
woken-Kept me chan q x =
    elim (Bool-cases (not (is_proc me q) && (is_sleeping x.state && (x.chan == chan)))) [
      | inl y ↦
          let slept : x.state ≡ sleeping = is_sleeping_inv x.state (ground arith) in
          rw y (
            record {
              pid = refl;
              chan = refl;
              killed = refl;
              xstate = refl;
              state = inr (slept, refl);
            },
            refl,
          )
      | inr n ↦ rw n (Kept-refl x, refl)
    ]

pub wakeup-Kept :
    (me : Option ℕ) (chan : ℕ) (proc : ℕ → Proc) (q : ℕ)
    → Kept (proc q) (wakeup me chan proc q) × ((wakeup me chan proc q).parent ≡ (proc q).parent)
wakeup-Kept me chan proc q = elim (Bool-cases (ltb q nproc)) [
  | inl y ↦ rw (wakeup_lem me chan proc q) (rw y (woken-Kept me chan q (proc q)))
  | inr n ↦ rw (wakeup_lem me chan proc q) (rw n (Kept-refl (proc q), refl))
]

-- After `wakeup` of a process's address, it does not sleep in `wait`, if it is not the caller.
pub wakeup-in_wait :
    (me p : ℕ) (proc : ℕ → Proc)
    → p < nproc
    → me ≢ p
    → in_wait (wakeup (some me) (address p) proc p) p ≡ false
wakeup-in_wait me p proc lt ne =
    let here : ltb p nproc ≡ true = ground arith in
    let other : (me == p) ≡ false = ground arith in
    rw (wakeup_lem (some me) (address p) proc p) (
      rw (here, other)
        (elim (Bool-cases (is_sleeping (proc p).state && ((proc p).chan == address p))) [
          | inl y ↦ rw y refl
          | inr n ↦ rw n n
        ]))

module _ (initproc p : ℕ) (other : initproc ≢ p) where
  -- The parent after `reparent` by `p`.
  abbrev pub given : Option ℕ → Option ℕ
  given parent = if is_proc parent p then some initproc else parent

  -- What happens to the process at `q` in the round for `pp`.
  record Round (pp : ℕ) (proc g : ℕ → Proc) (q : ℕ) : Type 0 where
    kept : Kept (proc q) (g q)
    here : q ≡ pp → (g q).parent ≡ given (proc q).parent
    there : q ≢ pp → (g q).parent ≡ (proc q).parent

  abbrev adopted : Proc → Proc
  adopted x = record x { parent = some initproc }

  adopted-Kept :
      (pp : ℕ) (proc : ℕ → Proc) (q : ℕ) → Kept (proc q) (update proc pp (adopted (proc pp)) q)
  adopted-Kept pp proc q = elim (Bool-cases (pp == q)) [
    | inl y ↦
        let same : pp ≡ q = ground arith in
        let k : Kept (proc pp) (adopted (proc pp)) = record {
          pid = refl;
          chan = refl;
          killed = refl;
          xstate = refl;
          state = inl refl;
        } in
        rw y (subst (λ z. Kept (proc z) (adopted (proc pp))) same k)
    | inr n ↦ rw n (Kept-refl (proc q))
  ]

  not_given : (parent : Option ℕ) → is_proc parent p ≡ false → given parent ≡ parent
  not_given parent e = rw e refl

  reparent_at_lem :
      (pp : ℕ) (proc : ℕ → Proc) (q : ℕ) (b : Bool)
      → is_proc (proc pp).parent p ≡ b
      → Round pp proc (reparent_at initproc p pp proc) q
  unfolding reparent_at
  reparent_at_lem pp proc q true e =
      let next = update proc pp (adopted (proc pp)) in
      let w = wakeup-Kept (some p) (address initproc) next q in
      let run : reparent_at initproc p pp proc ≡ wakeup (some p) (address initproc) next =
        rw e refl in
      subst (λ g. Round pp proc g q) (sym run)
        (record {
          kept = Kept-trans (adopted-Kept pp proc q) w.0;
          here = λ same.
              w.1
              ∙ ap (λ z. (next z).parent) same
              ∙ ap (λ (x : Proc). x.parent) (update_self proc pp (adopted (proc pp)))
              ∙ sym (ap (λ z. given (proc z).parent) same ∙ rw e refl);
          there = λ ne.
              w.1
              ∙ ap (λ (x : Proc). x.parent)
                  (update_ne proc pp (adopted (proc pp)) q (λ e. ne (sym e)));
        })
  reparent_at_lem pp proc q false e =
      let run : reparent_at initproc p pp proc ≡ proc = rw e refl in
      subst (λ g. Round pp proc g q) (sym run)
        (record {
          kept = Kept-refl (proc q);
          here = λ same.
              sym (not_given (proc q).parent (ap (λ z. is_proc (proc z).parent p) same ∙ e));
          there = λ ne. refl;
        })

  reparent_loop_lem :
      (left pp : ℕ) (proc : ℕ → Proc) (q : ℕ)
      → Kept (proc q) (reparent_loop initproc p left pp proc q)
        × (In left pp q → (reparent_loop initproc p left pp proc q).parent ≡ given (proc q).parent)
        × (¬ (In left pp q) → (reparent_loop initproc p left pp proc q).parent ≡ (proc q).parent)
  unfolding reparent_loop
  reparent_loop_lem zero pp proc q =
      (Kept-refl (proc q), λ h. absurd (omega (arith, h.0, h.1)), λ h. refl)
  reparent_loop_lem (suc left) pp proc q =
      let r = reparent_at_lem pp proc q (is_proc (proc pp).parent p) refl in
      let ih = reparent_loop_lem left (pp + 1) (reparent_at initproc p pp proc) q in
      (
        Kept-trans r.kept ih.0,
        λ h. elim (Bool-cases (q == pp)) [
          | inl y ↦ ih.2 (λ k. ground (arith, k.0)) ∙ r.here (ground arith)
          | inr n ↦ ih.1 (ground arith) ∙ ap given (r.there (ground arith))
        ],
        λ h. ih.2 (λ k. h (ground (arith, k.0, k.1))) ∙ r.there (λ e. h (ground arith)),
      )

  reparent_at_run :
      (pp : ℕ) (proc : ℕ → Proc)
      → is_proc (proc pp).parent p ≡ true
      → reparent_at initproc p pp proc
        ≡ wakeup (some p) (address initproc) (update proc pp (adopted (proc pp)))
  unfolding reparent_at
  reparent_at_run pp proc e = rw e refl

  -- A child among the places has `init` woken.
  reparent_wakes :
      (left pp : ℕ) (proc : ℕ → Proc) (q : ℕ)
      → initproc < nproc
      → In left pp q
      → is_proc (proc q).parent p ≡ true
      → in_wait (reparent_loop initproc p left pp proc initproc) initproc ≡ false
  unfolding reparent_loop
  reparent_wakes zero pp proc q lt h c = absurd (omega (arith, h.0, h.1))
  reparent_wakes (suc left) pp proc q lt h c = elim (Bool-cases (q == pp)) [
    | inl y ↦
        let same : q ≡ pp = ground arith in
        let next = update proc pp (adopted (proc pp)) in
        let child : is_proc (proc pp).parent p ≡ true =
          ap (λ z. is_proc (proc z).parent p) (sym same) ∙ c in
        let run : reparent_at initproc p pp proc ≡ wakeup (some p) (address initproc) next =
          reparent_at_run pp proc child in
        let up : in_wait (reparent_at initproc p pp proc initproc) initproc ≡ false =
          ap (λ (g : ℕ → Proc). in_wait (g initproc) initproc) run
          ∙ wakeup-in_wait p initproc next lt (λ e. other (sym e)) in
        Kept-in_wait _ _ initproc
          (reparent_loop_lem left (pp + 1) (reparent_at initproc p pp proc) initproc).0 up
    | inr n ↦
        let r = reparent_at_lem pp proc q (is_proc (proc pp).parent p) refl in
        let still : is_proc (reparent_at initproc p pp proc q).parent p ≡ true =
          ap (λ o. is_proc o p) (r.there (ground arith)) ∙ c in
        reparent_wakes left (pp + 1) (reparent_at initproc p pp proc) q lt (ground arith) still
  ]

  -- Every child of `p` becomes a child of `init`, which does not sleep in `wait` if there is one; no
  -- other parent changes.
  pub reparent_lem :
      (proc : ℕ → Proc) (q : ℕ)
      → q < nproc
      → Kept (proc q) (reparent initproc p proc q)
        × ((reparent initproc p proc q).parent ≡ given (proc q).parent)
        × (initproc < nproc
            → is_proc (proc q).parent p ≡ true
            → in_wait (reparent initproc p proc initproc) initproc ≡ false)
  unfolding reparent
  reparent_lem proc q lt =
      let r = reparent_loop_lem nproc 0 proc q in
      (
        r.0,
        r.1 (omega arith, omega arith),
        λ li c. reparent_wakes nproc 0 proc q li (omega arith, omega arith) c,
      )
