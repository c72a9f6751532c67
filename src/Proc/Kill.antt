-- ===== src/Proc/Kill.antt =====
-- What `kill` does to the process that it finds.
use operating_systems.Prelude.{
  ℕ, ◌<◌, ◌≡◌, refl, sym, subst, ◌≢◌, ◌⊎◌, inl, inr, true, false, arith, if◌then◌else◌, Bool-cases,
  update_self, update_ne,
}
use operating_systems.Proc.{
  sleeping, ProcState, runnable, Proc, System, nproc, is_sleeping, set_proc, kill,
}
use operating_systems.Proc.Table.{find_pid_lem}

-- What `kill` makes of the process `x`.
pub record Killed (x y : Proc) : Type 0 where
  pub killed : y.killed ≡ true
  pub woken : x.state ≡ sleeping → y.state ≡ runnable
  pub state_kept : x.state ≢ sleeping → y.state ≡ x.state
  pub rest_kept : y ≡ record x { killed = y.killed; state = y.state }

sleeping_inv : (state : ProcState) → is_sleeping state ≡ true → state ≡ sleeping
sleeping_inv sleeping e = refl
sleeping_inv _ e = cc e

killed_lem :
    (x : Proc)
    → Killed x
        (record x { killed = true; state = if is_sleeping x.state then runnable else x.state })
killed_lem x = record {
  killed = refl;
  woken = λ e. rw e refl;
  state_kept = λ ne. elim (Bool-cases (is_sleeping x.state)) [
    | inl y ↦ absurd (ne (sleeping_inv x.state y))
    | inr n ↦ rw n refl
  ];
  rest_kept = refl;
}

-- `kill` answers -1 and changes nothing where no place of the table has the pid. Else it marks one with
-- the pid as killed, makes it runnable if it sleeps and leaves its state alone if not, and changes
-- nothing else of it and nothing of the others.
pub kill_lem :
    (pid : ℕ) (s : System)
    → ((kill pid s ≡ (false, s)) × ((q : ℕ) → q < nproc → (s.proc q).pid ≢ pid))
      ⊎ ((q : ℕ) × (t : System) × (kill pid s ≡ (true, t))
          × (q < nproc)
          × ((s.proc q).pid ≡ pid)
          × Killed (s.proc q) (t.proc q)
          × ((r : ℕ) → r ≢ q → t.proc r ≡ s.proc r)
          × (t ≡ record s { proc = t.proc }))
unfolding kill
kill_lem pid s = elim (find_pid_lem s.proc pid nproc 0) [
  | inl (e, all) ↦ inl (rw (e, kill) refl, λ q lt. all q (omega arith, omega arith))
  | inr (q, e, place, is) ↦
      let x = record (s.proc q) {
        killed = true;
        state = if is_sleeping (s.proc q).state then runnable else (s.proc q).state;
      } in
      inr (
        q,
        set_proc s q x,
        rw (e, kill) refl,
        omega (arith, place.1),
        is,
        subst (Killed (s.proc q)) (sym (update_self s.proc q x)) (killed_lem (s.proc q)),
        λ r ne. update_ne s.proc q x r (λ e. ne (sym e)),
        refl,
      )
]
