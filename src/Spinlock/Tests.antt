-- ===== src/Spinlock/Tests.antt =====
-- Two CPUs at a lock, and the theorems at their runs.
use operating_systems.Prelude.{ℕ, ◌≡◌, refl, ◌↔◌, true, false, none, some, update}
use operating_systems.Spinlock.{
  is_cpu, Cpu, Lock, acquire, release, push_off, pop_off, initlock, holding, acquire_start,
  release_start, test_and_set, acquire_end, unlock,
}
use operating_systems.Spinlock.Nesting.{done, nest, run, Same, run_lem}
use operating_systems.Spinlock.Exclusion.{
  tries, Reach, System, outside, spinning, entering, inside, enters, here, later, starts, has_lock,
  start, mutual_exclusion,
}

abbrev running : Cpu
running = record { intr = true; noff = 0; intena = false }

-- A CPU that takes a free lock and gives it back has its interrupts on again.
given_back :
    elim (acquire 1 initlock running) [ none ↦ none | some p ↦ release 1 p.0 p.1 ]
    ≡ some (initlock, record { intr = true; noff = 0; intena = true })
unfolding acquire release acquire_start release_start test_and_set acquire_end unlock holding is_cpu
    push_off pop_off
given_back = refl

run_lem_example : (d : Cpu) × (run (nest (nest done done) done) running ≡ some d) × Same running d
run_lem_example = run_lem (nest (nest done done) done) running (λ h. elim h [ ])

one_starts : acquire_start 1 initlock running ≡ some (push_off running)
unfolding acquire_start holding is_cpu
one_starts = refl

-- CPU 1 has gone through `acquire`.
abbrev held : System
held = record {
  lock = record { locked = true; cpu = some 1 };
  place = update (update (update (λ i. outside) 1 spinning) 1 entering) 1 inside;
}

held-Reach : Reach start held
unfolding test_and_set acquire_end
held-Reach =
    later (later (later here (starts 1 running (push_off running) refl one_starts)) (tries 1 refl))
      (enters 1 refl)

mutual_exclusion_example :
    ((i j : ℕ) → has_lock (held.place i) ≡ true → has_lock (held.place j) ≡ true → i ≡ j)
    × (((i : ℕ) × (has_lock (held.place i) ≡ true)) ↔ (held.lock.locked ≡ true))
    × ((i : ℕ) → held.place i ≡ inside → (lk : Lock) × (release_start i held.lock ≡ some lk))
    × ((i : ℕ) (c : Cpu)
        → held.place i ≡ outside
        → (d : Cpu) × (acquire_start i held.lock c ≡ some d))
mutual_exclusion_example = mutual_exclusion held-Reach
