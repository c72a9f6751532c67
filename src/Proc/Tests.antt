-- ===== src/Proc/Tests.antt =====
-- The first process and its child, and the theorems at them.
use operating_systems.Prelude.{ℕ, ◌-◌, ◌^◌, ◌<◌, ◌≡◌, refl, ◌≢◌, ◌⊎◌, true, false, some, arith}
use operating_systems.Proc.{
  running, zombie, System, reaped, nproc, boot, userinit, userinit_at, allocproc, allocproc_at,
  allocpid, find_unused, schedule, fork, fork_end, child_of, copied, dup_calls, idup_call, kill,
  find_pid, exit, wait, is_unused, is_zombie,
}
use operating_systems.Proc.Reparent.{in_wait, given}
use operating_systems.Proc.Family.{lives, IsValid}
use operating_systems.Proc.Fork.{Forked, fork_lem}
use operating_systems.Proc.Exit.{exit_lem}
use operating_systems.Proc.Wait.{Ends, wait_lem}
use operating_systems.Proc.Kill.{Killed, kill_lem}
use operating_systems.Proc.Reach.{
  Reach, here, later, schedules, start-IsValid, Reach-IsValid, forks, family,
}

abbrev first : System
first = userinit 1 boot

-- `init` runs.
abbrev one : System
one = schedule 0 first

one-Reach : Reach first one
one-Reach = later here (schedules 0)

one-IsValid : IsValid one
one-IsValid = Reach-IsValid one-Reach (start-IsValid 1)

init_runs : (one.proc 0).state ≡ running
unfolding schedule userinit userinit_at allocproc allocproc_at allocpid find_unused
init_runs = refl

-- `kill(0)` finds the first unused place and marks it, and the next child is born killed.
born_killed : ((fork true true 0 (kill 0 one).1).1.proc 1).killed ≡ true
unfolding fork fork_end child_of copied allocproc allocproc_at allocpid find_unused kill find_pid
    schedule userinit userinit_at dup_calls idup_call
born_killed = refl

init_lives : lives (one.proc 0).state ≡ true
unfolding schedule userinit userinit_at allocproc allocproc_at allocpid find_unused
init_lives = refl

pids_left : one.nextpid < 2 ^ 31 - 1
unfolding schedule userinit userinit_at allocproc allocproc_at allocpid find_unused
pids_left = omega arith

fork_lem_example :
    IsValid (fork true true 0 one).1
    × Forked one true true 0 (fork true true 0 one).0 (fork true true 0 one).1
fork_lem_example = fork_lem true true 0 one one-IsValid (omega arith) init_lives pids_left

wait_lem_example :
    IsValid (wait true 0 one).1 × Ends one 0 true (wait true 0 one).0 (wait true 0 one).1
wait_lem_example = wait_lem true 0 one one-IsValid init_lives

-- The child runs.
abbrev two : System
two = schedule 1 (fork true true 0 one).1

two-Reach : Reach first two
two-Reach =
    later (later one-Reach (forks 0 true true (omega arith) init_runs pids_left)) (schedules 1)

child_lives : lives (two.proc 1).state ≡ true
unfolding fork fork_end child_of copied allocproc allocproc_at allocpid find_unused schedule
    userinit userinit_at dup_calls idup_call
child_lives = refl

child_other : two.initproc ≢ 1
unfolding fork fork_end child_of copied allocproc allocproc_at allocpid find_unused schedule
    userinit userinit_at dup_calls idup_call
child_other = omega arith

exit_lem_example :
    (t : System) × (exit 1 7 two ≡ some t)
    × IsValid t
    × ((t.proc 1).state ≡ zombie)
    × ((t.proc 1).xstate ≡ 7)
    × ((q : ℕ) → q < nproc → (t.proc q).pid ≡ (two.proc q).pid)
    × ((q : ℕ)
        → q < nproc
        → (t.proc q).parent ≡ given two.initproc 1 child_other (two.proc q).parent)
    × (t.initproc ≡ two.initproc)
    × (t.nextpid ≡ two.nextpid)
exit_lem_example =
    exit_lem two 1 7 (Reach-IsValid two-Reach (start-IsValid 1)) (omega arith) child_lives
      child_other

kill_lem_example :
    ((kill 1 one ≡ (false, one)) × ((q : ℕ) → q < nproc → (one.proc q).pid ≢ 1))
    ⊎ ((q : ℕ) × (t : System) × (kill 1 one ≡ (true, t))
        × (q < nproc)
        × ((one.proc q).pid ≡ 1)
        × Killed (one.proc q) (t.proc q)
        × ((r : ℕ) → r ≢ q → t.proc r ≡ one.proc r)
        × (t ≡ record one { proc = t.proc }))
kill_lem_example = kill_lem 1 one

family_example :
    (lives (two.proc two.initproc).state ≡ true)
    × ((q r : ℕ)
        → q < nproc
        → r < nproc
        → is_unused (two.proc q).state ≡ false
        → is_unused (two.proc r).state ≡ false
        → (two.proc q).pid ≡ (two.proc r).pid
        → q ≡ r)
    × ((q p : ℕ)
        → q < nproc
        → (two.proc q).parent ≡ some p
        → (p < nproc) × (lives (two.proc p).state ≡ true))
    × ((q p : ℕ)
        → q < nproc
        → (two.proc q).parent ≡ some p
        → is_zombie (two.proc q).state ≡ true
        → (in_wait (two.proc p) p ≡ false)
          × ((pid status : ℕ) × ((wait true p two).0 ≡ reaped pid status)))
family_example = family 1 two-Reach
