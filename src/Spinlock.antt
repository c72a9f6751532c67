-- ===== src/Spinlock.antt =====
-- kernel/spinlock.c: spin locks, and the nesting of `push_off` and `pop_off`.
-- `cpu` of a lock is the number of a CPU or none, for the null pointer. A CPU is what `struct cpu` of
-- kernel/proc.h has for the nesting, and whether it takes interrupts now, which `intr_get` reads.
-- `none` is a panic.
pub mod Nesting
pub mod Exclusion
mod Tests
use operating_systems.Prelude.{
  ℕ, ◌+◌, ◌-◌, Bool, true, false, ◌&&◌, Option, none, some, ltb, ◌==◌, if◌then◌else◌,
}

pub record Cpu : Type 0 where
  pub intr : Bool
  pub noff : ℕ
  pub intena : Bool

pub record Lock : Type 0 where
  pub locked : Bool
  pub cpu : Option ℕ

unfoldable pub push_off : Cpu → Cpu
push_off c = record {
  intr = false;
  noff = c.noff + 1;
  intena = if c.noff == 0 then c.intr else c.intena;
}

unfoldable pub pop_off : Cpu → Option Cpu
pop_off c =
    if c.intr
    then none
    else if ltb c.noff 1
    then none
    else let left = c.noff - 1 in
      some (record {
        intr = if (left == 0) && c.intena then true else c.intr;
        noff = left;
        intena = c.intena;
      })

abbrev initlock : Lock
initlock = record { locked = false; cpu = none }

is_cpu : Option ℕ → ℕ → Bool
is_cpu none me = false
is_cpu (some i) me = i == me

-- Whether CPU `me` holds the lock.
unfoldable pub holding : ℕ → Lock → Bool
unfolding is_cpu
holding me lk = lk.locked && is_cpu lk.cpu me

-- `acquire` up to its loop
unfoldable pub acquire_start : ℕ → Lock → Cpu → Option Cpu
unfolding holding push_off
acquire_start me lk c = if holding me lk then none else some (push_off c)

-- One round of the loop: the old value of `locked`, and the lock.
unfoldable pub test_and_set : Lock → Bool × Lock
test_and_set lk = (lk.locked, record lk { locked = true })

-- `lk->cpu = mycpu()`
unfoldable pub acquire_end : ℕ → Lock → Lock
acquire_end me lk = record lk { cpu = some me }

-- `release` up to `lk->cpu = 0`
unfoldable pub release_start : ℕ → Lock → Option Lock
unfolding holding
release_start me lk = if holding me lk then some (record lk { cpu = none }) else none

-- `__sync_lock_release`
unfoldable pub unlock : Lock → Lock
unlock lk = record lk { locked = false }

-- An `acquire` that meets no other CPU; `none` would also be a loop without end.
unfoldable pub acquire : ℕ → Lock → Cpu → Option (Lock × Cpu)
unfolding acquire_start test_and_set acquire_end
acquire me lk c = elim (acquire_start me lk c) [
  | none ↦ none
  | some d ↦ if (test_and_set lk).0 then none else some (acquire_end me (test_and_set lk).1, d)
]

unfoldable pub release : ℕ → Lock → Cpu → Option (Lock × Cpu)
unfolding release_start unlock pop_off
release me lk c = elim (release_start me lk) [
  | none ↦ none
  | some l ↦ elim (pop_off c) [ none ↦ none | some d ↦ some (unlock l, d) ]
]
