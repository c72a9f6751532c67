-- ===== src/Proc.antt =====
-- kernel/proc.c: the table of processes.
-- A process is its place in the table. `pi->lock` and `wait_lock` make each function below one step,
-- up to a call of `sched`, where the process gives up the CPU. Channels are addresses: the process at
-- place p has the address p + 1, and all other objects have addresses above NPROC. What the functions
-- ask of the allocator and of page tables (`kalloc`, `proc_pagetable`, `uvmcopy`, `copyout`) is an
-- argument that tells whether it succeeds; the trapframe and the memory itself are left to those
-- components. Calls of the file layer are listed in their order, the last one first.
pub mod Table
pub mod Reparent
pub mod Family
pub mod Fork
pub mod Exit
pub mod Wait
pub mod Kill
pub mod Reach
mod Tests
use operating_systems.Prelude.{
  ℕ, zero, suc, ◌+◌, ◌%◌, ◌^◌, Bool, true, false, ◌&&◌, ◌||◌, not, Option, none, some, List, [],
  ◌∷◌, ◌==◌, if◌then◌else◌, update,
}
use operating_systems.Spinlock.{Cpu}

abbrev pub nproc : ℕ
nproc = 64

-- `enum procstate`
pub data ProcState : Type 0 where
  unused used sleeping runnable running zombie : ProcState

pub record Proc : Type 0 where
  pub state : ProcState
  pub chan : ℕ
  pub killed : Bool
  pub xstate : ℕ
  pub pid : ℕ
  pub parent : Option ℕ
  pub sz : ℕ
  pub ofile : List (Option ℕ)
  pub cwd : Option ℕ
  pub name : List ℕ

pub data Call : Type 0 where
  filedup fileclose idup iput : ℕ → Call

pub record System : Type 0 where
  pub proc : ℕ → Proc
  pub nextpid : ℕ
  pub initproc : ℕ
  pub calls : List Call

abbrev pub is_unused : ProcState → Bool
is_unused unused = true
is_unused _ = false

abbrev pub is_sleeping : ProcState → Bool
is_sleeping sleeping = true
is_sleeping _ = false

abbrev pub is_runnable : ProcState → Bool
is_runnable runnable = true
is_runnable _ = false

abbrev pub is_running : ProcState → Bool
is_running running = true
is_running _ = false

abbrev pub is_zombie : ProcState → Bool
is_zombie zombie = true
is_zombie _ = false

abbrev pub is_proc : Option ℕ → ℕ → Bool
is_proc none p = false
is_proc (some q) p = q == p

abbrev pub set_proc : System → ℕ → Proc → System
set_proc s p x = record s { proc = update s.proc p x }

unfoldable pub allocpid : System → ℕ × System
allocpid s = (s.nextpid, record s { nextpid = (s.nextpid + 1) % 2 ^ 32 })

-- The scan of `allocproc`, with `left` places from `p` on.
unfoldable pub find_unused : (ℕ → Proc) → ℕ → ℕ → Option ℕ
find_unused proc zero p = none
find_unused proc (suc left) p =
    let rest = find_unused proc left (p + 1) in if is_unused (proc p).state then some p else rest

unfoldable pub freeproc : ℕ → System → System
freeproc p s = set_proc s p (record (s.proc p) {
  sz = 0;
  pid = 0;
  parent = none;
  name = [];
  chan = 0;
  killed = false;
  xstate = 0;
  state = unused;
})

-- `allocproc` behind its scan, at the place `p` that is unused, if any.
unfoldable pub allocproc_at : Bool → System → Option ℕ → Option ℕ × System
unfolding allocpid
allocproc_at memory s none = (none, s)
allocproc_at memory s (some p) =
    let s1 = (allocpid s).1 in
    let s2 = set_proc s1 p (record (s1.proc p) { pid = (allocpid s).0; state = used }) in
    if memory then (some p, s2) else (none, freeproc p s2)

-- `memory` tells whether the trapframe and the page table are given.
unfoldable pub allocproc : Bool → System → Option ℕ × System
allocproc memory s = allocproc_at memory s (find_unused s.proc nproc 0)

-- A table that has never been used: the kernel's memory starts with zeros.
abbrev pub no_proc : Proc
no_proc = record {
  state = unused;
  chan = 0;
  killed = false;
  xstate = 0;
  pid = 0;
  parent = none;
  sz = 0;
  ofile = [];
  cwd = none;
  name = [];
}

abbrev pub boot : System
boot = record { proc = λ p. no_proc; nextpid = 1; initproc = 0; calls = [] }

abbrev pub initcode : List ℕ
initcode = b'i' ∷ b'n' ∷ b'i' ∷ b't' ∷ b'c' ∷ b'o' ∷ b'd' ∷ b'e' ∷ []

-- `userinit` where `allocproc` gives the place `p`; `root` is the inode that `namei("/")` gives.
unfoldable pub userinit_at : ℕ → Option ℕ × System → System
userinit_at root (none, s) = s
userinit_at root (some p, s) =
    record (set_proc s p
      (record (s.proc p) { sz = 4096; name = initcode; cwd = some root; state = runnable })) {
        initproc = p;
      }

unfoldable pub userinit : ℕ → System → System
userinit root s = userinit_at root (allocproc true s)

-- The loop of `fork` over the open files.
dup_calls : List (Option ℕ) → List Call → List Call
dup_calls [] calls = calls
dup_calls (none ∷ files) calls = dup_calls files calls
dup_calls (some f ∷ files) calls = dup_calls files (filedup f ∷ calls)

-- What is copied from the parent where it is set and left alone where it is not.
copied : List (Option ℕ) → List (Option ℕ) → List (Option ℕ)
copied [] old = old
copied (f ∷ files) [] = []
copied (none ∷ files) (g ∷ old) = g ∷ copied files old
copied (some f ∷ files) (g ∷ old) = some f ∷ copied files old

idup_call : Option ℕ → List Call → List Call
idup_call none calls = calls
idup_call (some ip) calls = idup ip ∷ calls

-- The child of `p` in the place that `allocproc` has given.
unfoldable pub child_of : ℕ → Proc → Proc → Proc
unfolding copied
child_of me p np = record np {
  sz = p.sz;
  ofile = copied p.ofile np.ofile;
  cwd = p.cwd;
  name = p.name;
  parent = some me;
  state = runnable;
}

-- `fork` behind `allocproc`; `copies` tells whether `uvmcopy` succeeds.
unfoldable pub fork_end : Bool → ℕ → Option ℕ × System → Option ℕ × System
unfolding dup_calls idup_call
fork_end copies me (none, s) = (none, s)
fork_end copies me (some np, s) =
    let p = s.proc me in
    if not copies then (none, freeproc np s) else (
      some (s.proc np).pid,
      record (set_proc s np (child_of me p (s.proc np))) {
        calls = idup_call p.cwd (dup_calls p.ofile s.calls);
      },
    )

-- `fork` by the process `me`: the pid of the child, or none for -1.
unfoldable pub fork : Bool → Bool → ℕ → System → Option ℕ × System
fork memory copies me s = fork_end copies me (allocproc memory s)

-- One round of `wakeup`; `me` is the process that calls it, if any.
abbrev pub woken : Option ℕ → ℕ → ℕ → Proc → Proc
woken me chan p x =
    if not (is_proc me p) && (is_sleeping x.state && (x.chan == chan))
    then record x { state = runnable }
    else x

-- The loop of `wakeup`, with `left` places from `p` on.
wake_loop : Option ℕ → ℕ → ℕ → ℕ → (ℕ → Proc) → ℕ → Proc
wake_loop me chan zero p proc = proc
wake_loop me chan (suc left) p proc =
    wake_loop me chan left (p + 1) (update proc p (woken me chan p (proc p)))

unfoldable pub wakeup : Option ℕ → ℕ → (ℕ → Proc) → ℕ → Proc
unfolding wake_loop
wakeup me chan proc = wake_loop me chan nproc 0 proc

-- The address of a process.
abbrev pub address : ℕ → ℕ
address p = p + 1

-- One round of `reparent` by `p`.
unfoldable pub reparent_at : ℕ → ℕ → ℕ → (ℕ → Proc) → ℕ → Proc
reparent_at initproc p pp proc =
    if is_proc (proc pp).parent p
    then wakeup (some p) (address initproc)
        (update proc pp (record (proc pp) { parent = some initproc }))
    else proc

-- The loop, with `left` places from `pp` on.
unfoldable pub reparent_loop : ℕ → ℕ → ℕ → ℕ → (ℕ → Proc) → ℕ → Proc
reparent_loop initproc p zero pp proc = proc
reparent_loop initproc p (suc left) pp proc =
    reparent_loop initproc p left (pp + 1) (reparent_at initproc p pp proc)

unfoldable pub reparent : ℕ → ℕ → (ℕ → Proc) → ℕ → Proc
reparent initproc p proc = reparent_loop initproc p nproc 0 proc

-- The address of the parent, 0 for the null pointer.
abbrev pub parent_address : Option ℕ → ℕ
parent_address none = 0
parent_address (some p) = address p

-- The loop of `exit` over the open files.
close_calls : List (Option ℕ) → List Call → List Call
close_calls [] calls = calls
close_calls (none ∷ files) calls = close_calls files calls
close_calls (some f ∷ files) calls = close_calls files (fileclose f ∷ calls)

all_closed : List (Option ℕ) → List (Option ℕ)
all_closed [] = []
all_closed (f ∷ files) = none ∷ all_closed files

iput_call : Option ℕ → List Call → List Call
iput_call none calls = calls
iput_call (some ip) calls = iput ip ∷ calls

-- `exit` by the process `me`, up to its call of `sched`. `none` is the panic.
unfoldable pub exit : ℕ → ℕ → System → Option System
unfolding close_calls all_closed iput_call
exit me status s =
    let p = s.proc me in
    let calls = iput_call p.cwd (close_calls p.ofile s.calls) in
    let closed = update s.proc me (record p { ofile = all_closed p.ofile; cwd = none }) in
    let given = reparent s.initproc me closed in
    let up = wakeup (some me) (parent_address (given me).parent) given in
    if me == s.initproc
    then none
    else some (record s {
      proc = update up me (record (up me) { xstate = status; state = zombie });
      calls = calls;
    })

-- How a pass of `wait` ends: a child is reaped, with its pid and its status, it returns -1, or the
-- process goes to sleep.
pub data Waited : Type 0 where
  reaped : (pid status : ℕ) → Waited
  fails waits : Waited

-- The scan of `wait` by `me`, with `left` places from `np` on: the first zombie child, and whether
-- there are children before it.
unfoldable pub scan : (ℕ → Proc) → ℕ → ℕ → ℕ → Bool → Option ℕ × Bool
scan proc me zero np havekids = (none, havekids)
scan proc me (suc left) np havekids =
    let is_child = is_proc (proc np).parent me in
    let rest = scan proc me left (np + 1) (havekids || is_child) in
    if is_child && is_zombie (proc np).state then (some np, true) else rest

-- `sleep` by `me`, up to its call of `sched`.
unfoldable pub sleep : ℕ → ℕ → System → System
sleep me chan s = set_proc s me (record (s.proc me) { chan = chan; state = sleeping })

-- `sleep` after its call of `sched`.
unfoldable pub awake : ℕ → System → System
awake me s = set_proc s me (record (s.proc me) { chan = 0 })

-- `wait` behind its scan.
unfoldable pub wait_end : Bool → ℕ → System → Option ℕ × Bool → Waited × System
wait_end copies me s (some np, havekids) =
    if copies then (reaped (s.proc np).pid (s.proc np).xstate, freeproc np s) else (fails, s)
wait_end copies me s (none, havekids) =
    if not havekids || (s.proc me).killed then (fails, s) else (waits, sleep me (address me) s)

-- A pass of `wait` by `me`, from its start or from its return from `sleep`. `copies` tells whether the
-- status need not be stored or `copyout` stores it.
unfoldable pub wait : Bool → ℕ → System → Waited × System
wait copies me s = wait_end copies me s (scan s.proc me nproc 0 false)

-- What the scheduler does to the process at `p` before it switches to it.
unfoldable pub schedule : ℕ → System → System
schedule p s =
    if is_runnable (s.proc p).state then set_proc s p (record (s.proc p) { state = running }) else s

-- Whether `sched` passes its four tests, each a panic otherwise; `holds` tells whether the process holds its lock.
unfoldable pub sched : Bool → Cpu → ProcState → Bool
sched holds c state = holds && ((c.noff == 1) && (not (is_running state) && not c.intr))

-- `yield` up to its call of `sched`.
unfoldable pub yield : ℕ → System → System
yield me s = set_proc s me (record (s.proc me) { state = runnable })

-- The scan of `kill`.
unfoldable pub find_pid : (ℕ → Proc) → ℕ → ℕ → ℕ → Option ℕ
find_pid proc pid zero p = none
find_pid proc pid (suc left) p =
    let rest = find_pid proc pid left (p + 1) in if (proc p).pid == pid then some p else rest

-- Whether a process was found, for the results 0 and -1.
unfoldable pub kill : ℕ → System → Bool × System
kill pid s = elim (find_pid s.proc pid nproc 0) [
  | none ↦ (false, s)
  | some p ↦
      let x = s.proc p in
      (
        true,
        set_proc s p
            (record x { killed = true; state = if is_sleeping x.state then runnable else x.state }),
      )
]
