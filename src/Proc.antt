-- ===== src/Proc.antt =====
-- kernel/proc.c: the process table and the life of a process.
--
-- Processes are named by their index in `proc[NPROC]`; the functions below hold the locks that the
-- source takes, so each is one step. `myproc()` is the argument `me`. The machine context, the kernel
-- stack and the file table are left out; the outcomes of `kalloc`, `proc_pagetable` and `copyout`
-- are arguments. `fork` is one step, though it lets go of the lock of the new process while that is used but
-- not runnable yet.
-- A pid is the 32-bit pattern of an `int`.
pub mod Scan
pub mod Wakeup
pub mod Pids
pub mod Steps
pub mod Lifecycle
pub mod Reachable
mod Tests
use csse_332_final.Base.{
  ℕ, zero, suc, ◌+◌, Bool, true, false, ◌&&◌, ◌||◌, not, Option, none, some, List, [], Run, returns,
  panics, ◌==◌, if◌then◌else◌, update,
}
use csse_332_final.Base.Words.{add32}

-- `enum procstate`
pub data ProcState : Type 0 where
  unused used sleeping runnable running zombie : ProcState

abbrev pub is_unused : ProcState → Bool
is_unused unused = true
is_unused _ = false

abbrev pub is_sleeping : ProcState → Bool
is_sleeping sleeping = true
is_sleeping _ = false

abbrev pub is_runnable : ProcState → Bool
is_runnable runnable = true
is_runnable _ = false

abbrev pub is_running : ProcState → Bool
is_running running = true
is_running _ = false

abbrev pub is_zombie : ProcState → Bool
is_zombie zombie = true
is_zombie _ = false

-- What a process sleeps on: nothing, a process, or another object of the kernel.
pub data Chan : Type 0 where
  nowhere : Chan
  on_proc on_object : ℕ → Chan

abbrev pub same_chan : Chan → Chan → Bool
same_chan nowhere nowhere = true
same_chan (on_proc a) (on_proc b) = a == b
same_chan (on_object a) (on_object b) = a == b
same_chan _ _ = false

abbrev pub n_proc : ℕ
n_proc = 64

pub record Proc : Type 0 where
  pub state : ProcState
  pub chan : Chan
  pub killed : Bool
  pub xstate : ℕ
  pub pid : ℕ
  pub parent : Option ℕ
  pub sz : ℕ
  pub pagetable : ℕ  -- 0 is the null pointer
  pub trapframe : ℕ
  pub name : List ℕ

pub record Procs : Type 0 where
  pub proc : ℕ → Proc
  pub nextpid : ℕ
  pub initproc : ℕ

abbrev pub set_proc : ℕ → Proc → Procs → Procs
set_proc i p s = record s { proc = update s.proc i p }

abbrev pub is_parent : ℕ → Option ℕ → Bool
is_parent me none = false
is_parent me (some i) = i == me

-- `for(p = proc; p < &proc[NPROC]; p++)` over a body that changes only `p`: `k` rounds from `i` on.
pub for_procs : (ℕ → Proc → Proc) → ℕ → ℕ → (ℕ → Proc) → ℕ → Proc
for_procs body zero i t = t
for_procs body (suc k) i t = for_procs body k (i + 1) (update t i (body i (t i)))

-- The same loop, ended by the first `p` that passes a test.
pub find_proc : (Proc → Bool) → (ℕ → Proc) → ℕ → ℕ → Option ℕ
find_proc test t zero i = none
find_proc test t (suc k) i =
    let rest = find_proc test t k (i + 1) in if test (t i) then some i else rest

pub procinit : Procs → Procs
procinit s = record s { proc = for_procs (λ i p. record p { state = unused }) n_proc 0 s.proc }

abbrev pub freeproc : Proc → Proc
freeproc p = record p {
  trapframe = 0;
  pagetable = 0;
  sz = 0;
  pid = 0;
  parent = none;
  name = [];
  chan = nowhere;
  killed = false;
  xstate = 0;
  state = unused;
}

-- `allocproc`, with what `kalloc` and `proc_pagetable` return. `killed` keeps its value.
pub allocproc : ℕ → ℕ → Procs → Option ℕ × Procs
allocproc trapframe pagetable s = elim (find_proc (λ p. is_unused p.state) s.proc n_proc 0) [
  | none ↦ (none, s)
  | some i ↦
      let p = record (s.proc i) { pid = s.nextpid; state = used } in
      let s' = record s { nextpid = add32 s.nextpid 1 } in
      if trapframe == 0 || pagetable == 0
      then (none, set_proc i (freeproc p) s')
      else (some i, set_proc i (record p { trapframe = trapframe; pagetable = pagetable }) s')
]

abbrev wake : ℕ → Chan → ℕ → Proc → Proc
wake me chan i p =
    if not (i == me) && (is_sleeping p.state && same_chan p.chan chan)
    then record p { state = runnable }
    else p

pub wakeup : ℕ → Chan → Procs → Procs
wakeup me chan s = record s { proc = for_procs (wake me chan) n_proc 0 s.proc }

abbrev pub kill_proc : Proc → Proc
kill_proc p = record p { killed = true; state = if is_sleeping p.state then runnable else p.state }

-- The answer is whether the pid was found: 0 and -1 in the source.
pub kill : ℕ → Procs → Bool × Procs
kill pid s = elim (find_proc (λ p. p.pid == pid) s.proc n_proc 0) [
  | none ↦ (false, s)
  | some i ↦ (true, set_proc i (kill_proc (s.proc i)) s)
]

pub setkilled : ℕ → Procs → Procs
setkilled i s = set_proc i (record (s.proc i) { killed = true }) s

-- The loop of `reparent`: `k` rounds from `i` on.
pub reparent_from : ℕ → ℕ → ℕ → Procs → Procs
reparent_from me zero i s = s
reparent_from me (suc k) i s = reparent_from me k (i + 1) (
    if is_parent me (s.proc i).parent
    then wakeup me (on_proc s.initproc)
        (set_proc i (record (s.proc i) { parent = some s.initproc }) s)
    else s)

pub reparent : ℕ → Procs → Procs
reparent me s = reparent_from me n_proc 0 s

-- `wakeup(p->parent)`: the parent itself is the channel.
abbrev pub parent_chan : Option ℕ → Chan
parent_chan none = nowhere
parent_chan (some i) = on_proc i

-- `exit` from the point where `wait_lock` is taken to the `sched()` that does not return.
pub exit : ℕ → ℕ → Procs → Run Procs
exit me status s =
    if me == s.initproc
    then panics "init exiting"
    else (let s1 = reparent me s in
        let s2 = wakeup me (parent_chan (s1.proc me).parent) s1 in
        returns (set_proc me (record (s2.proc me) { xstate = status; state = zombie }) s2))

-- One round of the loop of `wait`, in which `wait_lock` is held.
pub data WaitEnd : Type 0 where
  reaped : ℕ → Procs → WaitEnd  -- the pid of the child, which is freed
  refused : WaitEnd  -- -1: `copyout` failed
  childless : WaitEnd  -- -1: no child, or killed
  waits : WaitEnd  -- sleeps on itself

-- The scan for a zombie child: its index, or whether there were children at all.
pub wait_scan : ℕ → (ℕ → Proc) → ℕ → ℕ → Bool → Option ℕ × Bool
wait_scan me t zero i havekids = (none, havekids)
wait_scan me t (suc k) i havekids =
    let rest = wait_scan me t k (i + 1) (is_parent me (t i).parent || havekids) in
    if is_parent me (t i).parent && is_zombie (t i).state then (some i, true) else rest

-- `copied` says whether the exit status is wanted and can be stored, or is not wanted.
pub wait_round : ℕ → Bool → Procs → WaitEnd
wait_round me copied s =
    let (found, havekids) = wait_scan me s.proc n_proc 0 false in
    elim found [
      | some i ↦
          if copied then reaped (s.proc i).pid (set_proc i (freeproc (s.proc i)) s) else refused
      | none ↦ if not havekids || (s.proc me).killed then childless else waits
    ]

-- `sleep` up to its `sched()`, and what follows when the process runs again.
pub sleep : ℕ → Chan → Procs → Procs
sleep me chan s = set_proc me (record (s.proc me) { chan = chan; state = sleeping }) s

pub awake : ℕ → Procs → Procs
awake me s = set_proc me (record (s.proc me) { chan = nowhere }) s

-- `yield` up to its `sched()`.
pub yield_cpu : ℕ → Procs → Procs
yield_cpu me s = set_proc me (record (s.proc me) { state = runnable }) s

-- The checks of `sched`: the lock of the process alone is held, and interrupts are off.
pub sched : Bool → ℕ → Bool → Proc → Run (Unit {0})
sched holding noff intr p =
    if not holding
    then panics "sched p->lock"
    else if not (noff == 1)
    then panics "sched locks"
    else if is_running p.state
    then panics "sched running"
    else if intr
    then panics "sched interruptible"
    else returns tt

-- The scheduler at slot `i`: the process to switch to, if it is runnable.
pub pick : ℕ → Procs → Option Procs
pick i s =
    if is_runnable (s.proc i).state
    then some (set_proc i (record (s.proc i) { state = running }) s)
    else none

-- `fork` after `allocproc` gave slot `i`: `copied` is the outcome of `uvmcopy`.
pub fork_into : ℕ → ℕ → Bool → Procs → Option ℕ × Procs
fork_into me i copied s =
    if copied
    then (
      some (s.proc i).pid,
      set_proc i
          (record (s.proc i) {
            sz = (s.proc me).sz;
            name = (s.proc me).name;
            parent = some me;
            state = runnable;
          })
          s,
    )
    else (none, set_proc i (freeproc (s.proc i)) s)

pub fork : ℕ → ℕ → ℕ → Bool → Procs → Option ℕ × Procs
fork me trapframe pagetable copied s =
    let (slot, s') = allocproc trapframe pagetable s in
    elim slot [ none ↦ (none, s') | some i ↦ fork_into me i copied s' ]
