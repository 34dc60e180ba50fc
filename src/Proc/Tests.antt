-- ===== src/Proc/Tests.antt =====
-- kernel/proc.c: runs on small tables.
use csse_332_final.Base.{◌≡◌, refl, true, false, none, some, [], arith, ◌==◌, if◌then◌else◌}
use csse_332_final.Proc.{
  unused, sleeping, running, zombie, is_unused, nowhere, on_proc, on_object, n_proc, Proc, Procs,
  set_proc, find_proc, freeproc, allocproc, kill, exit, reaped, wait_scan, wait_round, fork_into,
  fork,
}
use csse_332_final.Proc.Pids.{HasPids}
use csse_332_final.Proc.Steps.{forks, Reach, here, next}
use csse_332_final.Proc.Lifecycle.{Exits, exit-Exits}
use csse_332_final.Proc.Reachable.{Reach-HasPids, allocproc-kill_zero}

abbrev empty : Proc
empty = record {
  state = unused;
  chan = nowhere;
  killed = false;
  xstate = 0;
  pid = 0;
  parent = none;
  sz = 0;
  pagetable = 0;
  trapframe = 0;
  name = [];
}

abbrev boot : Procs
boot = record { proc = λ i. empty; nextpid = 1; initproc = 0 }

boot-HasPids : HasPids boot
boot-HasPids = record {
  pos = omega arith;
  below = λ j h. omega arith;
  free_pid = λ j h u. refl;
  used_pid = λ j h u. cc;
  distinct = λ i j hi hj ne same. absurd (ne refl);
}

abbrev forked : Procs
forked = (fork 0 1 1 true boot).1

abbrev first_step : Reach boot forked
first_step = next here (forks 0 1 1 true refl)

-- Three processes: init in slot 0, a parent in 1, and its child in 2, which waits for an object.
abbrev family : Procs
family = record {
  proc = λ i.
      if i == 0
      then record empty { state = sleeping; chan = on_proc 0; pid = 1 }
      else if i == 1
      then record empty { state = running; pid = 2; parent = some 0 }
      else if i == 2
      then record empty { state = sleeping; chan = on_object 7; pid = 3; parent = some 1 }
      else empty;
  nextpid = 4;
  initproc = 0;
}

abbrev family_zombie : Procs
family_zombie = set_proc 2 (record (family.proc 2) { state = zombie }) family

Reach-HasPids_example : HasPids forked
Reach-HasPids_example = Reach-HasPids first_step (omega arith) boot-HasPids

forked_free : find_proc (λ p. is_unused p.state) forked.proc n_proc 0 ≡ some 1
unfolding fork fork_into allocproc find_proc
forked_free = refl

allocproc-kill_zero_example :
    ((kill 0 forked).0 ≡ true)
    × ((allocproc 5 6 (kill 0 forked).1).0 ≡ some 1)
    × (((allocproc 5 6 (kill 0 forked).1).1.proc 1).killed ≡ true)
allocproc-kill_zero_example =
    allocproc-kill_zero 5 6 1 boot-HasPids first_step (omega arith) forked_free (omega arith)
      (omega arith)

exit-Exits_example : Exits 1 9 family (exit 1 9 family)
exit-Exits_example = exit-Exits 1 9 family (omega arith)

abbrev reaped_family : Procs
reaped_family = set_proc 2 (freeproc (family_zombie.proc 2)) family_zombie

wait_family : wait_round 1 true family_zombie ≡ reaped 3 reaped_family
unfolding wait_round wait_scan
wait_family = refl
