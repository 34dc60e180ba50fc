-- ===== src/Proc/Steps.antt =====
-- kernel/proc.c: the steps of the process table, and what `fork` does to the pids.
use csse_332_final.Base.{
  ℕ, ◌+◌, ◌^◌, ◌≤◌, ◌<◌, ◌≡◌, refl, sym, ap, inl, inr, Bool, true, false, ◌||◌, Option, some,
  returns, arith, ◌==◌, Bool-cases, Option-cases, update_self,
}
use csse_332_final.Proc.{
  ProcState, runnable, running, is_unused, is_runnable, is_running, Chan, n_proc, Procs, find_proc,
  allocproc, wakeup, kill, setkilled, exit, reaped, wait_round, sleep, awake, yield_cpu, pick,
  fork_into, fork,
}
use csse_332_final.Base.Words.{add32}
use csse_332_final.Proc.Scan.{find_proc-some}
use csse_332_final.Proc.Pids.{HasPids, Kept-HasPids, set_proc-HasPids, free-HasPids, take-HasPids}

pub is_running-used : (p : ProcState) → is_running p ≡ true → is_unused p ≡ false
is_running-used running h = refl
is_running-used _ h = cc

pub is_runnable-used : (p : ProcState) → is_runnable p ≡ true → is_unused p ≡ false
is_runnable-used runnable h = refl
is_runnable-used _ h = cc

-- What `allocproc` leaves.
pub record Allocates (tf pt : ℕ) (s : Procs) (out : Option ℕ × Procs) : Type 0 where
  pub pids : HasPids out.1
  pub next : out.1.nextpid ≤ s.nextpid + 1
  pub slot : (i : ℕ) → out.0 ≡ some i → i < n_proc

allocproc-Allocates :
    (tf pt : ℕ) (s : Procs)
    → s.nextpid + 1 < 2 ^ 32
    → HasPids s
    → Allocates tf pt s (allocproc tf pt s)
unfolding allocproc
allocproc-Allocates tf pt s l v =
    elim (Option-cases (find_proc (λ p. is_unused p.state) s.proc n_proc 0)) [
      | inl e ↦ rw (e, allocproc) (record { pids = v; next = omega arith; slot = λ i q. cc })
      | inr (i, e) ↦ elim (Bool-cases (tf == 0 || pt == 0)) [
        | inl failed ↦
            rw (e, allocproc, failed)
              (record {
                pids =
                    Kept-HasPids refl
                      (λ j h. record { init = refl; next = refl; pid = refl; free = refl })
                      (free-HasPids i _ (record s { nextpid = add32 s.nextpid 1 }) refl refl
                        (skip s l v));
                next = omega (arith, l);
                slot = λ j q. cc;
              })
        | inr fine ↦
            rw (e, allocproc, fine)
              (record {
                pids = take-HasPids i _ s refl refl l v;
                next = omega (arith, l);
                slot = λ j q.
                    let same : i ≡ j = some_inj q in
                    omega
                      (arith, (find_proc-some (λ p. is_unused p.state) s.proc n_proc 0 e).below);
              })
      ]
    ]
  where
    some_inj : {a b : ℕ} → some a ≡ some b → a ≡ b
    some_inj q = cc

    skip :
        (s : Procs)
        → s.nextpid + 1 < 2 ^ 32
        → HasPids s
        → HasPids (record s { nextpid = add32 s.nextpid 1 })
    skip s l v = record {
      pos = omega (arith, l);
      below = λ j h. omega (arith, l, v.below j h);
      free_pid = v.free_pid;
      used_pid = v.used_pid;
      distinct = v.distinct;
    }

-- The steps of the table. `me` runs; a child that `wait` frees is one that the scan has found.
pub data Step : Procs → Procs → Type 0 where
  forks :
      {s t : Procs} (me tf pt : ℕ) (copied : Bool) {o : Option ℕ}
      → fork me tf pt copied s ≡ (o, t)
      → Step s t
  wakes : (me : ℕ) (chan : Chan) (s : Procs) → Step s (wakeup me chan s)
  kills : {s t : Procs} (pid : ℕ) {b : Bool} → kill pid s ≡ (b, t) → Step s t
  marks : (i : ℕ) (s : Procs) → Step s (setkilled i s)
  exits :
      {s t : Procs} (me status : ℕ)
      → me < n_proc
      → is_running (s.proc me).state ≡ true
      → exit me status s ≡ returns t
      → Step s t
  reaps :
      {s t : Procs} (me pid : ℕ) (copied : Bool) → wait_round me copied s ≡ reaped pid t → Step s t
  sleeps :
      {s : Procs} (me : ℕ) (chan : Chan)
      → is_running (s.proc me).state ≡ true
      → Step s (sleep me chan s)
  resumes : {s : Procs} (me : ℕ) → Step s (awake me s)
  yields : {s : Procs} (me : ℕ) → is_running (s.proc me).state ≡ true → Step s (yield_cpu me s)
  runs : {s t : Procs} (i : ℕ) → pick i s ≡ some t → Step s t

-- How many pids a step takes at most.
abbrev pub pids_of : {s t : Procs} → Step s t → ℕ
pids_of (forks me tf pt copied e) = 1
pids_of _ = 0

pub data Reach (s : Procs) : Procs → Type 0 where
  here : Reach s s
  next : {t u : Procs} → Reach s t → Step t u → Reach s u

-- How many forks there are in a run.
abbrev pub fork_count : {s t : Procs} → Reach s t → ℕ
fork_count here = 0
fork_count (next r st) = fork_count r + pids_of st

fork_into-HasPids :
    (me i : ℕ) (copied : Bool) (s : Procs)
    → is_unused (s.proc i).state ≡ false
    → HasPids s
    → HasPids (fork_into me i copied s).1
unfolding fork_into
fork_into-HasPids me i true s u v = set_proc-HasPids i _ s refl (sym u) v
fork_into-HasPids me i false s u v = free-HasPids i _ s refl refl v

allocproc-used :
    (tf pt : ℕ) (s : Procs) {i : ℕ}
    → (allocproc tf pt s).0 ≡ some i
    → is_unused ((allocproc tf pt s).1.proc i).state ≡ false
unfolding allocproc
allocproc-used tf pt s {i} q =
    elim (Option-cases (find_proc (λ p. is_unused p.state) s.proc n_proc 0)) [
      | inl e ↦ cc (rw (e, allocproc) at q)
      | inr (j, e) ↦ elim (Bool-cases (tf == 0 || pt == 0)) [
        | inl failed ↦ cc (rw (e, allocproc, failed) at q)
        | inr fine ↦
            rw (e, allocproc, fine)
              (ap (λ p. is_unused p.state)
                (update_self s.proc j _ (some_inj (rw (e, allocproc, fine) at q))))
      ]
    ]
  where
    some_inj : {a b : ℕ} → some a ≡ some b → a ≡ b
    some_inj r = cc

fork_into-next :
    (me i : ℕ) (copied : Bool) (s : Procs) → (fork_into me i copied s).1.nextpid ≡ s.nextpid
unfolding fork_into
fork_into-next me i true s = refl
fork_into-next me i false s = refl

-- What a step leaves that makes `k` processes at most.
abbrev pub Leaves : ℕ → Procs → Procs → Type 0
Leaves k s t = HasPids t × (t.nextpid ≤ s.nextpid + k)

pub fork-Leaves :
    (me tf pt : ℕ) (copied : Bool) (s : Procs)
    → s.nextpid + 1 < 2 ^ 32
    → HasPids s
    → Leaves 1 s (fork me tf pt copied s).1
unfolding fork
fork-Leaves me tf pt copied s l v = elim (Option-cases (allocproc tf pt s).0) [
  | inl e ↦ let a = allocproc-Allocates tf pt s l v in rw (e, fork) (a.pids, a.next)
  | inr (i, e) ↦
      let a = allocproc-Allocates tf pt s l v in
      rw (e, fork)
        (
          fork_into-HasPids me i copied (allocproc tf pt s).1 (allocproc-used tf pt s e) a.pids,
          omega (arith, fork_into-next me i copied (allocproc tf pt s).1, a.next),
        )
]
