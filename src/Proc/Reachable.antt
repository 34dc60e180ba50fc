-- ===== src/Proc/Reachable.antt =====
-- kernel/proc.c: pids in every reachable table, and `kill` of pid 0.
use csse_332_final.Base.{
  ℕ, ◌+◌, ◌^◌, ◌<◌, ◌≡◌, refl, sym, ◌∙◌, ap, inl, inr, true, some, returns, arith, ◌==◌, ==_ne,
  ==_eq, if◌then◌else◌, Bool-cases, update, update_self, update-ne, ℕ_discrete, subst,
}
use csse_332_final.Base.Words.{add32}
use csse_332_final.Proc.{
  ProcState, unused, used, sleeping, runnable, is_unused, is_sleeping, is_runnable, n_proc, Proc,
  Procs, set_proc, find_proc, freeproc, allocproc, wakeup, kill_proc, kill, setkilled, exit, sleep,
  awake, yield_cpu, pick,
}
use csse_332_final.Proc.Scan.{find_proc-some, find_proc-first}
use csse_332_final.Proc.Wakeup.{wakeup-Kept, kill_lem}
use csse_332_final.Proc.Pids.{HasPids, Kept-HasPids, set_proc-HasPids, free-HasPids}
use csse_332_final.Proc.Steps.{
  Leaves, Step, forks, wakes, kills, marks, exits, reaps, sleeps, resumes, yields, runs, Reach,
  here, next, pids_of, fork_count, fork-Leaves, is_running-used, is_runnable-used,
}
use csse_332_final.Proc.Lifecycle.{
  exit_lem, Exits, exit-Exits, exited-HasPids, exited-next, wait_round-reaped,
}

out : {A : Type 0} {a b : A} → returns a ≡ returns b → a ≡ b
out q = cc

kill-Leaves : (pid : ℕ) (s : Procs) → HasPids s → Leaves 0 s (kill pid s).1
kill-Leaves pid s v = elim (kill_lem pid s) [
  | inl (e, _) ↦ rw e (v, omega arith)
  | inr (i, _, _, e) ↦
      rw e
        (set_proc-HasPids i (kill_proc (s.proc i)) s refl (awoken (s.proc i).state) v, omega arith)
]
  where
    awoken : (p : ProcState) → is_unused (if is_sleeping p then runnable else p) ≡ is_unused p
    awoken sleeping = refl
    awoken _ = refl

pick-Leaves : (i : ℕ) (s : Procs) {t : Procs} → pick i s ≡ some t → HasPids s → Leaves 0 s t
unfolding pick
pick-Leaves i s {t} e v = elim (Bool-cases (is_runnable (s.proc i).state)) [
  | inr off ↦ cc (rw off at e)
  | inl on ↦
      subst (Leaves 0 s) (some_inj (rw on at e))
        (set_proc-HasPids i _ s refl (sym (is_runnable-used (s.proc i).state on)) v, omega arith)
]
  where
    some_inj : {a b : Procs} → some a ≡ some b → a ≡ b
    some_inj q = cc

Step-Leaves :
    {s t : Procs} (st : Step s t)
    → s.nextpid + pids_of st < 2 ^ 32
    → HasPids s
    → Leaves (pids_of st) s t
unfolding wakeup setkilled sleep awake yield_cpu
Step-Leaves (forks {s} me tf pt copied e) l v =
    subst (Leaves 1 s) (ap (λ r. r.1) e) (fork-Leaves me tf pt copied s l v)
Step-Leaves (wakes me chan s) l v =
    let kept = (wakeup-Kept me chan s 0 (omega arith)).next in
    (Kept-HasPids kept (wakeup-Kept me chan s) v, omega arith)
Step-Leaves (kills {s} pid e) l v = subst (Leaves 0 s) (ap (λ r. r.1) e) (kill-Leaves pid s v)
Step-Leaves (marks i s) l v = (set_proc-HasPids i _ s refl refl v, omega arith)
Step-Leaves (exits {s} {t} me status mine run e) l v = elim (ℕ_discrete me s.initproc) [
  | yes init ↦ absurd (never (exit-Exits me status s mine) init)
  | no ne ↦
      subst (Leaves 0 s) (out (sym (exit_lem me status s mine ne) ∙ e))
        (exited-HasPids me status s mine run v, omega (arith, exited-next me status s mine))
]
  where
    never : Exits me status s (exit me status s) → me ≡ s.initproc → ⊥
    never x init = (subst (Exits me status s) e x).0 init
Step-Leaves (reaps {s} {t} me pid copied e) l v =
    let (i, _, _, _, _, same) = wait_round-reaped me copied s e in
    subst (Leaves 0 s) (sym same) (free-HasPids i (freeproc (s.proc i)) s refl refl v, omega arith)
Step-Leaves (sleeps {s} me chan run) l v =
    (set_proc-HasPids me _ s refl (sym (is_running-used (s.proc me).state run)) v, omega arith)
Step-Leaves (resumes {s} me) l v = (set_proc-HasPids me _ s refl refl v, omega arith)
Step-Leaves (yields {s} me run) l v =
    (set_proc-HasPids me _ s refl (sym (is_running-used (s.proc me).state run)) v, omega arith)
Step-Leaves (runs {s} i e) l v = pick-Leaves i s e v

Reach-Leaves :
    {s t : Procs} (r : Reach s t)
    → s.nextpid + fork_count r < 2 ^ 32
    → HasPids s
    → Leaves (fork_count r) s t
Reach-Leaves here l v = (v, omega arith)
Reach-Leaves (next r st) l v =
    let (pids, few) = Reach-Leaves r (omega (arith, l)) v in
    let (pids', few') = Step-Leaves st (omega (arith, l, few)) pids in
    (pids', omega (arith, few, few'))

-- In every table that the steps reach before the pids, from the next one on, are used up by forks and pass
-- the largest `int`, the slots in use have pids of their own, and the free slots have pid 0.
pub Reach-HasPids :
    {s t : Procs} (r : Reach s t) → s.nextpid + fork_count r < 2 ^ 31 → HasPids s → HasPids t
Reach-HasPids r l v = (Reach-Leaves r (omega (arith, l)) v).0

-- The first slot with pid 0 is the first free slot.
kill_zero-slot :
    (s : Procs) (i : ℕ)
    → HasPids s
    → find_proc (λ p. is_unused p.state) s.proc n_proc 0 ≡ some i
    → find_proc (λ p. p.pid == 0) s.proc n_proc 0 ≡ some i
kill_zero-slot s i v e =
    let f = find_proc-some (λ p. is_unused p.state) s.proc n_proc 0 e in
    find_proc-first (λ p. p.pid == 0) s.proc n_proc 0 i f.from f.below
      (==_eq (s.proc i).pid 0 (v.free_pid i (omega (arith, f.below)) f.passes))
      (λ m h l. ==_ne (s.proc m).pid 0 (v.used_pid m (omega (arith, f.below)) (f.first m h l)))

-- A free slot that `kill` marks is still the first free slot.
kill_proc-free :
    (s : Procs) (i : ℕ)
    → find_proc (λ p. is_unused p.state) s.proc n_proc 0 ≡ some i
    → find_proc (λ p. is_unused p.state) (update s.proc i (kill_proc (s.proc i))) n_proc 0 ≡ some i
kill_proc-free s i e =
    let g = find_proc-some (λ p. is_unused p.state) s.proc n_proc 0 e in
    find_proc-first (λ p. is_unused p.state) (update s.proc i (kill_proc (s.proc i))) n_proc 0 i
      g.from g.below
      (ap (λ p. is_unused p.state) (update_self s.proc i (kill_proc (s.proc i)) refl)
        ∙ asleep (s.proc i).state g.passes)
      (λ m h l.
        ap (λ p. is_unused p.state) (update-ne s.proc i (kill_proc (s.proc i)) (omega arith))
        ∙ g.first m h l)
  where
    asleep :
        (p : ProcState)
        → is_unused p ≡ true
        → is_unused (if is_sleeping p then runnable else p) ≡ true
    asleep unused h = refl
    asleep _ h = cc

kill_found :
    (pid : ℕ) (s : Procs) (i : ℕ)
    → find_proc (λ p. p.pid == pid) s.proc n_proc 0 ≡ some i
    → kill pid s ≡ (true, set_proc i (kill_proc (s.proc i)) s)
unfolding kill
kill_found pid s i e = rw (e, kill)

-- The process that `allocproc` makes in slot `i`.
abbrev made : ℕ → ℕ → ℕ → Procs → Proc
made tf pt i s = record (s.proc i) { pid = s.nextpid; state = used; trapframe = tf; pagetable = pt }

allocproc_found :
    (tf pt : ℕ) (s : Procs) (i : ℕ)
    → find_proc (λ p. is_unused p.state) s.proc n_proc 0 ≡ some i
    → 0 < tf
    → 0 < pt
    → allocproc tf pt s
      ≡ (some i, set_proc i (made tf pt i s) (record s { nextpid = add32 s.nextpid 1 }))
unfolding allocproc
allocproc_found tf pt s i e a b =
    rw (e, allocproc, ==_ne tf 0 (omega arith), ==_ne pt 0 (omega arith))

-- In every table with a free slot that the steps reach before the pids, from the next one on, are used up
-- by forks and pass the largest `int`, `kill` of pid 0 succeeds, and the next process that `allocproc` makes,
-- where its trapframe and page table are allocated, starts its life killed.
pub allocproc-kill_zero :
    {s t : Procs} (tf pt i : ℕ)
    → HasPids s
    → (r : Reach s t) → s.nextpid + fork_count r < 2 ^ 31
    → find_proc (λ p. is_unused p.state) t.proc n_proc 0 ≡ some i
    → 0 < tf
    → 0 < pt
    → ((kill 0 t).0 ≡ true)
      × ((allocproc tf pt (kill 0 t).1).0 ≡ some i)
      × (((allocproc tf pt (kill 0 t).1).1.proc i).killed ≡ true)
allocproc-kill_zero {s} {t} tf pt i v r l e a b =
    let k = kill_found 0 t i (kill_zero-slot t i (Reach-HasPids r l v) e) in
    let t1 = set_proc i (kill_proc (t.proc i)) t in
    let m =
      ap (λ q. allocproc tf pt q.1) k ∙ allocproc_found tf pt t1 i (kill_proc-free t i e) a b in
    (
      ap (λ q. q.0) k,
      ap (λ q. q.0) m,
      ap (λ q. (q.1.proc i).killed) m
          ∙ ap (λ p. p.killed) (update_self t1.proc i (made tf pt i t1) refl)
          ∙ ap (λ p. p.killed) (update_self t.proc i (kill_proc (t.proc i)) refl),
    )
