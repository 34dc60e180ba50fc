-- ===== src/Proc/Lifecycle.antt =====
-- kernel/proc.c: what holds of the process table after any steps, and what `exit` and `wait` do.
use csse_332_final.Base.{
  ℕ, zero, suc, ◌+◌, ◌<◌, ◌≡◌, refl, sym, ◌∙◌, ap, ◌≢◌, inl, inr, Bool, true, false, not, ◌&&◌,
  ◌||◌, some, Run, returns, panics, arith, ==_ne, ==_eq, if◌then◌else◌, Bool-cases, Option-cases,
  update_self, update-ne, ℕ_discrete, subst,
}
use csse_332_final.Proc.{
  zombie, is_running, is_zombie, n_proc, Proc, Procs, set_proc, is_parent, freeproc, wakeup,
  reparent, parent_chan, exit, reaped, refused, childless, waits, wait_scan, wait_round,
}
use csse_332_final.Proc.Wakeup.{
  Kept, Kept-trans, wakeup-Kept, reparent-Kept, reparent-parent, new_parent, wakeup_lem,
  parent-wake,
}
use csse_332_final.Proc.Pids.{HasPids, Kept-HasPids, set_proc-HasPids}
use csse_332_final.Proc.Steps.{is_running-used}

-- What a process leaves that exits, init excepted, which panics.
abbrev pub Exits : ℕ → ℕ → Procs → Run Procs → Type 0
Exits me status s (panics m) = me ≡ s.initproc
Exits me status s (returns t) =
    (me ≢ s.initproc)
    × (is_zombie (t.proc me).state ≡ true)
    × ((t.proc me).xstate ≡ status)
    × ((j : ℕ) → j < n_proc → (t.proc j).parent ≡ new_parent me s.initproc (s.proc j).parent)

module _ (me status : ℕ) (s : Procs) (mine : me < n_proc) where
  abbrev pub orphaned : Procs
  orphaned = wakeup me (parent_chan ((reparent me s).proc me).parent) (reparent me s)

  orphaned-Kept : (j : ℕ) → j < n_proc → Kept s orphaned j
  orphaned-Kept j h = Kept-trans (reparent-Kept me j s h) (wakeup-Kept me _ (reparent me s) j h)

  orphaned-parent :
      (j : ℕ) → j < n_proc → (orphaned.proc j).parent ≡ new_parent me s.initproc (s.proc j).parent
  orphaned-parent j h =
      ap (λ p. p.parent)
        (wakeup_lem me (parent_chan ((reparent me s).proc me).parent) (reparent me s) j h)
      ∙ parent-wake me (parent_chan ((reparent me s).proc me).parent) j ((reparent me s).proc j)
      ∙ reparent-parent me j s h

  abbrev pub exited : Procs
  exited = set_proc me (record (orphaned.proc me) { xstate = status; state = zombie }) orphaned

  pub exit_lem : me ≢ s.initproc → exit me status s ≡ returns exited
  unfolding exit
  exit_lem ne = rw (==_ne me s.initproc ne)

  -- `exit` panics for init alone. Else the process is a zombie with its status, and its children,
  -- and no others, have init for a parent.
  pub exit-Exits : Exits me status s (exit me status s)
  unfolding exit
  exit-Exits = elim (ℕ_discrete me s.initproc) [
    | yes e ↦ rw (==_eq me s.initproc e) e
    | no ne ↦ rw (exit_lem ne) (
      ne,
      ap (λ p. is_zombie p.state) (update_self orphaned.proc me _ refl),
      ap (λ p. p.xstate) (update_self orphaned.proc me _ refl),
      λ j h. elim (ℕ_discrete me j) [
        | yes same ↦
            ap (λ p. p.parent) (update_self orphaned.proc me _ same)
            ∙ ap (λ n. (orphaned.proc n).parent) same
            ∙ orphaned-parent j h
        | no other ↦ ap (λ p. p.parent) (update-ne orphaned.proc me _ other) ∙ orphaned-parent j h
      ],
    )
  ]

  pub exited-HasPids : is_running (s.proc me).state ≡ true → HasPids s → HasPids exited
  unfolding wakeup
  exited-HasPids run v =
      set_proc-HasPids me _ orphaned refl
        (sym ((orphaned-Kept me mine).free ∙ is_running-used _ run))
        (Kept-HasPids (orphaned-Kept me mine).next orphaned-Kept v)

  pub exited-next : exited.nextpid ≡ s.nextpid
  unfolding wakeup
  exited-next = (orphaned-Kept me mine).next

-- The scan of `wait` finds a child that is a zombie.
wait_scan-found :
    (me : ℕ) (t : ℕ → Proc) (k i : ℕ) (havekids : Bool) {j : ℕ}
    → (wait_scan me t k i havekids).0 ≡ some j
    → (j < i + k) × (is_parent me (t j).parent ≡ true) × (is_zombie (t j).state ≡ true)
unfolding wait_scan
wait_scan-found me t zero i havekids e = cc
wait_scan-found me t (suc k) i havekids {j} e =
    elim (Bool-cases (is_parent me (t i).parent && is_zombie (t i).state)) [
      | inl found ↦
          let same : i ≡ j = some_inj (rw (found, wait_scan) at e) in
          subst
            (λ n.
              (n < i + suc k) × (is_parent me (t n).parent ≡ true) × (is_zombie (t n).state ≡ true))
            same (omega arith, ground (arith, found), ground (arith, found))
      | inr other ↦
          let ih =
            wait_scan-found me t k (i + 1) (is_parent me (t i).parent || havekids)
              (rw (other, wait_scan) at e) in
          (omega (arith, ih.0), ih.1, ih.2)
    ]
  where
    some_inj : {a b : ℕ} → some a ≡ some b → a ≡ b
    some_inj q = cc

-- A child that `wait` reaps: a zombie whose parent is the caller, whose slot is then free.
pub wait_round-reaped :
    (me : ℕ) {pid : ℕ} (copied : Bool) (s : Procs) {t : Procs}
    → wait_round me copied s ≡ reaped pid t
    → (i : ℕ) × (i < n_proc)
      × (is_parent me (s.proc i).parent ≡ true)
      × (is_zombie (s.proc i).state ≡ true)
      × (pid ≡ (s.proc i).pid)
      × (t ≡ set_proc i (freeproc (s.proc i)) s)
unfolding wait_round
wait_round-reaped me {pid} copied s {t} e =
    elim (Option-cases (wait_scan me s.proc n_proc 0 false).0) [
      | inl q ↦ absurd (
          never (not (wait_scan me s.proc n_proc 0 false).1 || (s.proc me).killed)
            (rw (q, wait_round) at e))
      | inr (i, q) ↦
          let f = wait_scan-found me s.proc n_proc 0 false q in
          let out = freed i copied (rw (q, wait_round) at e) in
          (i, omega (arith, f.0), f.1, f.2, out.0, out.1)
    ]
  where
    never : (b : Bool) → (if b then childless else waits) ≡ reaped pid t → ⊥
    never true r = cc
    never false r = cc

    freed :
        (i : ℕ) (c : Bool)
        → (if c then reaped (s.proc i).pid (set_proc i (freeproc (s.proc i)) s) else refused)
          ≡ reaped pid t
        → (pid ≡ (s.proc i).pid) × (t ≡ set_proc i (freeproc (s.proc i)) s)
    freed i true r = (cc, cc)
    freed i false r = (cc, cc)
