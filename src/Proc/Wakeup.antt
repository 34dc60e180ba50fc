-- ===== src/Proc/Wakeup.antt =====
-- kernel/proc.c: `wakeup`, `kill` and `reparent`, slot by slot.
use csse_332_final.Base.{
  ℕ, zero, suc, ◌+◌, ◌<◌, ◌≡◌, refl, ◌∙◌, ap, ◌≢◌, ◌⊎◌, inl, inr, true, false, ◌&&◌, Option, some,
  arith, leb, ltb, ◌==◌, ==_eq, ==_ne, ==_iff, ne_of_==, if◌then◌else◌, Bool-cases, Option-cases,
  update, update_self, update-ne, ℕ_discrete,
}
use csse_332_final.Proc.{
  runnable, is_sleeping, is_unused, Chan, on_proc, same_chan, n_proc, Proc, Procs, set_proc,
  is_parent, find_proc, wake, wakeup, kill_proc, kill, reparent_from, reparent,
}
use csse_332_final.Proc.Scan.{for_procs_lem, find_proc-some, find_proc-none}

pub wakeup_lem :
    (me : ℕ) (chan : Chan) (s : Procs) (j : ℕ)
    → j < n_proc
    → (wakeup me chan s).proc j ≡ wake me chan j (s.proc j)
unfolding wakeup
wakeup_lem me chan s j h =
    for_procs_lem (wake me chan) n_proc 0 j s.proc (omega arith) (omega arith)

pub parent-wake : (me : ℕ) (chan : Chan) (j : ℕ) (p : Proc) → (wake me chan j p).parent ≡ p.parent
parent-wake me chan j p = ground arith

pub pid-wake : (me : ℕ) (chan : Chan) (j : ℕ) (p : Proc) → (wake me chan j p).pid ≡ p.pid
pid-wake me chan j p = ground arith

-- After `wakeup(chan)` no process but the caller sleeps on `chan`; a process that was not sleeping
-- on it is as before, and one that was is runnable and otherwise as before.
pub wakeup_wakes :
    (me : ℕ) (chan : Chan) (s : Procs) (j : ℕ)
    → j < n_proc
    → j ≢ me
    → let p = s.proc j in
      let p' = (wakeup me chan s).proc j in
      ((is_sleeping p'.state && same_chan p'.chan chan) ≡ false)
      × (p' ≡ (
          if is_sleeping p.state && same_chan p.chan chan
          then record p { state = runnable }
          else p))
wakeup_wakes me chan s j h ne =
    rw (wakeup_lem me chan s j h, ==_ne j me ne) (still (s.proc j), refl)
  where
    still :
        (p : Proc)
        → let q =
            if is_sleeping p.state && same_chan p.chan chan
            then record p { state = runnable }
            else p in
          (is_sleeping q.state && same_chan q.chan chan) ≡ false
    still p = elim (Bool-cases (is_sleeping p.state && same_chan p.chan chan)) [
      | inl on ↦ rw on
      | inr off ↦ rw off off
    ]

-- `kill` answers whether some slot has the pid. It marks the first such slot killed, and makes its
-- process runnable if it sleeps; every other slot is as before.
pub kill_lem :
    (pid : ℕ) (s : Procs)
    → ((kill pid s ≡ (false, s)) × ((j : ℕ) → j < n_proc → (s.proc j).pid ≢ pid))
      ⊎ ((i : ℕ) × (i < n_proc)
          × ((s.proc i).pid ≡ pid)
          × (kill pid s ≡ (true, set_proc i (kill_proc (s.proc i)) s)))
unfolding kill
kill_lem pid s = elim (Option-cases (find_proc (λ p. p.pid == pid) s.proc n_proc 0)) [
  | inl e ↦ inl (
    rw (e, kill),
    λ j h.
        ne_of_== (s.proc j).pid pid
          (find_proc-none (λ p. p.pid == pid) s.proc n_proc 0 j e (omega arith) (omega arith)),
  )
  | inr (i, e) ↦
      let f = find_proc-some (λ p. p.pid == pid) s.proc n_proc 0 e in
      inr (i, omega (arith, f.below), (==_iff (s.proc i).pid pid).0 f.passes, rw (e, kill))
]

-- One round of `reparent`.
reparent_at : ℕ → ℕ → Procs → Procs
reparent_at me i s =
    if is_parent me (s.proc i).parent
    then wakeup me (on_proc s.initproc)
        (set_proc i (record (s.proc i) { parent = some s.initproc }) s)
    else s

abbrev pub new_parent : ℕ → ℕ → Option ℕ → Option ℕ
new_parent me init p = if is_parent me p then some init else p

-- What a slot keeps under `reparent`: its pid and whether it is in use.
pub record Kept (s s' : Procs) (j : ℕ) : Type 0 where
  pub init : s'.initproc ≡ s.initproc
  pub next : s'.nextpid ≡ s.nextpid
  pub pid : (s'.proc j).pid ≡ (s.proc j).pid
  pub free : is_unused (s'.proc j).state ≡ is_unused (s.proc j).state

pub free-wake :
    (me : ℕ) (chan : Chan) (j : ℕ) (p : Proc)
    → is_unused (wake me chan j p).state ≡ is_unused p.state
free-wake me chan j p = ground arith

pub wakeup-Kept :
    (me : ℕ) (chan : Chan) (s : Procs) (j : ℕ) → j < n_proc → Kept s (wakeup me chan s) j
unfolding wakeup
wakeup-Kept me chan s j h = record {
  init = refl;
  next = refl;
  pid = ap (λ p. p.pid) (wakeup_lem me chan s j h) ∙ pid-wake me chan j (s.proc j);
  free = ap (λ p. is_unused p.state) (wakeup_lem me chan s j h) ∙ free-wake me chan j (s.proc j);
}

pub Kept-trans : {s t u : Procs} {j : ℕ} → Kept s t j → Kept t u j → Kept s u j
Kept-trans a b = record {
  init = b.init ∙ a.init;
  next = b.next ∙ a.next;
  pid = b.pid ∙ a.pid;
  free = b.free ∙ a.free;
}

pub set_proc-Kept :
    (i : ℕ) (p : Proc) (s : Procs) (j : ℕ)
    → p.pid ≡ (s.proc i).pid
    → is_unused p.state ≡ is_unused (s.proc i).state
    → Kept s (set_proc i p s) j
set_proc-Kept i p s j e f = elim (ℕ_discrete i j) [
  | yes same ↦ record {
    init = refl;
    next = refl;
    pid = ap (λ q. q.pid) (update_self s.proc i p same) ∙ e ∙ ap (λ n. (s.proc n).pid) same;
    free =
        ap (λ q. is_unused q.state) (update_self s.proc i p same)
        ∙ f
        ∙ ap (λ n. is_unused (s.proc n).state) same;
  }
  | no ne ↦ record {
    init = refl;
    next = refl;
    pid = ap (λ q. q.pid) (update-ne s.proc i p ne);
    free = ap (λ q. is_unused q.state) (update-ne s.proc i p ne);
  }
]

reparent_at-Kept : (me i : ℕ) (s : Procs) (j : ℕ) → j < n_proc → Kept s (reparent_at me i s) j
unfolding reparent_at
reparent_at-Kept me i s j h = elim (Bool-cases (is_parent me (s.proc i).parent)) [
  | inr other ↦ rw other (record { init = refl; next = refl; pid = refl; free = refl })
  | inl child ↦ rw child (
      Kept-trans (set_proc-Kept i (record (s.proc i) { parent = some s.initproc }) s j refl refl)
        (wakeup-Kept me (on_proc s.initproc) _ j h))
]

reparent_at-parent :
    (me i : ℕ) (s : Procs) (j : ℕ)
    → j < n_proc
    → ((reparent_at me i s).proc j).parent
      ≡ (if i == j then new_parent me s.initproc (s.proc j).parent else (s.proc j).parent)
unfolding reparent_at
reparent_at-parent me i s j h = elim (Bool-cases (is_parent me (s.proc i).parent)) [
  | inr other ↦ rw other (elim (ℕ_discrete i j) [
    | yes same ↦ rw (==_eq i j same, ← same, other)
    | no ne ↦ rw (==_ne i j ne)
  ])
  | inl child ↦
      rw
        (
          child,
          wakeup_lem me (on_proc s.initproc)
              (set_proc i (record (s.proc i) { parent = some s.initproc }) s) j h,
          parent-wake me (on_proc s.initproc) j
              (update s.proc i (record (s.proc i) { parent = some s.initproc }) j),
        )
        (elim (ℕ_discrete i j) [
          | yes same ↦ rw (==_eq i j same, ← same, child)
          | no ne ↦ rw (==_ne i j ne)
        ])
]

reparent_from-Kept : (me k i j : ℕ) (s : Procs) → j < n_proc → Kept s (reparent_from me k i s) j
unfolding reparent_from reparent_at
reparent_from-Kept me zero i j s h = record { init = refl; next = refl; pid = refl; free = refl }
reparent_from-Kept me (suc k) i j s h =
    Kept-trans (reparent_at-Kept me i s j h)
      (reparent_from-Kept me k (i + 1) j (reparent_at me i s) h)

reparent_from-parent :
    (me k i j : ℕ) (s : Procs)
    → j < n_proc
    → ((reparent_from me k i s).proc j).parent ≡ (
        if leb i j && ltb j (i + k)
        then new_parent me s.initproc (s.proc j).parent
        else (s.proc j).parent)
unfolding reparent_from reparent_at
reparent_from-parent me zero i j s h = ground arith
reparent_from-parent me (suc k) i j s h =
    reparent_from-parent me k (i + 1) j (reparent_at me i s) h
    ∙ ground (arith, (reparent_at-Kept me i s j h).init, reparent_at-parent me i s j h)

pub reparent-Kept : (me j : ℕ) (s : Procs) → j < n_proc → Kept s (reparent me s) j
unfolding reparent
reparent-Kept me j s h = reparent_from-Kept me n_proc 0 j s h

-- After `reparent` every child of the process is a child of init, and no other parent has changed.
pub reparent-parent :
    (me j : ℕ) (s : Procs)
    → j < n_proc
    → ((reparent me s).proc j).parent ≡ new_parent me s.initproc (s.proc j).parent
unfolding reparent
reparent-parent me j s h = ground (arith, reparent_from-parent me n_proc 0 j s h)
