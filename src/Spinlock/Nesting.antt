-- ===== src/Spinlock/Nesting.antt =====
-- kernel/spinlock.c: `push_off` and `pop_off` are matched.
use csse_332_final.Base.{
  ℕ, ◌+◌, ◌-◌, ◌<◌, ◌≡◌, refl, sym, ◌∙◌, ap, true, false, ◌&&◌, none, some, List, [], ◌∷◌, ◌++◌,
  Run, returns, panics, ◌>>=◌, arith, le→ltb, ◌==◌, ==_eq, ==_ne, if◌then◌else◌, Bool-cases, inl,
  inr, ℕ_discrete,
}
use csse_332_final.Spinlock.{
  Cpu, Spinlock, holding, push_off, pop_off, start_acquire, try_lock, release, Op, push, pop, run,
}

-- The sequences in which each `push_off` has its `pop_off`, as the critical sections nest.
pub data Paired : List Op → Type 0 where
  no_ops : Paired []
  pair : {xs ys : List Op} → Paired xs → Paired ys → Paired (push ∷ xs ++ pop ∷ ys)

-- Interrupts are off while `noff` is above 0.
abbrev pub IsQuiet : Cpu → Type 0
IsQuiet c = 0 < c.noff → c.intr ≡ false

-- The same state of interrupts and the same nesting.
pub record Restores (c c' : Cpu) : Type 0 where
  pub intr : c'.intr ≡ c.intr
  pub noff : c'.noff ≡ c.noff
  pub intena : 0 < c.noff → c'.intena ≡ c.intena

run-append : (xs ys : List Op) (c : Cpu) → run (xs ++ ys) c ≡ (run xs c >>= run ys)
unfolding run
run-append [] ys c = refl
run-append (push ∷ xs) ys c = run-append xs ys (push_off c)
run-append (pop ∷ xs) ys c = after (pop_off c) (λ d. run-append xs ys d)
  where
    after :
        (m : Run Cpu)
        → ((d : Cpu) → run (xs ++ ys) d ≡ (run xs d >>= run ys))
        → (m >>= run (xs ++ ys)) ≡ ((m >>= run xs) >>= run ys)
    after (returns d) ih = ih d
    after (panics s) ih = refl

push_off_lem :
    (c : Cpu)
    → push_off c ≡ record {
      noff = c.noff + 1;
      intena = if c.noff == 0 then c.intr else c.intena;
      intr = false;
    }
unfolding push_off
push_off_lem c = elim (Bool-cases (c.noff == 0)) [ inl e ↦ rw e | inr e ↦ rw e ]

abbrev popped : Cpu → Cpu
popped d = record { noff = d.noff - 1; intena = d.intena; intr = d.noff - 1 == 0 && d.intena }

pop_off_lem : (d : Cpu) → d.intr ≡ false → 0 < d.noff → pop_off d ≡ returns (popped d)
unfolding pop_off
pop_off_lem d off h =
    rw (off, le→ltb d.noff 1 (omega arith))
      (elim (Bool-cases (d.noff - 1 == 0 && d.intena)) [ inl e ↦ rw e | inr e ↦ rw e ])

-- A `pop_off` undoes a `push_off`, once the nesting is again what the `push_off` left.
pop_off-push_off :
    (c d : Cpu)
    → IsQuiet c
    → Restores (push_off c) d
    → (c' : Cpu) × (pop_off d ≡ returns c') × Restores c c'
pop_off-push_off c d q r =
    let p = push_off_lem c in
    let off : d.intr ≡ false = r.intr ∙ ap (λ x. x.intr) p in
    let n : d.noff ≡ c.noff + 1 = r.noff ∙ ap (λ x. x.noff) p in
    let up : (push_off c).noff ≡ c.noff + 1 = ap (λ x. x.noff) p in
    let e = r.intena (omega (arith, up)) ∙ ap (λ x. x.intena) p in
    (
      popped d,
      pop_off_lem d off (omega (arith, n)),
      elim (ℕ_discrete c.noff 0) [
        | yes z ↦ record {
          intr = rw (==_eq (d.noff - 1) 0 (omega (arith, n, z)), e, ==_eq c.noff 0 z);
          noff = omega (arith, n);
          intena = λ h. absurd (omega (arith, z));
        }
        | no ne ↦ record {
          intr = rw (==_ne (d.noff - 1) 0 (omega (arith, n))) (sym (q (omega arith)));
          noff = omega (arith, n);
          intena = λ h. e ∙ rw (==_ne c.noff 0 ne);
        }
      ],
    )

Restores-IsQuiet : (c d : Cpu) → IsQuiet c → Restores c d → IsQuiet d
Restores-IsQuiet c d q r h = r.intr ∙ q (omega (arith, r.noff))

Restores-trans : (c d e : Cpu) → Restores c d → Restores d e → Restores c e
Restores-trans c d e a b = record {
  intr = b.intr ∙ a.intr;
  noff = b.noff ∙ a.noff;
  intena = λ h. b.intena (omega (arith, a.noff)) ∙ a.intena h;
}

push_off-IsQuiet : (c : Cpu) → IsQuiet (push_off c)
push_off-IsQuiet c h = ap (λ x. x.intr) (push_off_lem c)

-- Calls in which each `push_off` has its `pop_off` end without a panic, and leave interrupts on or off
-- as they were and the nesting as it was, from every state in which a nesting has interrupts off.
pub run-Restores :
    {ops : List Op}
    → Paired ops
    → (c : Cpu) → IsQuiet c
    → (c' : Cpu) × (run ops c ≡ returns c') × Restores c c'
unfolding run
run-Restores no_ops c q = (c, refl, record { intr = refl; noff = refl; intena = λ h. refl })
run-Restores (pair {xs} {ys} a b) c q =
    let (d, f, r) = run-Restores a (push_off c) (push_off-IsQuiet c) in
    let (e, g, s) = pop_off-push_off c d q r in
    let (c', h, t) = run-Restores b e (Restores-IsQuiet c e q s) in
    (
      c',
      run-append xs (pop ∷ ys) (push_off c)
          ∙ ap (λ m. m >>= run (pop ∷ ys)) f
          ∙ ap (λ m. m >>= run ys) g
          ∙ h,
      Restores-trans c e c' s t,
    )

-- A critical section on a free lock: where the code between `acquire` and `release` leaves the nesting
-- as `acquire` did, neither panics, the lock is free again, and interrupts are as before.
pub release-acquire :
    (me : ℕ) (lk : Spinlock) (c d : Cpu)
    → lk.locked ≡ false
    → IsQuiet c
    → Restores (push_off c) d
    → (start_acquire me lk c ≡ returns (push_off c))
      × (taken : Spinlock) × (try_lock me lk ≡ some taken)
      × (c' : Cpu) × (release me taken d ≡ returns (record { locked = false; cpu = none }, c'))
      × Restores c c'
unfolding start_acquire try_lock release holding
release-acquire me lk c d free q r =
    let (c', f, s) = pop_off-push_off c d q r in
    (rw free, record { locked = true; cpu = some me }, rw free, c', rw (==_eq me me refl, f), s)
