-- ===== src/Spinlock/Tests.antt =====
-- kernel/spinlock.c: nested critical sections.
use csse_332_final.Base.{◌≡◌, refl, true, false, some, List, [], ◌∷◌, returns, arith}
use csse_332_final.Spinlock.{
  Cpu, Spinlock, initlock, push_off, start_acquire, try_lock, release, Op, push, pop,
}
use csse_332_final.Spinlock.Nesting.{Restores, release-acquire}

abbrev on : Cpu
on = record { noff = 0; intena = false; intr = true }

abbrev nested : List Op
nested = push ∷ push ∷ pop ∷ pop ∷ []

abbrev free_lock : Spinlock
free_lock = record { locked = false; cpu = some 1 }

release-acquire_example :
    (start_acquire 0 free_lock on ≡ returns (push_off on))
    × (taken : Spinlock) × (try_lock 0 free_lock ≡ some taken)
    × (c' : Cpu) × (release 0 taken (push_off on) ≡ returns (initlock, c'))
    × Restores on c'
unfolding initlock
release-acquire_example =
    release-acquire 0 free_lock on (push_off on) refl (λ h. absurd (omega arith))
      (record { intr = refl; noff = refl; intena = λ h. refl })
