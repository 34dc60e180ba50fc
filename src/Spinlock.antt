-- ===== src/Spinlock.antt =====
-- kernel/spinlock.c: spin locks, and the nesting of disabled interrupts.
--
-- A function runs on the processor `me`, of which it changes the fields below. One pass of the loop of
-- `acquire` is one atomic exchange. The fences are left out.
pub mod Nesting
mod Tests
use csse_332_final.Base.{
  ℕ, suc, ◌+◌, ◌-◌, Bool, true, false, ◌&&◌, not, Option, none, some, List, [], ◌∷◌, Run, returns,
  panics, ◌>>=◌, ltb, ◌==◌, if◌then◌else◌,
}

pub record Cpu : Type 0 where
  pub noff : ℕ
  pub intena : Bool
  pub intr : Bool  -- whether interrupts are on: `intr_get()`

pub record Spinlock : Type 0 where
  pub locked : Bool
  pub cpu : Option ℕ

pub initlock : Spinlock
initlock = record { locked = false; cpu = none }

abbrev is_cpu : ℕ → Option ℕ → Bool
is_cpu me none = false
is_cpu me (some i) = i == me

pub holding : ℕ → Spinlock → Bool
holding me lk = lk.locked && is_cpu me lk.cpu

pub push_off : Cpu → Cpu
push_off c =
    let old = c.intr in
    let c1 = record c { intr = false } in
    let c2 = if c1.noff == 0 then record c1 { intena = old } else c1 in
    record c2 { noff = c2.noff + 1 }

pub pop_off : Cpu → Run Cpu
pop_off c =
    if c.intr
    then panics "pop_off - interruptible"
    else if ltb c.noff 1
    then panics "pop_off"
    else (let c1 = record c { noff = c.noff - 1 } in
        returns (if c1.noff == 0 && c1.intena then record c1 { intr = true } else c1))

-- `acquire` up to its loop.
pub start_acquire : ℕ → Spinlock → Cpu → Run Cpu
start_acquire me lk c =
    let c' = push_off c in if holding me lk then panics "acquire" else returns c'

-- A pass of the loop, and what follows it; `none` is a pass that found the lock taken.
pub try_lock : ℕ → Spinlock → Option Spinlock
try_lock me lk = if lk.locked then none else some (record { locked = true; cpu = some me })

pub release : ℕ → Spinlock → Cpu → Run (Spinlock × Cpu)
release me lk c =
    if not (holding me lk)
    then panics "release"
    else (pop_off c >>= λ c'. returns (record { locked = false; cpu = none }, c'))

-- A sequence of calls of `push_off` and `pop_off` on one processor.
pub data Op : Type 0 where
  push pop : Op

pub run : List Op → Cpu → Run Cpu
run [] c = returns c
run (push ∷ ops) c = run ops (push_off c)
run (pop ∷ ops) c = pop_off c >>= run ops
