-- ===== src/Pipe.antt =====
-- kernel/pipe.c: the byte ring of a pipe.
--
-- `pi->lock` is held from one `sleep` to the next, so the code between two of them is one function
-- here, and what other processes do in the meantime is the pipe that the caller finds when it wakes.
-- `killed` is asked once a round, and answered by a function of the round. `copyin` reads a byte of
-- user memory, `none` where the page table refuses it; `copyout` says whether the byte may be stored.
pub mod Window
pub mod Transfer
mod Tests
use csse_332_final.Base.{
  ℕ, zero, suc, ◌+◌, ◌-◌, ◌%◌, ◌^◌, Bool, true, false, ◌&&◌, ◌||◌, not, Option, none, some, List,
  [], ◌∷◌, ltb, ◌==◌, if◌then◌else◌, update,
}
use csse_332_final.Base.Words.{add32, sub32}

abbrev pub pipe_size : ℕ
pipe_size = 512

pub record Pipe : Type 0 where
  pub bytes : ℕ → ℕ  -- `data`, by index below `PIPESIZE`
  pub nread : ℕ
  pub nwrite : ℕ
  pub readopen : Bool
  pub writeopen : Bool

-- the fields that `pipealloc` gives a new pipe; its page holds whatever `kalloc` left there
pub pipe_init : (ℕ → ℕ) → Pipe
pipe_init junk = record { bytes = junk; nread = 0; nwrite = 0; readopen = true; writeopen = true }

-- The sleepers that a call wakes: `&pi->nread` or `&pi->nwrite`.
pub data Channel : Type 0 where
  readers writers : Channel

-- `pipeclose`: the pipe, the channel that is woken, and whether the page is freed.
pub pipeclose : Pipe → Bool → Pipe × Channel × Bool
pipeclose p writable =
    if writable
    then (record p { writeopen = false }, readers, not p.readopen)
    else (record p { readopen = false }, writers, not p.writeopen)

-- How a stretch of `pipewrite` under the lock ends.
pub data WriteEnd : Type 0 where
  gone : Pipe → WriteEnd  -- no reader, or killed: the call returns -1
  full : Pipe → ℕ → WriteEnd  -- wakes the readers and sleeps, with `i` bytes written
  wrote : Pipe → ℕ → WriteEnd  -- wakes the readers and returns `i`

-- pi->data[pi->nwrite++ % PIPESIZE] = ch
abbrev pub put : Pipe → ℕ → Pipe
put p ch = record p { bytes = update p.bytes (p.nwrite % pipe_size) ch; nwrite = add32 p.nwrite 1 }

-- pi->data[pi->nread++ % PIPESIZE]
abbrev pub front : Pipe → ℕ
front p = p.bytes (p.nread % pipe_size)

abbrev pub advance : Pipe → Pipe
advance p = record p { nread = add32 p.nread 1 }

module _ (copyin : ℕ → Option ℕ) (killed : ℕ → Bool) (addr : ℕ) where
  -- `k` bytes are still to be written from `addr + i` on.
  pub write_from : ℕ → ℕ → Pipe → WriteEnd
  write_from zero i p = wrote p i
  write_from (suc k) i p = elim (not p.readopen || killed i) [
    | true ↦ gone p
    | false ↦ elim (p.nwrite == add32 p.nread pipe_size) [
      | true ↦ full p i
      | false ↦ elim (copyin (addr + i)) [
        | none ↦ wrote p i
        | some ch ↦ write_from k (i + 1) (put p ch)
      ]
    ]
  ]

-- A whole call of `pipewrite`: the list holds, for the start and for each wake-up, the pipe that is
-- found and the answers of `killed`. The result is the pipe left at each `sleep` and at the end, the
-- last one first, and what is returned: `none` where the call still sleeps, `some none` for -1.
pub pipewrite :
    (ℕ → Option ℕ)
    → ℕ
    → ℕ
    → ℕ
    → List (Pipe × (ℕ → Bool))
    → List Pipe
    → List Pipe × Option (Option ℕ)
pipewrite copyin addr n i [] left = (left, none)
pipewrite copyin addr n i ((p, killed) ∷ later) left =
    elim (write_from copyin killed addr (n - i) i p) [
      | gone p' ↦ (p' ∷ left, some none)
      | full p' j ↦ pipewrite copyin addr n j later (p' ∷ left)
      | wrote p' j ↦ (p' ∷ left, some (some j))
    ]

-- One test of the waiting loop of `piperead`.
pub data Wait : Type 0 where
  ready sleeps killed_reader : Wait

pub read_wait : Bool → Pipe → Wait
read_wait killed p =
    if p.nread == p.nwrite && p.writeopen then (if killed then killed_reader else sleeps) else ready

module _ (copyout : ℕ → Bool) (addr : ℕ) where
  -- The copying loop of `piperead`: `k` bytes are still wanted at `addr + i`. The bytes that reach
  -- user memory, the pipe, and the count returned. A byte that `copyout` refuses has left the pipe.
  pub read_from : ℕ → ℕ → Pipe → List ℕ × Pipe × ℕ
  read_from zero i p = ([], p, i)
  read_from (suc k) i p = elim (p.nread == p.nwrite) [
    | true ↦ ([], p, i)
    | false ↦ elim (copyout (addr + i)) [
      | false ↦ ([], advance p, i)
      | true ↦ let (got, p', j) = read_from k (i + 1) (advance p) in (front p ∷ got, p', j)
    ]
  ]

-- What a call of `piperead` ends in: the bytes stored, the pipe and the result, -1 being `none`.
-- Where it copies, the writers are woken.
pub piperead : (ℕ → Bool) → ℕ → ℕ → List (Pipe × Bool) → Option (List ℕ × Pipe × Option ℕ)
piperead copyout addr n [] = none
piperead copyout addr n ((p, killed) ∷ later) = elim (read_wait killed p) [
  | sleeps ↦ piperead copyout addr n later
  | killed_reader ↦ some ([], p, none)
  | ready ↦ let (got, p', i) = read_from copyout addr n 0 p in some (got, p', some i)
]
