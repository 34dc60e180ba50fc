-- ===== src/Log.antt =====
-- kernel/log.c: the redo log of the file system.
--
-- A block is its sequence of 32-bit words. `cached b` is what `bread` returns for block `b`, and
-- `disk b` what the device holds; `trace` keeps every disk that was there after a `bwrite`, the
-- last one first, so that a crash can be placed after any write. One block is written atomically.
-- The functions run under `log.lock` or in the only commit, so each is one step here; `brelse`
-- and the lock change no part of this state. There is one device, so `dev` is left out.
pub mod Loops
pub mod Holds
pub mod Recovery
pub mod Atomic
pub mod Reserve
pub mod Absorb
mod Tests
use csse_332_final.Base.{
  ℕ, zero, suc, ◌+◌, ◌-◌, ◌*◌, ◌^◌, Bool, true, false, ◌&&◌, ◌||◌, Option, none, some, List, [],
  ◌∷◌, Run, returns, panics, ltb, leb, ◌==◌, if◌then◌else◌, update,
}
use csse_332_final.Base.Words.{add32, sub32}

abbrev pub Block : Type 0
Block = ℕ → ℕ

abbrev pub Disk : Type 0
Disk = ℕ → Block

pub record Store : Type 0 where
  pub disk : Disk
  pub cached : Disk
  pub pins : ℕ → ℕ  -- `refcnt` of the buffers
  pub trace : List Disk

abbrev pub max_op_blocks : ℕ
max_op_blocks = 10

abbrev pub log_size : ℕ
log_size = max_op_blocks * 3

abbrev pub block_size : ℕ
block_size = 1024

-- `struct log`, with the fields `n` and `block` of its header `lh`.
pub record Log : Type 0 where
  pub start : ℕ
  pub size : ℕ
  pub outstanding : ℕ
  pub committing : Bool
  pub n : ℕ
  pub block : ℕ → ℕ

-- `bwrite` of kernel/bio.c: the cached block goes to the disk.
pub bwrite : ℕ → Store → Store
bwrite b s = let d = update s.disk b (s.cached b) in record s { disk = d; trace = d ∷ s.trace }

-- `memmove(to->data, from->data, BSIZE)` between two cached blocks
pub copy_block : ℕ → ℕ → Store → Store
copy_block to from s = record s { cached = update s.cached to (s.cached from) }

pub bpin : ℕ → Store → Store
bpin b s = record s { pins = update s.pins b (add32 (s.pins b) 1) }

pub bunpin : ℕ → Store → Store
bunpin b s = record s { pins = update s.pins b (sub32 (s.pins b) 1) }

-- `k` rounds of the loop of `install_trans`, from `tail` on
pub install_from : Log → Bool → ℕ → ℕ → Store → Store
install_from lg recovering zero tail s = s
install_from lg recovering (suc k) tail s =
    let b = lg.block tail in
    let s' = bwrite b (copy_block b (lg.start + tail + 1) s) in
    install_from lg recovering k (tail + 1) (if recovering then s' else bunpin b s')

pub install_trans : Log → Bool → Store → Store
install_trans lg recovering s = install_from lg recovering lg.n 0 s

-- An `int` read from a block bounds a loop: a negative one runs no round.
abbrev pub int_rounds : ℕ → ℕ
int_rounds w = if ltb w (2 ^ 31) then w else 0

-- the loop of `read_head`: `log.lh.block[i] = lh->block[i]`
pub read_blocks : Block → ℕ → ℕ → (ℕ → ℕ) → ℕ → ℕ
read_blocks head zero i f = f
read_blocks head (suc k) i f = read_blocks head k (i + 1) (update f i (head (i + 1)))

-- Word 0 of the header block is `n`, word `i + 1` is `block[i]`.
pub read_head : Log → Store → Log
read_head lg s =
    let head = s.cached lg.start in
    let n = int_rounds (head 0) in record lg { n = n; block = read_blocks head n 0 lg.block }

-- the loop of `write_head`: `hb->block[i] = log.lh.block[i]`
pub write_blocks : (ℕ → ℕ) → ℕ → ℕ → Block → Block
write_blocks f zero i head = head
write_blocks f (suc k) i head = write_blocks f k (i + 1) (update head (i + 1) (f i))

abbrev pub head_block : Log → Block → Block
head_block lg old = write_blocks lg.block lg.n 0 (update old 0 lg.n)

pub write_head : Log → Store → Store
write_head lg s =
    bwrite lg.start
      (record s { cached = update s.cached lg.start (head_block lg (s.cached lg.start)) })

pub recover_from_log : Log → Store → Log × Store
recover_from_log lg s =
    let lg1 = read_head lg s in
    let s1 = install_trans lg1 true s in let lg2 = record lg1 { n = 0 } in (lg2, write_head lg2 s1)

-- `sizeof(struct logheader)` is four bytes for `n` and for each of the `LOGSIZE` block numbers.
pub initlog : ℕ → ℕ → Log → Store → Run (Log × Store)
initlog logstart nlog lg s =
    if leb block_size (4 * (1 + log_size))
    then panics "initlog: too big logheader"
    else returns (recover_from_log (record lg { start = logstart; size = nlog }) s)

-- `k` rounds of the loop of `write_log`, from `tail` on
pub log_from : Log → ℕ → ℕ → Store → Store
log_from lg zero tail s = s
log_from lg (suc k) tail s =
    let to = lg.start + tail + 1 in
    log_from lg k (tail + 1) (bwrite to (copy_block to (lg.block tail) s))

pub write_log : Log → Store → Store
write_log lg s = log_from lg lg.n 0 s

-- With `n` at 0 nothing is done; else the second `write_head` erases the transaction.
pub commit : Log → Store → Log × Store
commit lg s =
    if ltb 0 lg.n
    then (let s1 = write_head lg (write_log lg s) in
        let s2 = install_trans lg false s1 in
        let lg' = record lg { n = 0 } in (lg', write_head lg' s2))
    else (lg, s)

-- One test of the loop of `begin_op`: `none` is a `sleep`. `outstanding` is an `int` kept as its
-- bit pattern: a negative one never makes the sum exceed `LOGSIZE`.
pub try_begin : Log → Option Log
try_begin lg =
    let ops = add32 lg.outstanding 1 in
    if lg.committing
    then none
    else if ltb ops (2 ^ 31) && ltb log_size (lg.n + ops * max_op_blocks)
    then none
    else some (record lg { outstanding = ops })

-- The list holds the states of the log that the caller finds, at first and after each `sleep`.
-- `none` is a caller that is still asleep.
pub begin_op : List Log → Option Log
begin_op [] = none
begin_op (lg ∷ later) =
    let rest = begin_op later in elim (try_begin lg) [ some lg' ↦ some lg' | none ↦ rest ]

-- The first critical section of `end_op`; the answer is `do_commit`. Where it is false, the
-- sleepers of `begin_op` are woken.
pub leave_op : Log → Run (Log × Bool)
leave_op lg =
    let lg' = record lg { outstanding = sub32 lg.outstanding 1 } in
    if lg.committing
    then panics "log.committing"
    else if lg'.outstanding == 0
    then returns (record lg' { committing = true }, true)
    else returns (lg', false)

pub end_op : Log → Store → Run (Log × Store)
end_op lg s = elim (leave_op lg) [
  | panics m ↦ panics m
  | returns (lg', do_commit) ↦
      if do_commit
      then (let (done, s') = commit lg' s in returns (record done { committing = false }, s'))
      else returns (lg', s)
]

-- the loop of `log_write`: the first of `k` places from `i` on that holds `b`, or the place after
pub find_block : (ℕ → ℕ) → ℕ → ℕ → ℕ → ℕ
find_block f b zero i = i
find_block f b (suc k) i = let rest = find_block f b k (i + 1) in if f i == b then i else rest

-- The test on `log.size - 1` is signed: for a size of 0 it holds at once.
pub log_write : Log → ℕ → Store → Run (Log × Store)
log_write lg b s =
    if leb log_size lg.n || leb lg.size (lg.n + 1)
    then panics "too big a transaction"
    else if lg.outstanding == 0 || leb (2 ^ 31) lg.outstanding
    then panics "log_write outside of trans"
    else (let i = find_block lg.block b lg.n 0 in
        let lg' = record lg { block = update lg.block i b } in
        if i == lg.n then returns (record lg' { n = lg.n + 1 }, bpin b s) else returns (lg', s))
