-- ===== src/Bio.antt =====
-- kernel/bio.c: the buffer cache, with the sleep locks of kernel/sleeplock.c.
--
-- A buffer is its index in `bcache.buf`, with `bcache.head` behind the last; a block is its sequence of
-- words. The loops of `bget` run on as many rounds as there are buffers. A process that has to sleep for a
-- lock tries again later: `acquiresleep` is one round of its loop. `bcache.lock` is held over each function,
-- but for `releasesleep` at the start of `brelse`: it is one step with the rest, which does not read the lock.
pub mod Order
pub mod Ring
pub mod Search
pub mod Blocks
pub mod Runs
mod Tests
use csse_332_final.Base.{
  ℕ, zero, suc, ◌+◌, ◌-◌, Bool, true, false, ◌&&◌, not, Option, none, some, List, [], ◌∷◌, Run,
  returns, panics, ◌>>=◌, ◌==◌, if◌then◌else◌, update,
}
use csse_332_final.Base.Words.{add32, sub32}

abbrev pub n_buf : ℕ
n_buf = 30

pub record Sleeplock : Type 0 where
  pub locked : Bool
  pub pid : ℕ

pub record Buf : Type 0 where
  pub valid : Bool
  pub dev : ℕ
  pub blockno : ℕ
  pub lock : Sleeplock
  pub refcnt : ℕ
  pub words : ℕ → ℕ

-- `bcache.head`, and the pointers of `bcache.buf` before `binit`
abbrev pub head : ℕ
head = 30

abbrev pub null : ℕ
null = 31

-- The fields `next` and `prev` of the buffers and of the head.
pub record Links : Type 0 where
  pub next : ℕ → ℕ
  pub prev : ℕ → ℕ

pub record Bcache : Type 0 where
  pub buf : ℕ → Buf
  pub links : Links

abbrev pub set_buf : Bcache → ℕ → Buf → Bcache
set_buf c i b = record c { buf = update c.buf i b }

-- `none` where the process sleeps
pub acquiresleep : ℕ → Sleeplock → Option Sleeplock
acquiresleep me lk = if lk.locked then none else some (record { locked = true; pid = me })

abbrev pub releasesleep : Sleeplock → Sleeplock
releasesleep lk = record { locked = false; pid = 0 }

abbrev pub holdingsleep : ℕ → Sleeplock → Bool
holdingsleep me lk = lk.locked && lk.pid == me

-- `b` at the front of the ring
pub link_front : ℕ → Links → Links
link_front b r =
    let r1 = record r { next = update r.next b (r.next head) } in
    let r2 = record r1 { prev = update r1.prev b head } in
    let r3 = record r2 { prev = update r2.prev (r2.next head) b } in
    record r3 { next = update r3.next head b }

-- The ring without `b`.
pub unlink : ℕ → Links → Links
unlink b r =
    let r1 = record r { prev = update r.prev (r.next b) (r.prev b) } in
    record r1 { next = update r1.next (r1.prev b) (r1.next b) }

-- `k` rounds of the loop of `binit`
pub link_bufs : ℕ → ℕ → Links → Links
link_bufs zero i r = r
link_bufs (suc k) i r = link_bufs k (i + 1) (link_front i r)

abbrev pub empty_ring : Links
empty_ring = record { next = update (λ b. null) head head; prev = update (λ b. null) head head }

pub binit : Bcache
binit = record {
  buf = λ i. record {
    valid = false;
    dev = 0;
    blockno = 0;
    lock = record { locked = false; pid = 0 };
    refcnt = 0;
    words = λ w. 0;
  };
  links = link_bufs n_buf 0 empty_ring;
}

abbrev pub is_block : ℕ → ℕ → Buf → Bool
is_block dev blockno b = b.dev == dev && b.blockno == blockno

-- The loop along `next`, from `b` on.
pub find_block : ℕ → ℕ → (ℕ → Buf) → (ℕ → ℕ) → ℕ → ℕ → Option ℕ
find_block dev blockno t next zero b = none
find_block dev blockno t next (suc k) b =
    let rest = find_block dev blockno t next k (next b) in
    if b == head then none else if is_block dev blockno (t b) then some b else rest

-- The loop along `prev`, from `b` on.
pub find_unused : (ℕ → Buf) → (ℕ → ℕ) → ℕ → ℕ → Option ℕ
find_unused t prev zero b = none
find_unused t prev (suc k) b =
    let rest = find_unused t prev k (prev b) in
    if b == head then none else if (t b).refcnt == 0 then some b else rest

abbrev pub hit : ℕ → Bcache → Bcache
hit i c = set_buf c i (record (c.buf i) { refcnt = add32 (c.buf i).refcnt 1 })

abbrev pub recycle : ℕ → ℕ → ℕ → Bcache → Bcache
recycle dev blockno i c =
    set_buf c i (record (c.buf i) { dev = dev; blockno = blockno; valid = false; refcnt = 1 })

-- `bget` up to the call of `acquiresleep`
pub bget : ℕ → ℕ → Bcache → Run (ℕ × Bcache)
bget dev blockno c = elim (find_block dev blockno c.buf c.links.next n_buf (c.links.next head)) [
  | some i ↦ returns (i, hit i c)
  | none ↦ elim (find_unused c.buf c.links.prev n_buf (c.links.prev head)) [
    | some i ↦ returns (i, recycle dev blockno i c)
    | none ↦ panics "bget: no buffers"
  ]
]

-- A round of `acquiresleep(&b->lock)`
pub lock_buf : ℕ → ℕ → Bcache → Option Bcache
lock_buf me i c = elim (acquiresleep me (c.buf i).lock) [
  | none ↦ none
  | some lk ↦ some (set_buf c i (record (c.buf i) { lock = lk }))
]

-- The rest of `bread`: `virtio_disk_rw(b, 0)` where the buffer has no contents
pub read_in : (ℕ → ℕ → ℕ → ℕ) → ℕ → Bcache → Bcache
read_in disk i c =
    if not (c.buf i).valid
    then set_buf c i
        (record (c.buf i) { words = disk (c.buf i).dev (c.buf i).blockno; valid = true })
    else c

-- `bpin` and `bunpin`
abbrev pub pin_buf : ℕ → Bcache → Bcache
pin_buf i c = set_buf c i (record (c.buf i) { refcnt = add32 (c.buf i).refcnt 1 })

abbrev pub unpin_buf : ℕ → Bcache → Bcache
unpin_buf i c = set_buf c i (record (c.buf i) { refcnt = sub32 (c.buf i).refcnt 1 })

pub brelse : ℕ → ℕ → Bcache → Run Bcache
brelse me i c =
    let refcnt = sub32 (c.buf i).refcnt 1 in
    let c1 =
      set_buf c i (record (c.buf i) { lock = releasesleep (c.buf i).lock; refcnt = refcnt }) in
    if not (holdingsleep me (c.buf i).lock)
    then panics "brelse"
    else if refcnt == 0
    then returns (record c1 { links = link_front i (unlink i c1.links) })
    else returns c1
