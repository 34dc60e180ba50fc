-- ===== src/Bio/Tests.antt =====
-- kernel/bio.c: runs on the empty cache.
use csse_332_final.Base.{ℕ, ◌≡◌, arith, refl, List, returns, some, true}
use csse_332_final.Bio.{
  Bcache, set_buf, acquiresleep, link_front, link_bufs, binit, find_block, find_unused, hit,
  recycle, bget, lock_buf, brelse,
}
use csse_332_final.Bio.Blocks.{IsCache, Gets, bget-Gets, Released, brelse-Released}
use csse_332_final.Bio.Runs.{here, next, gets, locks, Reach-IsCache}

-- The first block goes to the buffer that stands last.
first : Bcache
first = recycle 1 7 0 binit

gets_first : bget 1 7 binit ≡ returns (0, first)
unfolding first bget find_block find_unused binit link_bufs link_front
gets_first = refl

gets_again : bget 1 7 first ≡ returns (0, hit 0 first)
unfolding first bget find_block find_unused binit link_bufs link_front
gets_again = refl

-- Process 3 has its lock.
held : Bcache
unfolding first
held = set_buf first 0 (record (first.buf 0) { lock = record { locked = true; pid = 3 } })

locks_first : lock_buf 3 0 first ≡ some held
unfolding first held lock_buf acquiresleep binit
locks_first = refl

kept : (l : List ℕ) × IsCache l held
kept = Reach-IsCache (next (next here (gets 1 7 gets_first)) (locks 3 0 locks_first))

Reach-IsCache_example : (l : List ℕ) × IsCache l (hit 0 first)
Reach-IsCache_example = Reach-IsCache (next (next here (gets 1 7 gets_first)) (gets 1 7 gets_again))

bget-Gets_example : Gets 1 8 kept.0 held (bget 1 8 held)
bget-Gets_example = bget-Gets 1 8 kept.0 held kept.1

brelse-Released_example : Released 3 0 kept.0 held (brelse 3 0 held)
brelse-Released_example = brelse-Released 3 0 kept.0 held (omega arith) kept.1
