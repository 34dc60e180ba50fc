-- ===== src/Fs/Content.antt =====
-- kernel/fs.c: the blocks of a file, `bmap`, `readi` and `writei`.
--
-- A function takes the inode and the blocks and returns them changed. `copied tot m` is how many of
-- `m` bytes `either_copyin` or `either_copyout` copies for the chunk at `tot`: it fails if fewer.
-- `log_write` panics where the log is full; that of a block of the map or of addresses comes before that
-- of a chunk or of the inode, with no more blocks in the log, so that the later test decides.
pub mod Files
pub mod Overwrite
pub mod Attach
pub mod Grow
pub mod Bmap
pub mod Write
pub mod Writei
pub mod Read
pub mod ReadWrite
use csse_332_final.Base.{
  ℕ, zero, suc, ◌+◌, ◌-◌, ◌*◌, ◌/◌, ◌%◌, min, Bool, true, false, not, ◌&&◌, ◌||◌, Option, none,
  some, List, [], ◌∷◌, ◌++◌, Run, returns, panics, ◌>>=◌, leb, ltb, ◌==◌, if◌then◌else◌, update,
}
use csse_332_final.Base.Words.{add32}
use csse_332_final.Log.{log_size}
use csse_332_final.Fs.{Superblock, Block, Blocks, bsize, ndirect, nindirect, maxfile}
use csse_332_final.Fs.Bytes.{get32, put32}
use csse_332_final.Fs.Bitmap.{balloc, bfree}
use csse_332_final.Fs.Inode.{Inode, iupdate}

abbrev pub set_addr : ℕ → ℕ → Inode → Inode
set_addr i a ip = record ip { addrs = update ip.addrs i a }

-- The entry `k` of the indirect block `a`, which is allocated if it is 0.
pub bmap_entry : Superblock → ℕ → ℕ → Inode → Blocks → ℕ × Inode × Blocks
bmap_entry sb k a ip d =
    let e = get32 (d a) (4 * k) in
    let (b, d1) = balloc sb d in
    if not (e == 0)
    then (e, ip, d)
    else if b == 0
    then (b, ip, d1)
    else (b, ip, update d1 a (put32 (4 * k) b (d1 a)))

-- A direct block, or the indirect block itself: the address at `i`, allocated if it is 0.
pub bmap_addr : Superblock → ℕ → Inode → Blocks → ℕ × Inode × Blocks
bmap_addr sb i ip d =
    let (b, d1) = balloc sb d in
    if not (ip.addrs i == 0)
    then (ip.addrs i, ip, d)
    else if b == 0
    then (0, ip, d1)
    else (b, set_addr i b ip, d1)

pub bmap : Superblock → ℕ → Inode → Blocks → Run (ℕ × Inode × Blocks)
bmap sb bn ip d =
    if ltb bn ndirect
    then returns (bmap_addr sb bn ip d)
    else if ltb (bn - ndirect) nindirect
    then (let (a, ip1, d1) = bmap_addr sb ndirect ip d in
        returns (if a == 0 then (0, ip1, d1) else bmap_entry sb (bn - ndirect) a ip1 d1))
    else panics "bmap: out of range"

-- Block `n` of the file, as the addresses have it: 0 where there is none.
unfoldable pub block_of : Inode → Blocks → ℕ → ℕ
block_of ip d n =
    if ltb n ndirect
    then ip.addrs n
    else if ip.addrs ndirect == 0
    then 0
    else get32 (d (ip.addrs ndirect)) (4 * (n - ndirect))

-- The `n` bytes of a block from `i` on.
pub slice : Block → ℕ → ℕ → List ℕ
slice a i zero = []
slice a i (suc n) = a i ∷ slice a (i + 1) n

-- The bytes of `src` from `tot` on, in the place of `m` bytes from `i` on.
pub fill : Block → ℕ → ℕ → (ℕ → ℕ) → ℕ → Block
fill a i m src tot j = if leb i j && ltb j (i + m) then src (tot + (j - i)) else a j

-- `min(n - tot, BSIZE - off%BSIZE)`
abbrev pub chunk : ℕ → ℕ → ℕ
chunk left off = min left (bsize - off % bsize)

-- `log.size`, and `log.lh.n` where `writei` logs the chunk at `tot` or, at its end, the inode.
pub record LogUse : Type 0 where
  pub size : ℕ
  pub n : ℕ → ℕ

-- The test of `log_write`.
abbrev pub log_full : LogUse → ℕ → Bool
log_full lg tot = leb log_size (lg.n tot) || leb lg.size (lg.n tot + 1)

module _ (sb : Superblock) (copied : ℕ → ℕ → ℕ) where
  -- The loop of `readi`, with what has been read; `none` is the -1 of a failed copy. Each round reads
  -- a byte at least, so that `n` rounds of fuel are enough.
  pub readi_from : ℕ → ℕ → ℕ → ℕ → List ℕ → Inode → Blocks → Run (Option (List ℕ) × Inode × Blocks)
  readi_from zero n tot off got ip d = returns (some got, ip, d)
  readi_from (suc fuel) n tot off got ip d = elim (ltb tot n) [
    | false ↦ returns (some got, ip, d)
    | true ↦ elim (bmap sb (off / bsize) ip d) [
      | panics s ↦ panics s
      | returns (addr, ip1, d1) ↦ elim (addr == 0) [
        | true ↦ returns (some got, ip1, d1)
        | false ↦ elim (ltb (copied tot (chunk (n - tot) off)) (chunk (n - tot) off)) [
          | true ↦ returns (none, ip1, d1)
          | false ↦
              readi_from fuel n (tot + chunk (n - tot) off) (off + chunk (n - tot) off)
                (got ++ slice (d1 addr) (off % bsize) (chunk (n - tot) off)) ip1 d1
        ]
      ]
    ]
  ]

  pub readi : ℕ → ℕ → Inode → Blocks → Run (Option (List ℕ) × Inode × Blocks)
  readi off n ip d =
      let n' = if ltb ip.size (add32 off n) then ip.size - off else n in
      if ltb ip.size off || ltb (add32 off n) off
      then returns (some [], ip, d)
      else readi_from n' n' 0 off [] ip d

module _ (sb : Superblock) (copied : ℕ → ℕ → ℕ) (lg : LogUse) where
  -- The loop of `writei`: `tot` and `off` at its end. A copy that fails has changed the buffer up to
  -- the byte where it failed.
  pub writei_from : (ℕ → ℕ) → ℕ → ℕ → ℕ → ℕ → Inode → Blocks → Run (ℕ × ℕ × Inode × Blocks)
  writei_from src zero n tot off ip d = returns (tot, off, ip, d)
  writei_from src (suc fuel) n tot off ip d = elim (ltb tot n) [
    | false ↦ returns (tot, off, ip, d)
    | true ↦ elim (bmap sb (off / bsize) ip d) [
      | panics s ↦ panics s
      | returns (addr, ip1, d1) ↦ elim (addr == 0) [
        | true ↦ returns (tot, off, ip1, d1)
        | false ↦ elim (ltb (copied tot (chunk (n - tot) off)) (chunk (n - tot) off)) [
          | true ↦ returns (
            tot,
            off,
            ip1,
            update d1 addr
                (fill (d1 addr) (off % bsize) (copied tot (chunk (n - tot) off)) src tot),
          )
          | false ↦ elim (log_full lg tot) [
            | true ↦ panics "too big a transaction"
            | false ↦
                writei_from src fuel n (tot + chunk (n - tot) off) (off + chunk (n - tot) off) ip1
                  (update d1 addr (fill (d1 addr) (off % bsize) (chunk (n - tot) off) src tot))
          ]
        ]
      ]
    ]
  ]

  -- `inum` is the number of the inode; `none` is -1.
  pub writei : ℕ → (ℕ → ℕ) → ℕ → ℕ → Inode → Blocks → Run (Option ℕ × Inode × Blocks)
  writei inum src off n ip d =
      if ltb ip.size off || ltb (add32 off n) off
      then returns (none, ip, d)
      else if ltb (maxfile * bsize) (add32 off n)
      then returns (none, ip, d)
      else (writei_from src n n 0 off ip d >>= λ (out : ℕ × ℕ × Inode × Blocks).
          let (tot, end, ip1, d1) = out in
          let ip2 = if ltb ip1.size end then record ip1 { size = end } else ip1 in
          if log_full lg tot
          then panics "too big a transaction"
          else returns (some tot, ip2, iupdate sb inum ip2 d1))
