-- ===== src/Fs/Truncate.antt =====
-- kernel/fs.c: `itrunc` gives the blocks of a file back.
pub mod Freed
pub mod Frees
use csse_332_final.Base.{
  ℕ, zero, suc, ◌+◌, ◌*◌, Run, returns, panics, ◌>>=◌, Bool, true, false, ◌==◌, if◌then◌else◌,
}
use csse_332_final.Fs.{Superblock, Blocks, ndirect, nindirect}
use csse_332_final.Fs.Bytes.{get32}
use csse_332_final.Fs.Bitmap.{bfree}
use csse_332_final.Fs.Inode.{Inode, iupdate}
use csse_332_final.Fs.Content.{set_addr}

-- The loop over the direct blocks, with `k` of them left from `i` on.
pub free_direct : Superblock → ℕ → ℕ → Inode → Blocks → Run (Inode × Blocks)
free_direct sb zero i ip d = returns (ip, d)
free_direct sb (suc k) i ip d = elim (ip.addrs i == 0) [
  | true ↦ free_direct sb k (i + 1) ip d
  | false ↦ elim (bfree sb (ip.addrs i) d) [
    | panics s ↦ panics s
    | returns d1 ↦ free_direct sb k (i + 1) (set_addr i 0 ip) d1
  ]
]

-- The loop over the entries of the indirect block `a`, with `k` of them left from `j` on.
pub free_entries : Superblock → ℕ → ℕ → ℕ → Blocks → Run Blocks
free_entries sb zero j a d = returns d
free_entries sb (suc k) j a d = elim (get32 (d a) (4 * j) == 0) [
  | true ↦ free_entries sb k (j + 1) a d
  | false ↦ elim (bfree sb (get32 (d a) (4 * j)) d) [
    | panics s ↦ panics s
    | returns d1 ↦ free_entries sb k (j + 1) a d1
  ]
]

pub free_indirect : Superblock → Inode → Blocks → Run (Inode × Blocks)
free_indirect sb ip d =
    if ip.addrs ndirect == 0
    then returns (ip, d)
    else (free_entries sb nindirect 0 (ip.addrs ndirect) d >>= λ d1.
        bfree sb (ip.addrs ndirect) d1 >>= λ d2. returns (set_addr ndirect 0 ip, d2))

-- `inum` is the number of the inode.
pub itrunc : Superblock → ℕ → Inode → Blocks → Run (Inode × Blocks)
itrunc sb inum ip d = free_direct sb ndirect 0 ip d >>= λ (direct : Inode × Blocks).
    free_indirect sb direct.0 direct.1 >>= λ (left : Inode × Blocks).
    (let ip1 = record left.0 { size = 0 } in returns (ip1, iupdate sb inum ip1 left.1))
