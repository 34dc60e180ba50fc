-- ===== src/Fs/Inode.antt =====
-- kernel/fs.c: inodes on the disk, `iupdate`, the reading part of `ilock`, and `ialloc`.
pub mod Fields
pub mod RoundTrip
pub mod Allocation
use csse_332_final.Base.{
  ℕ, zero, suc, ◌+◌, ◌-◌, ◌*◌, ◌/◌, ◌%◌, Bool, true, false, Option, none, some, ltb, ◌==◌,
  if◌then◌else◌, update,
}
use csse_332_final.Fs.{Superblock, Block, Blocks, ipb, ndirect, iblock}
use csse_332_final.Fs.Bytes.{get16, get32, put16, put32}

-- The fields of `struct inode` that `struct dinode` has; `addrs` has `NDIRECT+1` entries.
pub record Inode : Type 0 where
  pub type : ℕ
  pub major : ℕ
  pub minor : ℕ
  pub nlink : ℕ
  pub size : ℕ
  pub addrs : ℕ → ℕ

-- `struct dinode` in the `sizeof` 64 bytes from `base` on: `memmove` of the addresses, from entry `i` on
pub store_addrs : ℕ → ℕ → (ℕ → ℕ) → ℕ → Block → Block
store_addrs zero i addrs base a = a
store_addrs (suc k) i addrs base a =
    store_addrs k (i + 1) addrs base (put32 (base + 12 + 4 * i) (addrs i) a)

pub store_dinode : Inode → ℕ → Block → Block
store_dinode ip base a =
    let a1 = put16 base ip.type a in
    let a2 = put16 (base + 2) ip.major a1 in
    let a3 = put16 (base + 4) ip.minor a2 in
    let a4 = put16 (base + 6) ip.nlink a3 in
    let a5 = put32 (base + 8) ip.size a4 in store_addrs (ndirect + 1) 0 ip.addrs base a5

pub load_dinode : ℕ → Block → Inode
load_dinode base a = record {
  type = get16 a base;
  major = get16 a (base + 2);
  minor = get16 a (base + 4);
  nlink = get16 a (base + 6);
  size = get32 a (base + 8);
  addrs = λ i. get32 a (base + 12 + 4 * i);
}

-- `(struct dinode*)bp->data + inum%IPB`
abbrev pub dinode_at : ℕ → ℕ
dinode_at inum = inum % ipb * 64

pub iupdate : Superblock → ℕ → Inode → Blocks → Blocks
iupdate sb inum ip d = let b = iblock inum sb in update d b (store_dinode ip (dinode_at inum) (d b))

-- What `ilock` reads into an inode that is not valid; it panics where the type is 0.
pub read_inode : Superblock → ℕ → Blocks → Inode
read_inode sb inum d = load_dinode (dinode_at inum) (d (iblock inum sb))

-- `memset(dip, 0, sizeof(*dip)); dip->type = type`
abbrev pub blank : ℕ → Inode
blank type = record { type = type; major = 0; minor = 0; nlink = 0; size = 0; addrs = λ i. 0 }

-- The loop of `ialloc`, with `k` inodes left from `inum` on: the inode that is taken.
pub ialloc_from : Superblock → ℕ → ℕ → ℕ → Blocks → Option ℕ × Blocks
ialloc_from sb type zero inum d = (none, d)
ialloc_from sb type (suc k) inum d =
    let rest = ialloc_from sb type k (inum + 1) d in
    if (read_inode sb inum d).type == 0 then (some inum, iupdate sb inum (blank type) d) else rest

pub ialloc : Superblock → ℕ → Blocks → Option ℕ × Blocks
ialloc sb type d = ialloc_from sb type (sb.ninodes - 1) 1 d
