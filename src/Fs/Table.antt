-- ===== src/Fs/Table.antt =====
-- kernel/fs.c: the table of inodes in memory, `iget`, `idup`, `ilock` and `iput`.
--
-- A call holds the lock of the table and the sleep lock of the inode over one step. An inode is the
-- index of its entry.
pub mod Entries
pub mod Puts
mod Tests
use csse_332_final.Base.{
  ℕ, zero, suc, ◌+◌, ◌-◌, Bool, true, false, ◌&&◌, not, Option, none, some, Run, returns, panics,
  ◌>>=◌, ltb, ◌==◌, if◌then◌else◌, update,
}
use csse_332_final.Fs.{Superblock, Blocks}
use csse_332_final.Fs.Inode.{Inode, read_inode, iupdate}
use csse_332_final.Fs.Truncate.{itrunc}

abbrev pub table_size : ℕ
table_size = 50

pub record Entry : Type 0 where
  pub dev : ℕ
  pub inum : ℕ
  pub ref : ℕ
  pub valid : Bool
  pub inode : Inode

abbrev pub Itable : Type 0
Itable = ℕ → Entry

-- How the loop of `iget` ends: at an entry with the inode, or with the first empty one, if any.
pub data Search : Type 0 where
  held : ℕ → Search
  not_held : Option ℕ → Search

-- `if(empty == 0 && ip->ref == 0) empty = ip`
pub remember : Option ℕ → ℕ → ℕ → Option ℕ
remember none ref i = if ref == 0 then some i else none
remember (some e) ref i = some e

abbrev pub is_held : ℕ → ℕ → Entry → Bool
is_held dev inum e = ltb 0 e.ref && (e.dev == dev && e.inum == inum)

pub search : ℕ → ℕ → Itable → ℕ → ℕ → Option ℕ → Search
search dev inum t zero i empty = not_held empty
search dev inum t (suc k) i empty =
    let rest = search dev inum t k (i + 1) (remember empty (t i).ref i) in
    if is_held dev inum (t i) then held i else rest

pub idup : ℕ → Itable → Itable
idup i t = update t i (record (t i) { ref = (t i).ref + 1 })

abbrev pub recycle : ℕ → ℕ → ℕ → Itable → Itable
recycle dev inum i t = update t i (record (t i) { dev = dev; inum = inum; ref = 1; valid = false })

pub iget : ℕ → ℕ → Itable → Run (ℕ × Itable)
iget dev inum t = elim (search dev inum t table_size 0 none) [
  | held i ↦ returns (i, idup i t)
  | not_held none ↦ panics "iget: no inodes"
  | not_held (some i) ↦ returns (i, recycle dev inum i t)
]

pub ilock : Superblock → ℕ → Itable → Blocks → Run Itable
ilock sb i t d =
    let ip = read_inode sb (t i).inum d in
    if ltb (t i).ref 1
    then panics "ilock"
    else if (t i).valid
    then returns t
    else if ip.type == 0
    then panics "ilock: no type"
    else returns (update t i (record (t i) { valid = true; inode = ip }))

abbrev pub is_last : Entry → Bool
is_last e = e.ref == 1 && (e.valid && e.inode.nlink == 0)

-- `ip->ref--`
abbrev pub drop_ref : ℕ → Itable → Itable
drop_ref i t = update t i (record (t i) { ref = (t i).ref - 1 })

-- The last reference to an inode without links: its contents are given back, and it is free on the disk.
pub free_inode : Superblock → ℕ → Itable → Blocks → Run (Itable × Blocks)
free_inode sb i t d = itrunc sb (t i).inum (t i).inode d >>= λ (out : Inode × Blocks).
    (let ip = record out.0 { type = 0 } in
      returns
        (update t i (record (t i) { valid = false; inode = ip }), iupdate sb (t i).inum ip out.1))

pub iput : Superblock → ℕ → Itable → Blocks → Run (Itable × Blocks)
iput sb i t d =
    (if is_last (t i) then free_inode sb i t d else returns (t, d)) >>= λ (out : Itable × Blocks).
    returns (drop_ref i out.0, out.1)
