-- ===== src/Fs.antt =====
-- kernel/fs.c: the free map, inodes on the disk and in memory, and the contents of files.
--
-- The blocks are their cached contents, byte by byte: `bread` gives them, and `log_write` makes a
-- change of them part of the transaction, which the log carries to the disk. The super block is an
-- argument. Block numbers and sizes are `uint`; those of the map are below 2^31 in every image.
pub mod Bytes
pub mod Bitmap
pub mod Inode
pub mod Content
pub mod Truncate
pub mod Table
pub mod Dirs
mod Tests
use csse_332_final.Base.{ℕ, ◌+◌, ◌/◌}

abbrev pub bsize : ℕ
bsize = 1024

-- bits of the map in a block
abbrev pub bpb : ℕ
bpb = 8192

-- inodes in a block, each of 64 bytes
abbrev pub ipb : ℕ
ipb = 16

abbrev pub ndirect : ℕ
ndirect = 12

abbrev pub nindirect : ℕ
nindirect = 256

abbrev pub maxfile : ℕ
maxfile = 268

pub record Superblock : Type 0 where
  pub size : ℕ
  pub ninodes : ℕ
  pub inodestart : ℕ
  pub bmapstart : ℕ

-- the block of the map with the bit of block `b`, and the block with inode `i`
abbrev pub bblock : ℕ → Superblock → ℕ
bblock b sb = b / bpb + sb.bmapstart

abbrev pub iblock : ℕ → Superblock → ℕ
iblock i sb = i / ipb + sb.inodestart

abbrev pub Block : Type 0
Block = ℕ → ℕ

abbrev pub Blocks : Type 0
Blocks = ℕ → Block
