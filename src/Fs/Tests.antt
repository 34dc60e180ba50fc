-- ===== src/Fs/Tests.antt =====
-- kernel/fs.c: a disk of 64 blocks, of which the first four are in use: the last of them holds the map,
-- the one before it the inodes.
use csse_332_final.Base.{
  ℕ, ◌+◌, ◌*◌, ◌/◌, ◌%◌, ◌≡◌, ◌≢◌, refl, ◌∙◌, ap, true, ◌&&◌, arith, ◌==◌, if◌then◌else◌, some,
  returns,
}
use csse_332_final.Fs.{Superblock, Blocks, bblock, iblock}
use csse_332_final.Fs.Inode.{Inode, blank, read_inode, iupdate}
use csse_332_final.Fs.Inode.Fields.{Fits, Same}
use csse_332_final.Fs.Inode.RoundTrip.{iupdate_stores}
use csse_332_final.Fs.Bitmap.{is_free, find_bit, find_free, balloc}
use csse_332_final.Fs.Bitmap.Marks.{used, IsBytes}
use csse_332_final.Fs.Bitmap.Alloc.{IsMap, Answers, balloc-Answers}
use csse_332_final.Fs.Content.{LogUse, block_of, bmap, readi, writei}
use csse_332_final.Fs.Content.Files.{IsDisk, IsFile}
use csse_332_final.Fs.Content.Bmap.{Maps, bmap-Maps}
use csse_332_final.Fs.Content.Writei.{Ended}
use csse_332_final.Fs.Content.ReadWrite.{source, Written, writei-Written, readi-writei}

abbrev pub sb : Superblock
sb = record { size = 64; ninodes = 16; inodestart = 2; bmapstart = 3 }

abbrev pub disk : Blocks
disk b i = if b == 3 && i == 0 then 15 else 0

abbrev file : Inode
file = blank 2

bytes : (x : ℕ) → IsBytes (disk (bblock x sb))
bytes x i = ground arith

map_used : used sb disk 3 ≡ true
unfolding is_free
map_used = refl

inodes_used : used sb disk 2 ≡ true
unfolding is_free
inodes_used = refl

boot_used : used sb disk 0 ≡ true
unfolding is_free
boot_used = refl

is_map : IsMap sb disk
is_map = record {
  bytes = bytes;
  own =
      λ x l. let e : bblock x sb ≡ 3 = omega arith in (omega arith, ap (used sb disk) e ∙ map_used);
  boot = boot_used;
}

pub is_disk : IsDisk sb disk
is_disk = record {
  small = omega arith;
  map = is_map;
  inodes = λ i l.
      let e : iblock i sb ≡ 2 = omega arith in (omega arith, ap (used sb disk) e ∙ inodes_used);
}

no_block : (n : ℕ) → block_of file disk n ≡ 0
unfolding block_of
no_block n = ground arith

is_file : IsFile sb file disk
is_file = record {
  blocks = λ n l ne. absurd (ne (no_block n));
  indirect = λ ne. absurd (ne refl);
  distinct = λ n m l h ne e. absurd (ne (no_block n));
  apart = λ n l ne. absurd (ne (no_block n));
}

blank-Fits : Fits file
blank-Fits = record {
  type = omega arith;
  major = omega arith;
  minor = omega arith;
  nlink = omega arith;
  size = omega arith;
  addrs = λ i l. omega arith;
}

iupdate_stores_example :
    Same (read_inode sb 3 (iupdate sb 3 file disk)) file
    × ((i : ℕ) → i ≢ 3 → Same (read_inode sb i (iupdate sb 3 file disk)) (read_inode sb i disk))
iupdate_stores_example = iupdate_stores sb 3 file disk blank-Fits

balloc-Answers_example : Answers sb disk (balloc sb disk)
balloc-Answers_example = balloc-Answers sb disk is_map

-- The first free block is block 4.
takes_4 : (balloc sb disk).0 ≡ 4
unfolding balloc find_free find_bit is_free
takes_4 = refl

-- Block 12 of the file is behind the indirect block.
bmap-Maps_example :
    (out : ℕ × Inode × Blocks) × (bmap sb 12 file disk ≡ returns out) × Maps sb 12 file disk out
bmap-Maps_example = bmap-Maps sb 12 file disk (omega arith) is_disk is_file

-- 2000 bytes, of which every copy succeeds.
abbrev copied : ℕ → ℕ → ℕ
copied tot m = m

-- Each chunk logs three blocks.
abbrev log : LogUse
log = record { size = 30; n = λ tot. 3 * (tot / 1024) + 3 }

abbrev bytes_of : ℕ → ℕ
bytes_of j = j % 256

writei-Written_example :
    (tot : ℕ) × (ip' : Inode) × (d' : Blocks) × (d1 : Blocks) × (writei sb copied log 3 bytes_of 0
        2000 file disk
      ≡ returns (some tot, ip', d'))
    × Written sb copied bytes_of 0 2000 file disk tot ip' d'
    × (d' ≡ iupdate sb 3 ip' d1)
    × Ended sb copied 2000 tot d1
writei-Written_example =
    writei-Written sb copied log bytes_of 3 0 2000 file disk (λ tot h. ground arith)
      (λ j. omega arith) (omega arith) (omega arith) (omega arith) is_disk is_file

readi-writei_example :
    (tot : ℕ) × (ip' : Inode) × (d' : Blocks) × (d1 : Blocks) × (writei sb copied log 3 bytes_of 0
        2000 file disk
      ≡ returns (some tot, ip', d'))
    × (readi sb copied 0 tot ip' d' ≡ returns (some (source bytes_of 0 tot), ip', d'))
    × (d' ≡ iupdate sb 3 ip' d1)
    × Ended sb copied 2000 tot d1
readi-writei_example =
    readi-writei sb copied log bytes_of 3 0 2000 file disk (λ tot h. ground arith)
      (λ j. omega arith) (omega arith) (omega arith) (omega arith) is_disk is_file copied
      (λ tot m. omega arith) (omega arith)
