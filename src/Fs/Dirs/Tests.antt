-- ===== src/Fs/Dirs/Tests.antt =====
-- kernel/fs.c: a directory with one entry, and an empty one on an empty disk.
use csse_332_final.Base.{
  ℕ, ◌+◌, ◌/◌, ◌<◌, ◌∙◌, sym, ap, ◌≡◌, refl, arith, Bool, true, false, ◌&&◌, Option, returns, ◌==◌,
  if◌then◌else◌,
}
use csse_332_final.Fs.{Blocks}
use csse_332_final.Fs.Inode.{Inode, blank, iupdate}
use csse_332_final.Fs.Bitmap.Marks.{used}
use csse_332_final.Fs.Content.{LogUse, block_of}
use csse_332_final.Fs.Content.Files.{IsFile}
use csse_332_final.Fs.Table.{Itable}
use csse_332_final.Fs.Tests.{sb, disk, is_disk}
use csse_332_final.Fs.Dirs.{dirlookup, dirlink}
use csse_332_final.Fs.Dirs.Entries.{IsDir}
use csse_332_final.Fs.Dirs.Lookup.{FindsEntry, get_found, dirlookup-FindsEntry}
use csse_332_final.Fs.Dirs.Link.{Added, dirlookup-dirlink}

-- The name "a" for inode 2, and an empty entry.
abbrev one_name : Blocks
one_name b i = if b == 5 && i == 0 then 2 else if b == 5 && i == 2 then 97 else 0

abbrev dir : Inode
dir = record (blank 1) { size = 32; addrs = λ i. if i == 0 then 5 else 0 }

abbrev name_a : ℕ → ℕ
name_a j = if j == 0 then 97 else 0

abbrev table : Itable
table i = record { dev = 0; inum = 0; ref = 0; valid = false; inode = blank 0 }

has_block : block_of dir one_name 0 ≡ 5
unfolding block_of
has_block = refl

is_dir : IsDir dir one_name
is_dir = record {
  type = refl;
  whole = refl;
  fits = omega arith;
  there = λ p a b z. five_is_zero (sym has_block ∙ ap (block_of dir one_name) (first p b) ∙ z);
}
  where
    five_is_zero : ◌≡◌ {A = ℕ} 5 0 → ⊥
    five_is_zero e = omega (arith, e)

    first : (p : ℕ) → p < 0 + 32 → 0 ≡ p / 1024
    first p h = omega (arith, h)

dirlookup-FindsEntry_example :
    (o : Option (ℕ × ℕ)) × FindsEntry dir one_name name_a 0 o
    × (dirlookup sb 1 name_a dir one_name table ≡ get_found sb dir one_name is_dir 1 table o)
dirlookup-FindsEntry_example = dirlookup-FindsEntry sb dir one_name is_dir 1 name_a table

abbrev empty_dir : Inode
empty_dir = blank 1

is_empty_dir : IsDir empty_dir disk
is_empty_dir = record {
  type = refl;
  whole = refl;
  fits = omega arith;
  there = λ p a b. absurd (omega (arith, b));
}

empty_block : (n : ℕ) → block_of empty_dir disk n ≡ 0
unfolding block_of
empty_block n = ground arith

is_file : IsFile sb empty_dir disk
is_file = record {
  blocks = λ n l ne. absurd (ne (empty_block n));
  indirect = λ ne. absurd (ne refl);
  distinct = λ n m l h ne e. absurd (ne (empty_block n));
  apart = λ n l ne. absurd (ne (empty_block n));
}

-- A transaction that has logged three blocks.
abbrev log : LogUse
log = record { size = 30; n = λ tot. tot / 16 + 3 }

dirlookup-dirlink_example :
    (ok : Bool) × (ip' : Inode) × (d' : Blocks) × (dirlink sb log 1 3 name_a 7 empty_dir disk table
      ≡ returns (ok, ip', d', table))
    × ((ok ≡ true) → Added sb 1 name_a 7 empty_dir disk ip' d')
    × ((ok ≡ false)
        → (d1 : Blocks) × (d' ≡ iupdate sb 3 ip' d1) × ((x : ℕ) → x < 64 → used sb d1 x ≡ true))
dirlookup-dirlink_example =
    dirlookup-dirlink sb log 1 3 name_a 7 empty_dir disk table (λ tot h. ground arith) is_disk
      is_file is_empty_dir (omega arith) (λ j. ground arith) (omega arith) (omega arith)
      (omega arith) (λ x a b c m. omega (arith, b))
